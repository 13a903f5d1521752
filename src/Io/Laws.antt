-- ===== src/Io/Laws.antt =====
-- What socket I/O does to the buffers, and when a socket is closed.
use wsd.Prelude.{
  ℕ, ◌-◌, ◌≤◌, ◌<◌, ◌≡◌, ap, ◌∙◌, true, false, ◌==◌, if◌then◌else◌, some, List, ◌∷◌, ◌++◌, length,
  length-drop, drop, arith,
}
use wsd.Skb.{rdsz, wrsz, write, rd_forward, compact}
use wsd.Skb.Contents.{
  IsValid, contents, room, wrsz-eq, rdsz-eq, contents-write, write-IsValid, rd_forward-IsValid,
  contents-rd_forward, compact-IsValid, contents-compact,
}
use wsd.Types.{ok, Timespec, Sk}
use wsd.Sock.{with_sendbuf, with_recvbuf}
use wsd.Io.{sk_read, sk_write, kept, closed, ts_last_io_set, on_write, Hosts, next_host}

-- What read(2) returns, at least one byte and not more than there is room for, is appended to the
-- contents of the valid receive buffer, which stays valid.
pub sk_read_lem :
    (c : ℕ) (cs : List ℕ) (sk : Sk)
    → IsValid sk.recvbuf
    → length (c ∷ cs) ≤ room sk.recvbuf
    → (sk' : Sk) × (sk_read (some (c ∷ cs)) sk ≡ (ok, sk'))
      × (contents sk'.recvbuf ≡ contents sk.recvbuf ++ (c ∷ cs))
      × IsValid sk'.recvbuf
unfolding sk_read
sk_read_lem c cs sk v r =
    let open_ : (wrsz sk.recvbuf == 0) ≡ false = ground (arith, wrsz-eq v) in
    (
      with_recvbuf sk (write sk.recvbuf (c ∷ cs)),
      rw open_,
      contents-write (c ∷ cs) v r,
      write-IsValid (c ∷ cs) v r,
    )

-- What write(2) has taken, not more than there was in the valid send buffer, is gone from its front,
-- and the buffer stays valid.
pub sk_write_lem :
    (n : ℕ) (sk : Sk)
    → IsValid sk.sendbuf
    → 0 < length (contents sk.sendbuf)
    → n ≤ length (contents sk.sendbuf)
    → (sk' : Sk) × (sk_write (some n) sk ≡ (ok, sk'))
      × (contents sk'.sendbuf ≡ drop n (contents sk.sendbuf))
      × IsValid sk'.sendbuf
unfolding sk_write
sk_write_lem n sk v some_bytes h =
    let there : (rdsz sk.sendbuf == 0) ≡ false = ground (arith, rdsz-eq v) in
    let w = rd_forward-IsValid n v h in
    (
      with_sendbuf sk (compact (rd_forward sk.sendbuf n)),
      rw there,
      contents-compact w ∙ contents-rd_forward n v h,
      compact-IsValid w,
    )

-- A socket that is to be closed when its valid send buffer has been written is closed by the call
-- of on_write in which write(2) takes all of it, and kept by one in which it takes less, if it is
-- not to be closed at once.
pub on_write-close :
    (n : ℕ) (now : Timespec) (sk : Sk)
    → IsValid sk.sendbuf
    → 0 < length (contents sk.sendbuf)
    → n ≤ length (contents sk.sendbuf)
    → sk.close_on_write ≡ true
    → sk.close ≡ false
    → (sk' : Sk) × (on_write (sk_write (some n)) now sk
        ≡ (ok, (if n == length (contents sk.sendbuf) then closed sk' else kept sk')))
unfolding on_write sk_write
on_write-close n now sk v some_bytes h c k =
    let out = compact (rd_forward sk.sendbuf n) in
    let w = rd_forward-IsValid n v h in
    let left : rdsz out ≡ length (contents sk.sendbuf) - n =
      rdsz-eq (compact-IsValid w)
      ∙ ap length (contents-compact w ∙ contents-rd_forward n v h)
      ∙ length-drop n (contents sk.sendbuf) in
    let there : (rdsz sk.sendbuf == 0) ≡ false = ground (arith, rdsz-eq v) in
    (ts_last_io_set (with_sendbuf sk out) now, rw (there, c, k, left) (ground (arith, h)))

-- The host that is tried next is one of the hosts, if the last one was.
pub next_host-in_bounds :
    (h : Hosts) → h.num < h.fhostname_num → (next_host h).num < (next_host h).fhostname_num
unfolding next_host
next_host-in_bounds h lt = ground arith
