-- ===== src/Child/Tests.antt =====
-- A run of the daemon, and hashes.
use wsd.Prelude.{ℕ, ◌%◌, ◌^◌, ◌≡◌, refl, sym, ap, true, false, none, some, [], arith}
use wsd.Types.{ok, SockAddr}
use wsd.Sock.{sk_init}
use wsd.Io.{Hosts}
use wsd.Child.{
  World, has, hash, Accepted, sk_accept, pp2_close, post_read, sk_open, Opening, connected,
  with_backend,
}
use wsd.Child.Invariant.{open_fds}
use wsd.Child.Reach.{
  Reachable, start, step, accepted, opened, was_read, Reachable-Inv, pp2_close_dangles,
}
use wsd.Child.Hash.{IsAddr, hash_lem}

abbrev addr : SockAddr
addr = record { sin_addr = 0x0100007f; sin_port = 0x5000 }

abbrev addr-IsAddr : IsAddr addr
addr-IsAddr = record { addr = omega arith; port = omega arith }

hash_lem_example :
    (addr.sin_addr ≡ addr.sin_addr)
    × (addr.sin_port ≡ addr.sin_port)
    × (65536 % 2 ^ 16 ≡ 0 % 2 ^ 16)
unfolding hash
hash_lem_example = hash_lem addr addr 65536 0 addr-IsAddr addr-IsAddr refl

abbrev one_host : Hosts
one_host = record { num = 0; fhostname_num = 1 }

abbrev empty : World
empty = record {
  sk_list = [];
  work_list = [];
  sk_hash = [];
  pp2sk = none;
  hosts = one_host;
  dangling = false;
}

abbrev arrival : Accepted
arrival = record { fd = 7; src_addr = addr; dst_addr = addr }

abbrev one_client : World
one_client = (sk_accept (some arrival) 5 empty).1

abbrev with_both : World
with_both = with_backend 9 one_client

-- The backend's socket has been read, and waits in the work list.
abbrev waiting : World
waiting = post_read 9 with_both

abbrev fd_of : Opening → ℕ
fd_of (connected fd) = fd
fd_of _ = 0

fresh_backend : (fd : ℕ) → connected 9 ≡ connected fd → has fd (open_fds one_client) ≡ false
unfolding has sk_accept sk_init
fresh_backend fd e = ap (λ t. has t (open_fds one_client)) (sym (ap fd_of e))

run : Reachable waiting
unfolding has sk_accept sk_open sk_init
run =
    step
      (step (step (start one_host) (accepted arrival 5 refl))
        (opened (connected 9) ok with_both fresh_backend refl))
      (was_read 9 refl)

pp2_close_dangles_example :
    (has 9 (pp2_close 9 waiting).work_list ≡ true)
    × (has 9 (open_fds (pp2_close 9 waiting)) ≡ false)
unfolding has sk_accept post_read
pp2_close_dangles_example = pp2_close_dangles waiting 9 (Reachable-Inv run) refl refl
