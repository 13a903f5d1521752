-- ===== src/Server/Deliver.antt =====
-- What pp2_decode_frame makes of a frame from the backend, for every place where it can go.
use wsd.Prelude.{
  ℕ, ◌+◌, ◌^◌, ◌≤◌, ◌<◌, ◌≡◌, ◌≢◌, refl, ap, ◌∙◌, le→ltb, lt→leb, le→leb, none, some, List, ◌++◌,
  true, not, if◌then◌else◌, length, length-append, take, drop, take_left, drop_left, arith,
}
use wsd.Skb.{Skb, capacity, rdsz, rd_forward, compact}
use wsd.Skb.Contents.{
  IsValid, contents, room, rdsz-eq, length-contents, contents-front, front-IsValid,
  contents-compact,
}
use wsd.Types.{enum, ok, fail, SockAddr, Sk, Pair, Outcome}
use wsd.Sock.{with_recvbuf}
use wsd.Hashtable.{find, update}
use wsd.Hashtable.Laws.{find-update, find-update_ne, find-hash}
use wsd.Pp2.{decode_header}
use wsd.Pp2.Header.{header, length-header}
use wsd.Pp2.Decode.{decode_header_lem}
use wsd.Ws.Data.{ws_encode_frame}
use wsd.Ws.Data.Spec.{server_frame}
use wsd.Ws.Data.Deliver.{
  header_size, claimed_too_small, Passes, fin_text, contents-delivered, rest-delivered, delivered,
  ws_encode_frame-eq,
}
use wsd.Server.{Server, to_client, with_client, blank_frame, pp2_decode_frame}

-- A whole proxy frame stands first in the backend's buffer, with at least one byte behind its header.
pub record Received (s : Server) (src dst : SockAddr) (hash : ℕ) (payload rest : List ℕ)
    : Type 0 where
  pub valid : IsValid s.pp2sk.recvbuf
  pub not_empty : 0 < length payload + length rest
  pub hash_fits : hash < 2 ^ 64
  pub frame : contents s.pp2sk.recvbuf ≡ header src dst hash (length payload) ++ (payload ++ rest)

-- What becomes of a frame to a client that has been upgraded.
to_client-eq :
    (s : Server) (b : Skb) (hash len : ℕ) (cln : Sk) (r : Outcome)
    → cln.upgraded ≡ true
    → ws_encode_frame (blank_frame len) (record { client = cln; pp2sk = with_recvbuf s.pp2sk b })
      ≡ r
    → to_client s b hash len cln ≡ with_client s hash r
to_client-eq s b hash len cln r up e =
    let sent =
      ws_encode_frame (blank_frame len) (record { client = cln; pp2sk = with_recvbuf s.pp2sk b }) in
    ap (λ u. if not u then none else with_client s hash sent) up ∙ ap (with_client s hash) e

module _ (s : Server) (src dst : SockAddr) (hash : ℕ) (payload rest : List ℕ)
    (a : Received s src dst hash payload rest) where
  abbrev b : Skb
  b = s.pp2sk.recvbuf

  abbrev n : ℕ
  n = length payload

  more_than_header : 46 < rdsz b
  more_than_header = omega (
    arith,
    rdsz-eq a.valid,
    ap length a.frame,
    length-append (header src dst hash n) (payload ++ rest),
    length-append payload rest,
    length-header src dst hash n,
    a.not_empty,
  )

  small : n ≤ capacity
  small = omega (
    arith,
    length-contents b,
    a.valid.fits,
    ap length a.frame,
    length-append (header src dst hash n) (payload ++ rest),
    length-append payload rest,
  )

  refused : 2 ^ 63 ≤ hash → decode_header b ≡ none
  refused top =
      decode_header_lem src dst hash n (payload ++ rest) a.valid a.hash_fits (omega (arith, small))
        a.frame
      ∙ rw (le→leb (2 ^ 63) hash top)

  header_read : hash < 2 ^ 63 → decode_header b ≡ some (hash, n, rd_forward b 46)
  header_read low =
      decode_header_lem src dst hash n (payload ++ rest) a.valid a.hash_fits (omega (arith, small))
        a.frame
      ∙ rw (lt→leb hash (2 ^ 63) low, lt→leb n (2 ^ 31) (omega (arith, small)))

  behind : contents (rd_forward b 46) ≡ payload ++ rest
  unfolding header
  behind = contents-front a.valid (header src dst hash n) (payload ++ rest) a.frame

  behind_valid : IsValid (rd_forward b 46)
  unfolding header
  behind_valid = front-IsValid a.valid (header src dst hash n) (payload ++ rest) a.frame

  all_there : n ≤ rdsz (rd_forward b 46)
  all_there = omega (arith, rdsz-eq behind_valid, ap length behind, length-append payload rest)

  -- A whole frame, in a valid buffer, for a hash with the top bit set is refused, and stays in the
  -- buffer.
  pub decode_refuses_top_bit : 2 ^ 63 ≤ hash → pp2_decode_frame s ≡ some (fail enum, s)
  unfolding pp2_decode_frame
  decode_refuses_top_bit top =
      rw (lt→leb 46 (rdsz b) more_than_header, refused top, pp2_decode_frame)

  -- A whole frame for a hash below 2 ^ 63 that is not in the table is taken off the buffer and dropped.
  pub decode_drops_unknown :
      hash < 2 ^ 63
      → find s.table hash ≡ some none
      → (s' : Server) × (pp2_decode_frame s ≡ some (ok, s'))
        × (contents s'.pp2sk.recvbuf ≡ rest)
        × (s'.table ≡ s.table)
  unfolding pp2_decode_frame
  decode_drops_unknown low gone =
      let skipped = rd_forward (rd_forward b 46) n in
      (
        record s { pp2sk = with_recvbuf s.pp2sk (compact skipped) },
        rw (lt→leb 46 (rdsz b) more_than_header, header_read low, pp2_decode_frame)
            (rw (le→ltb (rdsz (rd_forward b 46)) n all_there, gone, pp2_decode_frame)),
        contents-compact (front-IsValid behind_valid payload rest behind)
            ∙ contents-front behind_valid payload rest behind,
        refl,
      )

  module _ (cln : Sk) (low : hash < 2 ^ 60) (there : find s.table hash ≡ some (some cln))
      (up : cln.upgraded ≡ true) (v : IsValid cln.sendbuf)
      (r : header_size (length payload) + length payload ≤ room cln.sendbuf) where
    abbrev pair : Pair
    pair = record { client = cln; pp2sk = with_recvbuf s.pp2sk (rd_forward b 46) }

    passes : Passes (blank_frame n) pair
    passes = record {
      client_valid = v;
      pp2sk_valid = behind_valid;
      blank = refl;
      whole = omega (arith, ap length behind, length-append payload rest);
      guarded = omega (arith, claimed_too_small n, r);
      header_room = omega (arith, r);
    }

    abbrev after : Pair
    after = delivered (blank_frame n) pair

    same_hash : cln.hash ≡ hash
    same_hash = find-hash s.table hash there

    taken : take n (contents (rd_forward b 46)) ≡ payload
    taken = ap (take n) behind ∙ take_left payload rest

    -- A whole frame, with at least one byte behind its header, for a hash below 2 ^ 60, where the table
    -- has a bucket, whose client is in the table, has been upgraded and has room for it reaches that client
    -- as one text frame, leaves the backend's buffer, and changes no client with another hash.
    pub decode_delivers :
        (s' : Server) × (cln' : Sk) × (pp2_decode_frame s ≡ some (ok, s'))
        × (find s'.table hash ≡ some (some cln'))
        × (contents cln'.sendbuf ≡ contents cln.sendbuf ++ server_frame fin_text payload)
        × (contents s'.pp2sk.recvbuf ≡ rest)
        × ((other : ℕ) → hash ≢ other → find s'.table other ≡ find s.table other)
    unfolding pp2_decode_frame
    decode_delivers = (
      record { pp2sk = after.pp2sk; table = update s.table hash after.client },
      after.client,
      rw (lt→leb 46 (rdsz b) more_than_header, header_read (omega (arith, low)), pp2_decode_frame)
          (rw (le→ltb (rdsz (rd_forward b 46)) n all_there, there, pp2_decode_frame)
            (to_client-eq s (rd_forward b 46) hash n cln (some (ok, after)) up
              (ws_encode_frame-eq (blank_frame n) pair passes))),
      find-update s.table hash after.client same_hash there,
      contents-delivered (blank_frame n) pair passes r
          ∙ ap (λ t. contents cln.sendbuf ++ server_frame fin_text t) taken,
      rest-delivered (blank_frame n) pair passes ∙ ap (drop n) behind ∙ drop_left payload rest,
      (λ other ne. find-update_ne s.table hash other after.client same_hash ne),
    )
