-- ===== src/Server/Tests.antt =====
-- Frames from the backend for a client that is there, one that is gone, and one with a large hash.
use wsd.Prelude.{
  true, ℕ, ◌^◌, ◌<◌, ◌≡◌, ◌≢◌, refl, List, [], ◌∷◌, ◌++◌, length-append, some, none, arith,
}
use wsd.Skb.Contents.{contents}
use wsd.Types.{ok, SockAddr, Sk}
use wsd.Hashtable.{Table, added, hash_min, find, find_in}
use wsd.Hashtable.Laws.{find-hash_add}
use wsd.Pp2.Header.{header, length-header}
use wsd.Ws.Data.Spec.{server_frame}
use wsd.Ws.Data.Deliver.{fin_text}
use wsd.Server.{Server, pp2_decode_frame}
use wsd.Server.Deliver.{Received, decode_delivers}
use wsd.Fixtures.{loaded, contents-loaded, loaded-IsValid, socket}

abbrev local : SockAddr
local = record { sin_addr = 0x0100007f; sin_port = 0x5000 }

abbrev hi : List ℕ
hi = b'h' ∷ b'i' ∷ []

abbrev vacant : Table
vacant = λ _. []

abbrev guest : Sk
guest = record (socket 5 (loaded []) (loaded [])) { upgraded = true }

-- A frame for this hash has come.
abbrev got : ℕ → Table → Server
got hash t = record {
  pp2sk = socket 0 (loaded []) (loaded (header local local hash 2 ++ (hi ++ [])));
  table = t;
}

received : (hash : ℕ) (t : Table) → hash < 2 ^ 64 → Received (got hash t) local local hash hi []
received hash t h = record {
  valid = loaded-IsValid (header local local hash 2 ++ (hi ++ [])) (
      omega
        (arith, length-append (header local local hash 2) hi, length-header local local hash 2));
  not_empty = omega arith;
  hash_fits = h;
  frame = contents-loaded (header local local hash 2 ++ (hi ++ []));
}

nobody : find vacant 5 ≡ some none
unfolding find find_in hash_min
nobody = refl

abbrev occupied : Table
occupied = added vacant guest

decode_delivers_example :
    (s' : Server) × (cln' : Sk) × (pp2_decode_frame (got 5 occupied) ≡ some (ok, s'))
    × (find s'.table 5 ≡ some (some cln'))
    × (contents cln'.sendbuf ≡ contents guest.sendbuf ++ server_frame fin_text hi)
    × (contents s'.pp2sk.recvbuf ≡ [])
    × ((other : ℕ) → 5 ≢ other → find s'.table other ≡ find occupied other)
decode_delivers_example =
    decode_delivers (got 5 occupied) local local 5 hi [] (received 5 occupied (omega arith)) guest
      (omega arith) (find-hash_add vacant guest (omega arith)).1 refl
      (loaded-IsValid [] (omega arith)) (omega arith)
