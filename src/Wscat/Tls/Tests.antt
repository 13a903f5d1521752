-- ===== src/Wscat/Tls/Tests.antt =====
-- A read and a renegotiation.
use wsd.Prelude.{◌≡◌, refl, true, false, [], ◌∷◌}
use wsd.Memory.{window, store_list}
use wsd.Skb.{wrsz, write}
use wsd.Skb.Contents.{contents}
use wsd.Wscat.Tls.{Tls, done, want_write, wssk_tls_read, tls_received}
use wsd.Fixtures.{loaded, socket}

abbrev fresh : Tls
fresh = record { sk = socket 0 (loaded []) (loaded []); handshaking = false }

received : contents (wssk_tls_read (done (b'h' ∷ b'i' ∷ [])) fresh).1.sk.recvbuf ≡ b'h' ∷ b'i' ∷ []
unfolding wssk_tls_read tls_received wrsz write window store_list
received = refl

renegotiates : (wssk_tls_read want_write fresh).1.handshaking ≡ true
unfolding wssk_tls_read tls_received wrsz
renegotiates = refl
