-- ===== src/Wscat/Tests.antt =====
-- A line that is typed, on its way to the backend, and an answer on its way back.
use wsd.Prelude.{ℕ, ◌≡◌, refl, ap, true, false, some, List, [], ◌∷◌, ◌++◌, length, take, arith}
use wsd.Memory.{window, store_list}
use wsd.Skb.{rdsz, compact, rd_forward, write}
use wsd.Skb.Contents.{contents}
use wsd.Types.{ok, Frame, Sk, Pair}
use wsd.Pp2.Encode.{pp2_frame}
use wsd.Ws.Data.{ws_decode_frame}
use wsd.Ws.Data.Spec.{client_frame, server_frame}
use wsd.Ws.Data.Deliver.{Passes, fin_text, payload_of, delivered, ws_encode_frame-eq}
use wsd.Wscat.Frame.{data_key, payload_size, decode_frame}
use wsd.Wscat.Frame.Encode.{encode_data_frame-eq}
use wsd.Wscat.Relay.{input_reaches_backend, backend_reaches_output}
use wsd.Fixtures.{loaded, loaded-IsValid, contents-loaded, socket, from_client}

abbrev hi : List ℕ
hi = b'h' ∷ b'i' ∷ []

abbrev arrived : Pair
arrived = from_client (client_frame fin_text data_key hi)

input_reaches_backend_example :
    (q : Pair) × (ws_decode_frame arrived ≡ some (ok, q))
    × (contents q.pp2sk.sendbuf
        ≡ contents arrived.pp2sk.sendbuf
          ++ pp2_frame arrived.client (take (payload_size (loaded hi) 32) (contents (loaded hi))))
    × (contents q.client.recvbuf ≡ [])
unfolding payload_size rdsz window store_list write
input_reaches_backend_example =
    input_reaches_backend (loaded []) (loaded hi)
      (write (loaded []) (client_frame fin_text data_key hi)) (compact (rd_forward (loaded hi) 2))
      32 arrived (loaded-IsValid [] (omega arith)) (loaded-IsValid hi (omega arith)) (omega arith)
      refl (omega arith, (omega arith, tt))
      (encode_data_frame-eq (loaded []) (loaded hi) 32 (loaded-IsValid [] (omega arith))
        (loaded-IsValid hi (omega arith)) (omega arith))
      refl (loaded-IsValid (client_frame fin_text data_key hi) (omega arith))
      (loaded-IsValid [] (omega arith)) (omega arith)

abbrev reply : Frame
reply = record { byte1 = 0; byte2 = 0; payload_len = 2; masking_key = 0 }

abbrev replying : Pair
replying = record {
  client = socket 5 (loaded []) (loaded []);
  pp2sk = socket 0 (loaded []) (loaded hi);
}

abbrev reply-Passes : Passes reply replying
reply-Passes = record {
  client_valid = loaded-IsValid [] (omega arith);
  pp2sk_valid = loaded-IsValid hi (omega arith);
  blank = refl;
  whole = omega (arith, ap length (contents-loaded hi));
  guarded = omega arith;
  header_room = omega arith;
}

abbrev reader : Sk
reader = socket 0 (loaded []) (loaded (server_frame fin_text hi))

backend_reaches_output_example :
    (sk' : Sk) × (decode_frame true false reader ≡ some (ok, (sk', payload_of reply replying)))
    × (contents sk'.recvbuf ≡ [])
unfolding window store_list write
backend_reaches_output_example =
    backend_reaches_output reply replying (delivered reply replying) false reader reply-Passes
      (omega arith) refl (ws_encode_frame-eq reply replying reply-Passes) refl
      (loaded-IsValid (server_frame fin_text hi) (omega arith))
