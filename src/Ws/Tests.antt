-- ===== src/Ws/Tests.antt =====
-- The websocket layer on concrete frames.
use wsd.Prelude.{
  ℕ, ◌≤◌, ◌<◌, ◌≡◌, refl, sym, ap, ◌∙◌, append-nil, true, false, List, [], ◌∷◌, ◌++◌, length, All,
  some, arith, drop,
}
use wsd.Prelude.Words.{IsByte, le_bytes, be_bytes}
use wsd.Skb.{capacity}
use wsd.Skb.Contents.{IsValid, contents}
use wsd.Types.{ok, fail, eagain, einput, Pair, Frame}
use wsd.Pp2.Encode.{pp2_frame}
use wsd.Ws.Header.{ws_pong_frame}
use wsd.Ws.Header.Laws.{len_bytes}
use wsd.Ws.Control.Bytes.{control_head}
use wsd.Ws.Data.{ws_decode_frame, ws_encode_frame}
use wsd.Ws.Data.Spec.{client_frame, server_frame}
use wsd.Ws.Data.Whole.{decode_waits}
use wsd.Ws.Data.Forward.{Arrived, decode_forwards, decode_loses_header}
use wsd.Ws.Data.Deliver.{
  Passes, fin_text, payload_of, ws_encode_frame_lem, ws_encode_frame_overflows,
}
use wsd.Ws.Data.Dispatch.{decode_ping, decode_close}
use wsd.Fixtures.{
  loaded, nearly_full, contents-loaded, loaded-IsValid, nearly_full-IsValid, socket, from_client,
}

abbrev hi : List ℕ
hi = b'h' ∷ b'i' ∷ []

abbrev text_pair : Pair
text_pair = from_client (client_frame 0x81 0x01020304 hi)

abbrev hi-IsByte : All IsByte hi
hi-IsByte = (omega arith, (omega arith, tt))

abbrev arrived :
    (byte1 : ℕ) (payload : List ℕ)
    → All IsByte payload
    → length (client_frame byte1 0x01020304 payload) ≤ capacity
    → Arrived byte1 0x01020304 payload [] (from_client (client_frame byte1 0x01020304 payload))
arrived byte1 payload h small = record {
  valid = loaded-IsValid (client_frame byte1 0x01020304 payload) small;
  backend_valid = loaded-IsValid [] (omega arith);
  key_fits = omega arith;
  bytes = h;
  frame =
      contents-loaded (client_frame byte1 0x01020304 payload)
      ∙ sym (append-nil (client_frame byte1 0x01020304 payload));
}

decode_forwards_example :
    (q : Pair) × (ws_decode_frame text_pair ≡ some (ok, q))
    × (contents q.pp2sk.sendbuf ≡ contents text_pair.pp2sk.sendbuf ++ pp2_frame text_pair.client hi)
    × (contents q.client.recvbuf ≡ [])
    × IsValid q.pp2sk.sendbuf
    × IsValid q.client.recvbuf
decode_forwards_example =
    decode_forwards 0x81 0x01020304 hi [] text_pair (record { no_rsv = refl; data_opcode = refl })
      (arrived 0x81 hi hi-IsByte (omega arith)) (omega arith)

-- The same frame where the backend's buffer has room for 20 bytes.
abbrev stalled_pair : Pair
stalled_pair = record text_pair { pp2sk = socket 0 (nearly_full 20) (loaded []) }

abbrev stalled : Arrived 0x81 0x01020304 hi [] stalled_pair
stalled = record {
  valid = (arrived 0x81 hi hi-IsByte (omega arith)).valid;
  backend_valid = nearly_full-IsValid 20;
  key_fits = omega arith;
  bytes = hi-IsByte;
  frame = (arrived 0x81 hi hi-IsByte (omega arith)).frame;
}

decode_loses_header_example :
    (q : Pair) × (ws_decode_frame stalled_pair ≡ some (fail eagain, q))
    × (contents q.client.recvbuf ≡ hi ++ [])
    × (q.pp2sk ≡ stalled_pair.pp2sk)
decode_loses_header_example =
    decode_loses_header 0x81 0x01020304 hi [] stalled_pair
      (record { no_rsv = refl; data_opcode = refl }) stalled (omega arith)

-- The header and the key of a frame of 2 bytes, and one byte of its payload.
abbrev cut : List ℕ
cut = 0x81 ∷ (len_bytes true 2 ++ (le_bytes 4 0x01020304 ++ (9 ∷ [])))

decode_waits_example : ws_decode_frame (from_client cut) ≡ some (fail einput, from_client cut)
decode_waits_example =
    decode_waits (from_client cut) 0x81 0x01020304 2 (9 ∷ []) (loaded-IsValid cut (omega arith))
      (omega arith) (omega arith) refl (contents-loaded cut) (omega arith)

abbrev ping_pair : Pair
ping_pair = from_client (client_frame 0x89 0x01020304 hi)

decode_ping_example :
    (q : Pair) × (ws_decode_frame ping_pair ≡ some (ok, q))
    × (contents q.client.sendbuf
        ≡ contents ping_pair.client.sendbuf ++ control_head ws_pong_frame false 0)
    × (q.client.events.epollout ≡ true)
    × (contents q.client.recvbuf ≡ hi ++ [])
    × (q.pp2sk ≡ ping_pair.pp2sk)
decode_ping_example =
    decode_ping 0x89 0x01020304 hi [] ping_pair refl (arrived 0x89 hi hi-IsByte (omega arith)) refl
      refl (loaded-IsValid [] (omega arith)) (omega arith)

abbrev closing_pair : Pair
closing_pair = record ping_pair { client = record (ping_pair.client) { closing = true } }

abbrev arrived_closing : Arrived 0x89 0x01020304 hi [] closing_pair
arrived_closing = record {
  valid = (arrived 0x89 hi hi-IsByte (omega arith)).valid;
  backend_valid = loaded-IsValid [] (omega arith);
  key_fits = omega arith;
  bytes = hi-IsByte;
  frame = (arrived 0x89 hi hi-IsByte (omega arith)).frame;
}

abbrev bye : List ℕ
bye = 3 ∷ 232 ∷ []

abbrev bye-IsByte : All IsByte bye
bye-IsByte = (omega arith, (omega arith, tt))

abbrev close_pair : Pair
close_pair = from_client (client_frame 0x88 0x01020304 bye)

decode_close_example :
    (q : Pair) × (ws_decode_frame close_pair ≡ some (ok, q))
    × (contents q.client.sendbuf
        ≡ contents close_pair.client.sendbuf ++ (0x88 ∷ 2 ∷ be_bytes 2 1000))
    × (q.client.closing ≡ true)
    × (q.client.close_on_write ≡ true)
    × (contents q.client.recvbuf ≡ [])
    × (q.pp2sk ≡ close_pair.pp2sk)
decode_close_example =
    decode_close 0x88 0x01020304 bye [] close_pair refl (arrived 0x88 bye bye-IsByte (omega arith))
      1000 [] refl refl (loaded-IsValid [] (omega arith)) (omega arith) (omega arith) (omega arith)
      refl

abbrev short_key : List ℕ
short_key = 0x81 ∷ 254 ∷ (be_bytes 2 300 ++ (1 ∷ 2 ∷ []))

abbrev reply : Frame
reply = record { byte1 = 0; byte2 = 0; payload_len = 2; masking_key = 0 }

-- The backend has sent `hi` for a client whose buffer has this much room.
abbrev reply_pair : ℕ → Pair
reply_pair n = record {
  client = socket 5 (nearly_full n) (loaded []);
  pp2sk = socket 0 (loaded []) (loaded hi);
}

abbrev reply-Passes : (n : ℕ) → 3 ≤ n → n ≤ capacity → Passes reply (reply_pair n)
reply-Passes n h k = record {
  client_valid = nearly_full-IsValid n;
  pp2sk_valid = loaded-IsValid hi (omega arith);
  blank = refl;
  whole = omega (arith, ap length (contents-loaded hi));
  guarded = omega arith;
  header_room = omega arith;
}

ws_encode_frame_lem_example :
    (q : Pair) × (ws_encode_frame reply (reply_pair 4) ≡ some (ok, q))
    × (contents q.client.sendbuf
        ≡ contents (reply_pair 4).client.sendbuf
          ++ server_frame fin_text (payload_of reply (reply_pair 4)))
    × (contents q.pp2sk.recvbuf ≡ drop 2 (contents (reply_pair 4).pp2sk.recvbuf))
    × (q.client.events.epollout ≡ true)
    × (q.pp2sk.events ≡ (reply_pair 4).pp2sk.events)
    × IsValid q.client.sendbuf
    × IsValid q.pp2sk.recvbuf
ws_encode_frame_lem_example =
    ws_encode_frame_lem reply (reply_pair 4) (reply-Passes 4 (omega arith) (omega arith))
      (omega arith)

ws_encode_frame_overflows_example :
    (q : Pair) × (ws_encode_frame reply (reply_pair 3) ≡ some (ok, q))
    × (capacity < q.client.sendbuf.wrpos)
ws_encode_frame_overflows_example =
    ws_encode_frame_overflows reply (reply_pair 3) (reply-Passes 3 (omega arith) (omega arith))
      (omega arith)
