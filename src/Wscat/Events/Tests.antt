-- ===== src/Wscat/Events/Tests.antt =====
-- Two frames at once, and the end of the input.
use wsd.Prelude.{true, ℕ, ◌*◌, ◌%◌, ◌^◌, ◌≡◌, refl, false, some, none, List, [], ◌∷◌, arith}
use wsd.Memory.{window, store_list}
use wsd.Skb.Contents.{contents}
use wsd.Types.{fail, einput, Sk}
use wsd.Timeout.{minus_one}
use wsd.Wscat.State.{Cat}
use wsd.Wscat.Main.{initial_args, initial_cat}
use wsd.Wscat.Events.{wssk_ws_recv, stdin_close}
use wsd.Wscat.Events.Laws.{concat, frames_of, wssk_ws_recv_prints_all, stdin_close_silent}
use wsd.Fixtures.{loaded, loaded-IsValid, socket}

abbrev hi : List ℕ
hi = b'h' ∷ b'i' ∷ []

abbrev sk : Sk
sk = socket 0 (loaded []) (loaded (frames_of (hi ∷ hi ∷ [])))

wssk_ws_recv_prints_all_example :
    (sk' : Sk) × (wssk_ws_recv true false sk ≡ some (fail einput, (sk', concat (hi ∷ hi ∷ []))))
    × (contents sk'.recvbuf ≡ [])
unfolding window store_list
wssk_ws_recv_prints_all_example =
    wssk_ws_recv_prints_all false hi (hi ∷ []) sk
      (loaded-IsValid (frames_of (hi ∷ hi ∷ [])) (omega arith)) refl

-- No option has been given: -1 times 1000.
abbrev cat : Cat
cat = record {
  wssk = some sk;
  fdin = some sk;
  done = false;
  is_json = false;
  no_handshake = false;
  repeat_last_num = minus_one;
  repeat_last_armed = false;
  last_input = loaded [];
  idle_timeout = minus_one;
  ping_interval = minus_one * 1000 % 2 ^ 32;
  output = [];
}

stdin_close_silent_example : stdin_close 5 cat ≡ some (record cat { fdin = none })
unfolding initial_cat
stdin_close_silent_example = stdin_close_silent 5 initial_args cat refl refl
