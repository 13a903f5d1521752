-- ===== src/Wscat/Input/Tests.antt =====
-- JSON input.
use wsd.Prelude.{ℕ, ◌+◌, ◌≡◌, refl, true, false, some, List, [], ◌∷◌, ◌++◌, length, arith}
use wsd.Prelude.Text.{literal}
use wsd.Memory.{window, store_list}
use wsd.Skb.{Skb}
use wsd.Skb.Contents.{contents}
use wsd.Types.{ok, Sk}
use wsd.Sock.{with_sendbuf, with_recvbuf}
use wsd.Ws.Data.Spec.{client_frame}
use wsd.Ws.Data.Deliver.{fin_text}
use wsd.Wscat.Frame.{data_key}
use wsd.Wscat.State.{Cat, with_wssk}
use wsd.Wscat.Input.{brace_open, brace_close, balanced_span, keep_input, stdin_decode_frame}
use wsd.Wscat.Input.Span.{Balanced, empty, plain, nested, balanced_span_lem}
use wsd.Wscat.Input.Laws.{object, object_sent}
use wsd.Fixtures.{loaded, loaded-IsValid, socket}

-- Within `{{}a}`.
abbrev inner : List ℕ
inner = literal "{}a"

abbrev inner-Balanced : Balanced brace_open brace_close inner
inner-Balanced = nested empty (plain (omega arith, omega arith) empty)

abbrev typed : List ℕ
typed = literal " {{}a}{"

balanced_span_lem_example : balanced_span (loaded typed) brace_open brace_close ≡ some (1 + 3 + 2)
unfolding window store_list
balanced_span_lem_example =
    balanced_span_lem brace_open brace_close (omega arith) (loaded typed) (b' ' ∷ []) inner
      (b'{' ∷ []) (loaded-IsValid typed (omega arith)) ((omega arith, omega arith), tt)
      inner-Balanced refl

abbrev wssk : Sk
wssk = socket 0 (loaded []) (loaded [])

abbrev stdin : Sk
stdin = socket 0 (loaded []) (loaded typed)

abbrev cat : Cat
cat = record {
  wssk = some wssk;
  fdin = some stdin;
  done = false;
  is_json = true;
  no_handshake = false;
  repeat_last_num = 0;
  repeat_last_armed = false;
  last_input = loaded [];
  idle_timeout = 1000;
  ping_interval = 1000;
  output = [];
}

object_sent_example :
    (dst src : Skb) × (stdin_decode_frame cat stdin
      ≡ some (
        ok,
        (
          with_wssk
              (keep_input cat stdin.recvbuf (length (object (b' ' ∷ []) inner)))
              (with_sendbuf wssk dst),
          with_recvbuf stdin src,
        ),
      ))
    × (contents dst
        ≡ contents wssk.sendbuf ++ client_frame fin_text data_key (object (b' ' ∷ []) inner))
    × (contents src ≡ b'{' ∷ [])
unfolding window store_list
object_sent_example =
    object_sent cat wssk stdin (b' ' ∷ []) inner (b'{' ∷ []) refl refl
      (loaded-IsValid typed (omega arith)) (loaded-IsValid [] (omega arith))
      ((omega arith, omega arith), tt) inner-Balanced refl (omega arith)
