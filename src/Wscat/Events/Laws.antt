-- ===== src/Wscat/Events/Laws.antt =====
-- All frames that have arrived are printed, and how wscat ends at the end of its input.
use wsd.Prelude.{
  ltb, not, ◌&&◌, ◌||◌, Bool-cases, inl, inr, ℕ, zero, suc, ◌*◌, ◌%◌, ◌^◌, ◌≤◌, ◌<◌, ◌≡◌, refl, ap,
  ◌∙◌, Bool, true, false, ◌==◌, lt→ltb, none, some, List, [], ◌∷◌, ◌++◌, append_assoc, length,
  length-append, arith,
}
use wsd.Skb.{rdsz}
use wsd.Skb.Contents.{IsValid, contents, rdsz-eq}
use wsd.Types.{fail, einput, Sk}
use wsd.Sock.{turn_on_epollin, turn_on_epollout, turn_off_epollin, when}
use wsd.Ws.Data.Spec.{server_frame}
use wsd.Ws.Data.Deliver.{fin_text}
use wsd.Ws.Data.Forward.{IsData}
use wsd.Timeout.{minus_one, is_positive}
use wsd.Wscat.Frame.{decode_frame}
use wsd.Wscat.Frame.Decode.{decode_prints}
use wsd.Wscat.State.{Cat}
use wsd.Wscat.Main.{CatArgs, initial_cat}
use wsd.Wscat.Events.{
  decode_frames, rearm_wssk, wake_writer, wake_reader, wssk_ws_recv, stdin_close,
}

-- The payloads one behind the other, and the frames that carry them.
abbrev pub concat : List (List ℕ) → List ℕ
concat [] = []
concat (p ∷ ps) = p ++ concat ps

abbrev pub frames_of : List (List ℕ) → List ℕ
frames_of [] = []
frames_of (p ∷ ps) = server_frame fin_text p ++ frames_of ps

text_IsData : IsData fin_text
text_IsData = record { no_rsv = refl; data_opcode = refl }

empty_waits :
    (no_handshake : Bool) (sk : Sk)
    → IsValid sk.recvbuf
    → contents sk.recvbuf ≡ []
    → decode_frame true no_handshake sk ≡ some (fail einput, (sk, []))
unfolding decode_frame
empty_waits no_handshake sk v e =
    rw (lt→ltb (rdsz sk.recvbuf) 2 (omega (arith, rdsz-eq v, ap length e)))

frames_of-ge : (ps : List (List ℕ)) → length ps ≤ length (frames_of ps)
frames_of-ge [] = omega arith
frames_of-ge (p ∷ ps) =
    omega (arith, frames_of-ge ps, length-append (server_frame fin_text p) (frames_of ps))

-- The loop with rounds for all frames and the call that finds no more.
all_printed :
    (no_handshake : Bool) (ps : List (List ℕ)) (n : ℕ) (seen : Bool) (sk : Sk) (out : List ℕ)
    → IsValid sk.recvbuf
    → contents sk.recvbuf ≡ frames_of ps
    → length ps < n
    → (sk' : Sk) × (frames : Bool) × (decode_frames true no_handshake n seen sk out
        ≡ some (fail einput, (frames, (sk', out ++ concat ps))))
      × (contents sk'.recvbuf ≡ [])
unfolding decode_frames
all_printed no_handshake ps zero seen sk out v e h = absurd (omega (arith, h))
all_printed no_handshake [] (suc n) seen sk out v e h =
    (sk, seen, rw (empty_waits no_handshake sk v e, decode_frames) refl, e)
all_printed no_handshake (p ∷ ps) (suc n) seen sk out v e h =
    let (sk1, done, rest, v1, same) =
      decode_prints no_handshake sk fin_text p (frames_of ps) v text_IsData e in
    let (sk', frames, all, none_left) =
      all_printed no_handshake ps n true sk1 (out ++ p) v1 rest (omega (arith, h)) in
    (
      sk',
      frames,
      rw (done, decode_frames)
          (all ∙ ap (λ t. some (fail einput, (frames, (sk', t)))) (append_assoc out p (concat ps))),
      none_left,
    )

when-recvbuf :
    (b : Bool) (f : Sk → Sk) (sk : Sk)
    → (f sk).recvbuf ≡ sk.recvbuf
    → (when b f sk).recvbuf ≡ sk.recvbuf
when-recvbuf true f sk e = e
when-recvbuf false f sk e = refl

rearmed-recvbuf : (frames : Bool) (sk : Sk) → (rearm_wssk frames sk).recvbuf ≡ sk.recvbuf
rearmed-recvbuf frames sk =
    let sk1 = wake_writer frames sk in
    let sk2 = wake_reader frames sk1 in
    when-recvbuf (sk2.close || sk2.close_on_write) turn_off_epollin sk2 refl
    ∙ when-recvbuf (frames && (not sk1.events.epollin && not sk1.close_on_write)) turn_on_epollin
        sk1 refl
    ∙ when-recvbuf (frames && (ltb 0 (rdsz sk.sendbuf) && not sk.events.epollout)) turn_on_epollout
        sk refl

-- Where the valid receive buffer holds any number of whole text frames, at least one, and nothing
-- else, and stdout can be flushed: one call prints all payloads in their order, leaves nothing to read,
-- and waits for more.
pub wssk_ws_recv_prints_all :
    (no_handshake : Bool) (p : List ℕ) (ps : List (List ℕ)) (sk : Sk)
    → IsValid sk.recvbuf
    → contents sk.recvbuf ≡ frames_of (p ∷ ps)
    → (sk' : Sk) × (wssk_ws_recv true no_handshake sk ≡ some (fail einput, (sk', concat (p ∷ ps))))
      × (contents sk'.recvbuf ≡ [])
unfolding wssk_ws_recv
wssk_ws_recv_prints_all no_handshake p ps sk v e =
    let size : rdsz sk.recvbuf ≡ length (frames_of (p ∷ ps)) = rdsz-eq v ∙ ap length e in
    let at_least = frames_of-ge (p ∷ ps) in
    let not_empty : (rdsz sk.recvbuf == 0) ≡ false = ground (arith, size, at_least) in
    let (sk', frames, all, none_left) =
      all_printed no_handshake (p ∷ ps) (suc (rdsz sk.recvbuf)) false sk [] v e
        (omega (arith, size, at_least)) in
    (
      rearm_wssk frames sk',
      rw not_empty (rw (all, wssk_ws_recv)),
      ap contents (rearmed-recvbuf frames sk') ∙ none_left,
    )

-- A multiple of 1000 is not the word of -1.
not_minus_one : (n : ℕ) → (n * 1000 % 2 ^ 32 == minus_one) ≡ false
not_minus_one n = ground arith

-- While the ping interval is the one that main sets from the options, whatever these are, and no
-- repetition is left to do: at the end of the input this is closed and no closing handshake is started,
-- also where neither an interval nor an idle timeout was asked for.
pub stdin_close_silent :
    (rounds : ℕ) (a : CatArgs) (cat : Cat)
    → cat.ping_interval ≡ (initial_cat a).ping_interval
    → is_positive cat.repeat_last_num ≡ false
    → stdin_close rounds cat ≡ some (record cat { fdin = none })
unfolding stdin_close initial_cat
stdin_close_silent rounds a cat e once =
    let other : (cat.ping_interval == minus_one) ≡ false =
      ap (λ t. t == minus_one) e ∙ not_minus_one a.ping_interval_arg in
    elim (Bool-cases (cat.idle_timeout == minus_one)) [
      | inl idle ↦ rw (idle, stdin_close) (rw (other, once))
      | inr busy ↦ rw (busy, stdin_close) (rw once)
    ]
