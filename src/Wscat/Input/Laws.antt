-- ===== src/Wscat/Input/Laws.antt =====
-- A JSON object that is typed is sent as one frame.
use wsd.Prelude.{
  Bool-cases, inl, inr, ℕ, ◌+◌, ◌%◌, ◌^◌, ◌≤◌, ◌≡◌, sym, ap, ◌∙◌, true, false, ◌==◌, some, List, [],
  ◌∷◌, ◌++◌, append_assoc, length, length-append, take, drop, take_left, drop_left, All, arith,
}
use mathlib.Core.Path.{subst}
use wsd.Skb.{Skb, rdsz}
use wsd.Skb.Contents.{IsValid, contents, room, rdsz-eq, length-contents}
use wsd.Types.{ok, Sk}
use wsd.Timeout.{is_positive}
use wsd.Sock.{with_sendbuf, with_recvbuf}
use wsd.Ws.Data.Spec.{client_frame}
use wsd.Ws.Data.Deliver.{fin_text, header_size}
use wsd.Wscat.Frame.{data_key, payload_size, encode_data_frame}
use wsd.Wscat.Frame.Encode.{payload_size-eq, encode_data_frame_lem}
use wsd.Wscat.State.{Cat, with_wssk}
use wsd.Wscat.Input.{
  brace_open, brace_close, piece, balanced_span, keep_input, wssk_ws_encode_frame,
  stdin_decode_frame,
}
use wsd.Wscat.Input.Span.{IsPlain, Balanced, balanced_span_lem}

-- The text of an object, with what stands in front of it.
abbrev pub object : List ℕ → List ℕ → List ℕ
object pre xs = pre ++ (brace_open ∷ (xs ++ (brace_close ∷ [])))

length-object : (pre xs : List ℕ) → length (object pre xs) ≡ length pre + length xs + 2
length-object pre xs = omega (
  arith,
  length-append pre (brace_open ∷ (xs ++ (brace_close ∷ []))),
  length-append xs (brace_close ∷ []),
)

object-append :
    (pre xs rest : List ℕ)
    → object pre xs ++ rest ≡ pre ++ (brace_open ∷ (xs ++ (brace_close ∷ rest)))
object-append pre xs rest =
    append_assoc pre (brace_open ∷ (xs ++ (brace_close ∷ []))) rest
    ∙ ap (λ t. pre ++ (brace_open ∷ t)) (append_assoc xs (brace_close ∷ []) rest)

encode-eq :
    (cat : Cat) (wssk sk : Sk) (n : ℕ) (dst src : Skb)
    → cat.wssk ≡ some wssk
    → n % 2 ^ 32 ≡ n
    → encode_data_frame wssk.sendbuf sk.recvbuf n ≡ some (ok, (dst, src))
    → wssk_ws_encode_frame cat sk n
      ≡ some (ok, (with_wssk cat (with_sendbuf wssk dst), with_recvbuf sk src))
unfolding wssk_ws_encode_frame
encode-eq cat wssk sk n dst src o word e = rw (o, wssk_ws_encode_frame) (rw word (rw e))

json-eq :
    (cat : Cat) (sk : Sk) (n : ℕ)
    → (rdsz sk.recvbuf == 0) ≡ false
    → cat.is_json ≡ true
    → balanced_span sk.recvbuf brace_open brace_close ≡ some n
    → stdin_decode_frame cat sk ≡ wssk_ws_encode_frame (keep_input cat sk.recvbuf n) sk n
unfolding stdin_decode_frame
json-eq cat sk n some_input json found =
    let found' : piece cat.is_json sk.recvbuf ≡ some n =
      ap (λ j. piece j sk.recvbuf) json ∙ found in
    rw some_input (rw (found', stdin_decode_frame))

module _ (cat : Cat) (wssk sk : Sk) (pre xs rest : List ℕ) (json : cat.is_json ≡ true)
    (open_ : cat.wssk ≡ some wssk) (v : IsValid sk.recvbuf) (w : IsValid wssk.sendbuf)
    (h : All (IsPlain brace_open brace_close) pre) (d : Balanced brace_open brace_close xs)
    (e : contents sk.recvbuf ≡ object pre xs ++ rest) where
  abbrev n : ℕ
  n = length (object pre xs)

  found : balanced_span sk.recvbuf brace_open brace_close ≡ some n
  found =
      balanced_span_lem brace_open brace_close (omega arith) sk.recvbuf pre xs rest v h d
        (e ∙ object-append pre xs rest)
      ∙ ap some (sym (length-object pre xs))

  there : n ≤ length (contents sk.recvbuf)
  there = omega (arith, ap length e, length-append (object pre xs) rest)

  whole : payload_size sk.recvbuf n ≡ n
  whole = omega (arith, payload_size-eq n v, there)

  kept_wssk : (keep_input cat sk.recvbuf n).wssk ≡ some wssk
  kept_wssk = elim (Bool-cases (is_positive cat.repeat_last_num)) [
    | inl yes_ ↦ rw yes_ open_
    | inr no_ ↦ rw no_ open_
  ]

  -- In JSON mode with an open connection, where an object, whose braces are balanced, stands in the valid
  -- input buffer behind bytes that are no braces, and the valid send buffer has room for its frame: the
  -- object, and what stands in front of it, is put there as one text frame, and what follows it stays in
  -- the input.
  pub object_sent :
      header_size (length (object pre xs)) + 4 + length (object pre xs) ≤ room wssk.sendbuf
      → (dst src : Skb) × (stdin_decode_frame cat sk
          ≡ some (
            ok,
            (
              with_wssk
                  (keep_input cat sk.recvbuf (length (object pre xs)))
                  (with_sendbuf wssk dst),
              with_recvbuf sk src,
            ),
          ))
        × (contents dst ≡ contents wssk.sendbuf ++ client_frame fin_text data_key (object pre xs))
        × (contents src ≡ rest)
  object_sent r =
      let not_empty : (rdsz sk.recvbuf == 0) ≡ false =
        ground (arith, rdsz-eq v, there, length-object pre xs) in
      let word : n % 2 ^ 32 ≡ n = omega (arith, there, length-contents sk.recvbuf, v.fits) in
      let fits = subst (λ k. header_size k + 4 + k ≤ room wssk.sendbuf) (sym whole) r in
      let (dst, src, done, sent, left, dv, sv) =
        encode_data_frame_lem wssk.sendbuf sk.recvbuf n w v fits in
      (
        dst,
        src,
        json-eq cat sk n not_empty json found
            ∙ encode-eq (keep_input cat sk.recvbuf n) wssk sk n dst src kept_wssk word done,
        sent
            ∙ ap (λ t. contents wssk.sendbuf ++ client_frame fin_text data_key t)
                (ap (λ k. take k (contents sk.recvbuf)) whole
                  ∙ ap (take n) e
                  ∙ take_left (object pre xs) rest),
        left
            ∙ ap (λ k. drop k (contents sk.recvbuf)) whole
            ∙ ap (drop n) e
            ∙ drop_left (object pre xs) rest,
      )
