-- ===== src/Wscat/Repeat.antt =====
-- The repetition of the last input of wscat: repeat_last of src/wscat.c.
use wsd.Prelude.{ℕ, zero, suc, ◌+◌, ◌%◌, ◌^◌, ltb, ◌==◌, if◌then◌else◌, none, some}
use wsd.Skb.{rdsz, wrsz, copy}
use wsd.Types.{eagain, Rv, ok, fail, Sk}
use wsd.Sock.{with_recvbuf, sk_init}
use wsd.Timeout.{minus_one}
use wsd.Wscat.State.{Cat, CatOutcome}
use wsd.Wscat.Input.{stdin_decode_frame}

-- The number of repetitions behind a round: one less, or none left after a serious problem.
abbrev pub after_round : Rv → Cat → Cat
after_round ok cat = record cat { repeat_last_num = (cat.repeat_last_num + minus_one) % 2 ^ 32 }
after_round (fail eagain) cat = cat
after_round (fail e) cat = record cat { repeat_last_num = 0 }

-- The loop on `n` rounds at most, with the `rv` of the last one. The last input is copied once more in
-- every round, also behind one that found no room.
unfoldable pub repeat_rounds : ℕ → Rv → Cat → Sk → CatOutcome
repeat_rounds zero rv cat sk = some (rv, cat)
repeat_rounds (suc n) rv cat sk =
    if cat.repeat_last_num == 0
    then some (rv, cat)
    else if ltb (wrsz sk.recvbuf) (rdsz cat.last_input)
    then some (fail eagain, cat)
    else elim (stdin_decode_frame cat
        (with_recvbuf sk (copy sk.recvbuf cat.last_input (rdsz cat.last_input)))) [
          | none ↦ none
          | some (rv', (cat', sk')) ↦ repeat_rounds n rv' (after_round rv' cat') sk'
        ]

-- `rounds` bounds the loop. The socket that it works on has no descriptor of its own.
unfoldable pub repeat_last : ℕ → Cat → CatOutcome
repeat_last rounds cat =
    if rdsz cat.last_input == 0
    then some (ok, record cat { repeat_last_num = 0 })
    else elim (repeat_rounds rounds ok cat (sk_init minus_one 0)) [
      | none ↦ none
      | some (rv, cat') ↦ some (if cat'.repeat_last_num == 0 then ok else rv, cat')
    ]
