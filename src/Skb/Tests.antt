-- ===== src/Skb/Tests.antt =====
-- A buffer of three bytes of which one has been read.
use wsd.Prelude.{◌+◌, ◌≡◌, refl, [], ◌∷◌}
use wsd.Memory.{window, store_list}
use wsd.Skb.{Skb, rdsz, write, rd_forward, compact}
use wsd.Skb.Contents.{contents}

abbrev sample : Skb
sample = record { rdpos = 1; wrpos = 3; bytes = λ k. k + 10 }

appended : contents (write sample (7 ∷ 8 ∷ [])) ≡ 11 ∷ 12 ∷ 7 ∷ 8 ∷ []
unfolding write window store_list
appended = refl

read_and_moved : contents (compact (rd_forward sample 1)) ≡ 12 ∷ []
unfolding compact rd_forward rdsz window store_list
read_and_moved = refl
