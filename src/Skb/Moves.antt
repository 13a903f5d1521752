-- ===== src/Skb/Moves.antt =====
-- The copying loops of the encoders: what they store, and what they leave to read.
use wsd.Prelude.{
  ℕ, zero, suc, ◌+◌, ◌-◌, ◌≤◌, ◌^◌, ◌≡◌, refl, sym, ap, ◌∙◌, List, [], ◌∷◌, ◌++◌, arith, length,
  take,
}
use wsd.Prelude.Words.{add32}
use wsd.Memory.{store_list, window}
use wsd.Memory.Laws.{store_list-append, take-window, length-window}
use wsd.Skb.{Skb, write, rd_forward, move}
use wsd.Skb.Contents.{IsValid, contents, room, length-contents}

-- The bytes under `f`, which is told the index of each, counted from `i`.
abbrev pub map_from : (ℕ → ℕ → ℕ) → ℕ → List ℕ → List ℕ
map_from f i [] = []
map_from f i (c ∷ cs) = f i c ∷ map_from f (i + 1) cs

pub length-map_from : (f : ℕ → ℕ → ℕ) (i : ℕ) (cs : List ℕ) → length (map_from f i cs) ≡ length cs
length-map_from f i [] = refl
length-map_from f i (c ∷ cs) = ap suc (length-map_from f (i + 1) cs)

pub map_from_id : (i : ℕ) (cs : List ℕ) → map_from (λ _ c. c) i cs ≡ cs
map_from_id i [] = refl
map_from_id i (c ∷ cs) = ap (λ r. c ∷ r) (map_from_id (i + 1) cs)

pub write-write :
    (b : Skb) (vs ws : List ℕ)
    → b.wrpos + (length vs + length ws) ≤ 2 ^ 31
    → length (vs ++ ws) ≡ length vs + length ws
    → write (write b vs) ws ≡ write b (vs ++ ws)
unfolding write
write-write b vs ws h l =
    let e : add32 b.wrpos (length vs) ≡ b.wrpos + length vs = omega arith in
    let g : add32 (b.wrpos + length vs) (length ws) ≡ add32 b.wrpos (length vs + length ws) =
      omega arith in
    rw (e, l, g)
      (ap (λ m. record b { bytes = m; wrpos = add32 b.wrpos (length vs + length ws) })
        (sym (store_list-append vs ws b.bytes b.wrpos)))

pub rd_forward-rd_forward :
    (b : Skb) (m n : ℕ)
    → b.rdpos + (m + n) ≤ 2 ^ 31
    → rd_forward (rd_forward b m) n ≡ rd_forward b (m + n)
unfolding rd_forward
rd_forward-rd_forward b m n h = ap (λ p. record b { rdpos = p }) (omega arith)

module _ (f : ℕ → ℕ → ℕ) where
  -- `k` rounds, as long as the positions do not wrap.
  pub move-eq :
      (k i : ℕ) (dst src : Skb)
      → dst.wrpos + k ≤ 2 ^ 31
      → src.rdpos + k ≤ 2 ^ 31
      → move f i k dst src
        ≡ (write dst (map_from f i (window src.bytes src.rdpos k)), rd_forward src k)
  unfolding move window write rd_forward store_list
  move-eq zero i dst src h g =
      let a : add32 dst.wrpos 0 ≡ dst.wrpos = omega arith in
      let b : add32 src.rdpos 0 ≡ src.rdpos = omega arith in
      λ j. (record dst { wrpos = sym a j }, record src { rdpos = sym b j })
  move-eq (suc k) i dst src h g =
      let a : add32 src.rdpos 1 ≡ src.rdpos + 1 = omega arith in
      let x = f i (src.bytes src.rdpos) in
      let xs = map_from f (i + 1) (window src.bytes (add32 src.rdpos 1) k) in
      let n : length xs ≡ k =
        length-map_from f (i + 1) _ ∙ length-window src.bytes (add32 src.rdpos 1) k in
      let ih =
        move-eq k (i + 1) (write dst (x ∷ [])) (rd_forward src 1) (omega arith) (omega arith) in
      let joined = write-write dst (x ∷ []) xs (omega arith) (omega arith) in
      let skipped =
        rd_forward-rd_forward src 1 k (omega arith) ∙ ap (rd_forward src) (omega arith) in
      ih
      ∙ (λ j. (joined j, skipped j))
      ∙ ap
          (λ p. (write dst (x ∷ map_from f (i + 1) (window src.bytes p k)), rd_forward src (suc k)))
          a

  -- Between valid buffers with room and bytes enough, `k` rounds append the first `k` unread bytes of the source under
  -- `f` to the destination, and read them off the source.
  pub move_lem :
      (k i : ℕ) {dst src : Skb}
      → IsValid dst
      → IsValid src
      → k ≤ room dst
      → k ≤ length (contents src)
      → move f i k dst src ≡ (write dst (map_from f i (take k (contents src))), rd_forward src k)
  move_lem k i {dst} {src} v w h g =
      rw
        (take-window src.bytes src.rdpos k (src.wrpos - src.rdpos)
          (omega (arith, length-contents src)))
        (move-eq k i dst src (omega arith) (omega (arith, length-contents src)))
