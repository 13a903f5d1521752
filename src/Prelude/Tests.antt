-- ===== src/Prelude/Tests.antt =====
-- Boolean tests on the native numbers, and the conditional.
use Prim.Native.Nat.{ℕ, zero, suc, ◌≤◌, ◌<◌, compare, Ordering}
use mathlib.Core.Path.{◌≡◌, refl}
use mathlib.Core.Logic.{◌↔◌, ◌⊎◌, inl, inr}
use mathlib.Core.Bool.{Bool, true, false}
use native.Mathlib.Omega.{arith}

abbrev pub ltb : ℕ → ℕ → Bool
ltb a b = elim (compare a b) [ Ordering.lt ↦ true | _ ↦ false ]

abbrev pub leb : ℕ → ℕ → Bool
leb a b = elim (compare a b) [ Ordering.gt ↦ false | _ ↦ true ]

infix 50 ◌==◌
abbrev pub ◌==◌ : ℕ → ℕ → Bool
a == b = elim (compare a b) [ Ordering.eq ↦ true | _ ↦ false ]

infix 1 if◌then◌else◌
abbrev pub if◌then◌else◌ {ℓ} : {A : Type ℓ} → Bool → A → A → A
if true then x else y = x
if false then x else y = y

pub ltb→lt : (a b : ℕ) → ltb a b ≡ true → a < b
ltb→lt a b h = ground arith

pub lt→leb : (a b : ℕ) → a < b → leb b a ≡ false
lt→leb a b h = ground arith

pub le→leb : (a b : ℕ) → a ≤ b → leb a b ≡ true
le→leb a b h = ground arith

pub ltb→le : (a b : ℕ) → ltb a b ≡ false → b ≤ a
ltb→le a b h = ground arith

pub lt→ltb : (a b : ℕ) → a < b → ltb a b ≡ true
lt→ltb a b h = ground arith

pub le→ltb : (a b : ℕ) → b ≤ a → ltb a b ≡ false
le→ltb a b h = ground arith

pub ==_iff : (a b : ℕ) → ((a == b) ≡ true) ↔ (a ≡ b)
==_iff a b = ground arith

-- To split on a computed value and keep the equation.
pub Bool-cases : (b : Bool) → (b ≡ true) ⊎ (b ≡ false)
Bool-cases true = inl refl
Bool-cases false = inr refl

-- Whether every number below the bound passes a test, by evaluation: for facts about single bytes.
unfoldable pub every_byte : (ℕ → Bool) → ℕ → Bool
every_byte test zero = true
every_byte test (suc bound) = if test bound then every_byte test bound else false

every_byte-step :
    (test : ℕ → Bool) (bound : ℕ)
    → every_byte test (suc bound) ≡ true
    → (test bound ≡ true) × (every_byte test bound ≡ true)
unfolding every_byte
every_byte-step test bound e = elim (Bool-cases (test bound)) [
  | inl passes ↦ (passes, rw passes at e)
  | inr fails ↦ absurd (ground (arith, fails, e))
]

pub every_byte_at :
    (test : ℕ → Bool) {bound : ℕ}
    → every_byte test bound ≡ true
    → (c : ℕ) → c < bound
    → test c ≡ true
every_byte_at test {bound = zero} e c lt = absurd (omega (arith, lt))
every_byte_at test {bound = suc bound} e c lt =
    let (here, below) = every_byte-step test bound e in
    elim (Bool-cases (c == bound)) [
      | inl same ↦ let eq : c ≡ bound = (==_iff c bound).0 same in rw eq here
      | inr other ↦ every_byte_at test below c (ground arith)
    ]
