-- ===== src/Recv/Backend.antt =====
-- Which backend the first part of ws_recv opens.
use native.Mathlib.Nat.{add-mod_left, mod-eq_of_lt}
use wsd.Prelude.{
  ◌+◌, ◌%◌, sym, leb, Bool-cases, inl, inr, ℕ, zero, suc, ◌<◌, ◌≡◌, ap, ◌∙◌, none, some, arith,
}
use wsd.Types.{Rv, ok, fail, eai}
use wsd.Io.{Hosts, next_host}
use wsd.Child.{World, Opening, no_name, connected, with_backend, try_open, sk_open}
use wsd.Recv.{open_backend}

-- The host `k` places behind the one in use, in a round.
abbrev pub place : Hosts → ℕ → ℕ
place h k = (h.num + k) % h.fhostname_num

next_host-num :
    (h : Hosts) → h.num < h.fhostname_num → (next_host h).num < (next_host h).fhostname_num
unfolding next_host
next_host-num h i = ground (arith, i)

next_host-fhostname_num : (h : Hosts) → (next_host h).fhostname_num ≡ h.fhostname_num
unfolding next_host
next_host-fhostname_num h = ground arith

place-next_host :
    (h : Hosts) (k : ℕ) → h.num < h.fhostname_num → place (next_host h) k ≡ place h (suc k)
unfolding next_host
place-next_host h k i = elim (Bool-cases (leb h.fhostname_num (h.num + 1))) [
  | inl last ↦
      let e : h.fhostname_num ≡ h.num + 1 = ground (arith, last, i) in
      let z : 0 + k ≡ k = omega arith in
      let f : h.fhostname_num + k ≡ h.num + suc k = omega (arith, e) in
      rw last (
        ap (λ t. t % h.fhostname_num) z
        ∙ sym (add-mod_left h.fhostname_num k)
        ∙ ap (λ t. t % h.fhostname_num) f)
  | inr inside ↦
      let f : h.num + 1 + k ≡ h.num + suc k = omega arith in
      rw inside (ap (λ t. t % h.fhostname_num) f)
]

-- The host in use is all that a step in the round changes.
same_hosts :
    (h : Hosts) (k : ℕ)
    → h.num < h.fhostname_num
    → record (next_host h) { num = place (next_host h) k } ≡ record h { num = place h (suc k) }
same_hosts h k i =
    λ j. record { num = place-next_host h k i j; fhostname_num = next_host-fhostname_num h j }

place-zero : (h : Hosts) → h.num < h.fhostname_num → place h 0 ≡ h.num
place-zero h i =
    let e : h.num + 0 ≡ h.num = omega arith in ap (λ t. t % h.fhostname_num) e ∙ mod-eq_of_lt i

pub tried : (o : Opening) (w : World) → w.pp2sk ≡ none → sk_open o w ≡ some (try_open o w)
unfolding sk_open
tried o w e = ap (λ p. elim p [ some fd ↦ none | none ↦ some (try_open o w) ]) e

tried_as :
    (o o' : Opening) (w : World) → w.pp2sk ≡ none → o ≡ o' → sk_open o w ≡ some (try_open o' w)
tried_as o o' w e a = tried o w e ∙ ap (λ x. some (try_open x w)) a

-- Where no socket to the backend is open, the host in use is one of those that are given, the names of
-- this and of the next ones in the round, `k` in all, cannot be resolved, a connection to the one behind
-- them can be begun, and more than `k` tries are allowed: that host, `k` places further in the round, is
-- the one in use afterwards, and its socket is the backend's.
pub open_backend_finds :
    (k retries fd : ℕ) (answer : ℕ → Opening) (rv : Rv) (h : Hosts) (w : World)
    → w.pp2sk ≡ none
    → h.num < h.fhostname_num
    → ((i : ℕ) → i < k → answer ((h.num + i) % h.fhostname_num) ≡ no_name)
    → answer ((h.num + k) % h.fhostname_num) ≡ connected fd
    → k < retries
    → open_backend retries answer rv h w
      ≡ some (ok, record h { num = (h.num + k) % h.fhostname_num }, with_backend fd w)
unfolding open_backend
open_backend_finds k zero fd answer rv h w e inside skipped here more = absurd (omega (arith, more))
open_backend_finds zero (suc n) fd answer rv h w e inside skipped here more =
    let at : place h 0 ≡ h.num = place-zero h inside in
    rw (tried_as (answer h.num) (connected fd) w e (ap answer (sym at) ∙ here), open_backend)
      (ap (λ m. some (ok, record h { num = m }, with_backend fd w)) (sym at))
open_backend_finds (suc k) (suc n) fd answer rv h w e inside skipped here more =
    let at : place h 0 ≡ h.num = place-zero h inside in
    let next = λ (i : ℕ). place-next_host h i inside in
    rw
      (
        tried_as (answer h.num) no_name w e (ap answer (sym at) ∙ skipped 0 (omega arith)),
        open_backend,
      )
      (open_backend_finds k n fd answer (fail eai) (next_host h) w e (next_host-num h inside)
          (λ i lt. ap answer (next i) ∙ skipped (suc i) (omega arith)) (ap answer (next k) ∙ here)
          (omega (arith, more))
        ∙ ap (λ t. some (ok, t, with_backend fd w)) (same_hosts h k inside))
