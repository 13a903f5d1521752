-- ===== src/Daemon/Invariant.antt =====
-- The lists of sockets stay in order through every round of event_loop.
use wsd.Prelude.{
  ℕ, ◌≡◌, refl, ap, Bool, true, false, if◌then◌else◌, Bool-cases, inl, inr, Option, none, some,
  arith,
}
use mathlib.Core.Path.{subst}
use wsd.Child.{World, sk_close, pp2_close, is_pp2sk}
use wsd.Child.Invariant.{Inv, sk_close-Inv, pp2_close-Inv}
use wsd.Child.Reach.{its_fd, not_its}
use wsd.Daemon.Loop.{close}

abbrev pub world_of : World → Option World → World
world_of w none = w
world_of w (some w') = w'

-- A world that is given has the invariant.
same : (v w : World) → Inv v → some v ≡ some w → Inv w
same v w i e = subst Inv (ap (world_of v) e) i

-- The test of such an if.
pub not_holds :
    (b : Bool) (o : Option World) {w : World} → (if b then none else o) ≡ some w → b ≡ false
not_holds true o e = absurd (ground (arith, e))
not_holds false o e = refl

-- What is given by an if that gives nothing where the test holds.
pub unless_none :
    (b : Bool) {o : Option World} {w : World} → (if b then none else o) ≡ some w → o ≡ some w
unless_none true e = absurd (ground (arith, e))
unless_none false e = e

pub close-Inv : (fd : ℕ) (w w' : World) → Inv w → close fd w ≡ some w' → Inv w'
unfolding close
close-Inv fd w w' i e = elim (Bool-cases (is_pp2sk fd w)) [
  | inl backend ↦
      same (pp2_close fd w) w' (pp2_close-Inv w fd i (its_fd w.pp2sk fd backend)) (rw backend at e)
  | inr client ↦
      let open_ : (if w.dangling then none else some (sk_close fd w)) ≡ some w' = rw client at e in
      same (sk_close fd w) w'
        (sk_close-Inv w fd (i, not_holds w.dangling _ open_) (not_its w.pp2sk fd client))
        (unless_none w.dangling open_)
]
