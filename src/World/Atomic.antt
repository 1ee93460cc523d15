-- ===== src/World/Atomic.antt =====
-- Actions that keep an invariant when they do not return, a rule for each way to build an action.
use acme_lib.Prelude.{◌≡◌, ◌≢◌, refl}
use acme_lib.Crates.{Crates}
use acme_lib.Outcome.{Outcome, ok, err, panic, out_of_fuel}
use acme_lib.Persist.{Persist}
use acme_lib.World.{World, Act, pure, continue, ◌>>=◌}
use acme_lib.World.Keeps.{Keeps}

-- An action that ends without a value has kept `I`.
pub record Atomic {C : Crates} {P : Persist C} {A : Type 0} (I : World C P → Type 0) (m : Act C P A)
    : Type 0 where
  pub at : (w : World C P) → I w → ((a : A) → (m w).0 ≢ ok a) → I (m w).1

module _ {C : Crates} {P : Persist C} {A : Type 0} {I : World C P → Type 0} where
  pub Atomic-Keeps : {m : Act C P A} → Keeps I m → Atomic I m
  Atomic-Keeps k = record { at = λ w i failed. k.at w i }

module _ {C : Crates} {P : Persist C} {A B : Type 0} {I : World C P → Type 0} where
  Atomic-continue :
      (r : Outcome C A) (f : A → Act C P B) (w : World C P)
      → I w
      → ((a : A) → Atomic I (f a))
      → ((b : B) → (continue r f w).0 ≢ ok b)
      → I (continue r f w).1
  Atomic-continue (ok a) f w i h failed = (h a).at w i failed
  Atomic-continue (err e) f w i h failed = i
  Atomic-continue (panic s) f w i h failed = i
  Atomic-continue out_of_fuel f w i h failed = i

  -- What comes before the action keeps the invariant.
  pub Atomic-rest :
      {m : Act C P A} {f : A → Act C P B}
      → Keeps I m
      → ((a : A) → Atomic I (f a))
      → Atomic I (m >>= f)
  unfolding ◌>>=◌
  Atomic-rest {m} {f} k h = record {
    at = λ w i failed. Atomic-continue (m w).0 f (m w).1 (k.at w i) h failed;
  }

  -- What comes after the action only returns.
  pub Atomic-first : {m : Act C P A} (g : A → B) → Atomic I m → Atomic I (m >>= λ a. pure (g a))
  unfolding ◌>>=◌
  Atomic-first {m} g h = record { at = λ w i failed. first w i (m w).0 refl failed }
    where
      first :
          (w : World C P)
          → I w
          → (r : Outcome C A) → (m w).0 ≡ r
          → ((b : B) → (continue r (λ a. pure {P = P} (g a)) (m w).1).0 ≢ ok b)
          → I (continue r (λ a. pure {P = P} (g a)) (m w).1).1
      first w i (ok a) e failed = absurd (failed (g a) refl)
      first w i (err x) e failed = h.at w i λ a p. cc
      first w i (panic s) e failed = h.at w i λ a p. cc
      first w i out_of_fuel e failed = h.at w i λ a p. cc
