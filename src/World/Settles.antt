-- ===== src/World/Settles.antt =====
-- Actions that end from some worlds on, with what is known of the world after them.
use acme_lib.Prelude.{ℕ, ◌≤◌, ◌<◌, ◌≡◌, ◌≢◌, refl, subst, arith}
use acme_lib.Crates.{Crates}
use acme_lib.Outcome.{Outcome, ok, err, panic, out_of_fuel}
use acme_lib.Persist.{Persist}
use acme_lib.World.{World, Act, pure, continue, ◌>>=◌}
use acme_lib.World.Values.{pure-ok}
use acme_lib.World.Ends.{Ends, Under}

-- From a world in `I` the action does not run out of fuel, and what it returns is in `J`.
pub record Settles {C : Crates} {P : Persist C} {A : Type 0} (I : World C P → Type 0)
    (J : A → World C P → Type 0) (m : Act C P A) : Type 0 where
  pub at : (w : World C P) → I w → (m w).0 ≢ out_of_fuel
  pub after : (w : World C P) (a : A) → I w → (m w).0 ≡ ok a → J a (m w).1

module _ {C : Crates} {P : Persist C} {A : Type 0} {I : World C P → Type 0}
    {J : A → World C P → Type 0} where
  pub Settles-pure : (a : A) → ((w : World C P) → I w → J a w) → Settles I J (pure a)
  unfolding ◌>>=◌
  Settles-pure a h = record {
    at = λ w i e. cc;
    after = λ w b i e. subst (λ x. J x w) (pure-ok a w e) (h w i);
  }

  pub Settles-from :
      {H : World C P → Type 0} {m : Act C P A}
      → ((w : World C P) → H w → I w)
      → Settles I J m
      → Settles H J m
  Settles-from h s = record { at = λ w i. s.at w (h w i); after = λ w a i e. s.after w a (h w i) e }

module _ {C : Crates} {P : Persist C} {A B : Type 0} {I : World C P → Type 0}
    {K : B → World C P → Type 0} where
  pub Settles-bind :
      (J : A → World C P → Type 0) {m : Act C P A} {f : A → Act C P B}
      → Settles I J m
      → ((a : A) → Settles (J a) K (f a))
      → Settles I K (m >>= f)
  unfolding ◌>>=◌
  Settles-bind J {m} {f} hm hf = record {
    at = λ w i. ends w (m w).0 (hm.at w i) (λ a e. hm.after w a i e);
    after = λ w b i e. known w (m w).0 b (λ a e. hm.after w a i e) e;
  }
    where
      ends :
          (w : World C P) (r : Outcome C A)
          → r ≢ out_of_fuel
          → ((a : A) → r ≡ ok a → J a (m w).1)
          → (continue r f (m w).1).0 ≢ out_of_fuel
      ends w (ok a) h k = (hf a).at (m w).1 (k a refl)
      ends w (err e) h k = λ q. cc
      ends w (panic s) h k = λ q. cc
      ends w out_of_fuel h k = λ q. h refl

      known :
          (w : World C P) (r : Outcome C A) (b : B)
          → ((a : A) → r ≡ ok a → J a (m w).1)
          → (continue r f (m w).1).0 ≡ ok b
          → K b (continue r f (m w).1).1
      known w (ok a) b k q = (hf a).after (m w).1 b (k a refl) q
      known w (err e) b k q = cc
      known w (panic s) b k q = cc
      known w out_of_fuel b k q = cc

module _ {C : Crates} {P : Persist C} (measure : World C P → ℕ) {A : Type 0} where
  -- A smaller bound on the measure is kept.
  pub Settles-of_Ends :
      (n k : ℕ) {m : Act C P A}
      → k ≤ n
      → Ends measure n m
      → Settles (Under measure k) (λ a w. measure w < k) m
  Settles-of_Ends n k le ends = record {
    at = λ w i. ends.settles w (omega arith);
    after = λ w a i e. (ends.level k).at w i;
  }
