-- ===== src/World/Keeps.antt =====
-- Invariants of actions, a rule for each way to build an action.
use acme_lib.Prelude.{ℕ, zero, suc, Bool, true, false, Option, none, some, ◌≡◌, refl}
use acme_lib.Crates.{Crates}
use acme_lib.Outcome.{Outcome, ok, err, panic, out_of_fuel}
use acme_lib.Persist.{Persist}
use acme_lib.World.Values.{Returns}
use acme_lib.World.{World, Act, lift, pure, continue, repeat, again, sleep, wait_if, ◌>>=◌}

-- `m` keeps `I`, however it ends.
pub record Keeps {C : Crates} {P : Persist C} {A : Type 0} (I : World C P → Type 0) (m : Act C P A)
    : Type 0 where
  pub at : (w : World C P) → I w → I (m w).1

module _ {C : Crates} {P : Persist C} {A : Type 0} {I : World C P → Type 0} where
  pub Keeps-lift : (r : Outcome C A) → Keeps I (lift {P = P} r)
  unfolding ◌>>=◌
  Keeps-lift r = record { at = λ w h. h }

  pub Keeps-pure : (a : A) → Keeps I (pure {P = P} a)
  unfolding ◌>>=◌
  Keeps-pure a = record { at = λ w h. h }

  pub Keeps-again : (o : Option A) (k : Act C P A) → Keeps I k → Keeps I (again o k)
  Keeps-again (some a) k h = record { at = λ w i. i }
  Keeps-again none k h = record { at = h.at }

module _ {C : Crates} {P : Persist C} {A B : Type 0} {I : World C P → Type 0} where
  Keeps-continue :
      (r : Outcome C A) (f : A → Act C P B) → ((a : A) → Keeps I (f a)) → Keeps I (continue r f)
  Keeps-continue (ok a) f h = record { at = (h a).at }
  Keeps-continue (err e) f h = record { at = λ w i. i }
  Keeps-continue (panic s) f h = record { at = λ w i. i }
  Keeps-continue out_of_fuel f h = record { at = λ w i. i }

  pub Keeps-bind :
      {m : Act C P A} {f : A → Act C P B}
      → Keeps I m
      → ((a : A) → Keeps I (f a))
      → Keeps I (m >>= f)
  unfolding ◌>>=◌
  Keeps-bind {m} {f} km kf = record {
    at = λ w i. (Keeps-continue (m w).0 f kf).at (m w).1 (km.at w i);
  }

  Keeps-continue_of :
      (r : Outcome C A) (f : A → Act C P B)
      → ((a : A) → r ≡ ok a → Keeps I (f a))
      → Keeps I (continue r f)
  Keeps-continue_of (ok a) f h = record { at = (h a refl).at }
  Keeps-continue_of (err e) f h = record { at = λ w i. i }
  Keeps-continue_of (panic s) f h = record { at = λ w i. i }
  Keeps-continue_of out_of_fuel f h = record { at = λ w i. i }

  -- The rest may use what is known of the value.
  pub Keeps-bind_of :
      (R : A → Type 0) {m : Act C P A} {f : A → Act C P B}
      → Returns R m
      → Keeps I m
      → ((a : A) → R a → Keeps I (f a))
      → Keeps I (m >>= f)
  unfolding ◌>>=◌
  Keeps-bind_of R {m} {f} hm km kf = record {
    at = λ w i. (Keeps-continue_of (m w).0 f (λ a e. kf a (hm.at w a e))).at (m w).1 (km.at w i);
  }

module _ {C : Crates} {P : Persist C} {A : Type 0} {I : World C P → Type 0} where
  pub Keeps-repeat :
      (fuel : ℕ) (body : Act C P (Option A)) → Keeps I body → Keeps I (repeat fuel body)
  unfolding repeat
  Keeps-repeat zero body h = record { at = λ w i. i }
  Keeps-repeat (suc fuel) body h = record {
    at = (Keeps-bind h (λ o. Keeps-again o (repeat fuel body) (Keeps-repeat fuel body h))).at;
  }

  pub Keeps-wait_if :
      (b : Bool) (delay_millis : ℕ) (a : A)
      → Keeps I (sleep delay_millis)
      → Keeps I (wait_if b delay_millis a)
  unfolding sleep ◌>>=◌
  Keeps-wait_if true delay_millis a h = record { at = h.at }
  Keeps-wait_if false delay_millis a h = record { at = λ w i. i }
