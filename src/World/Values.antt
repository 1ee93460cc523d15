-- ===== src/World/Values.antt =====
-- Facts about the values and the errors that actions give, a rule for each way to build an action.
use acme_lib.Prelude.{
  ℕ, zero, suc, Bool, true, false, ◌≡◌, refl, ap, sym, ◌∙◌, Option, none, some, arith,
}
use acme_lib.Crates.{Crates}
use acme_lib.Outcome.{Error, Outcome, ok, err, panic, out_of_fuel}
use acme_lib.Persist.{Persist}
use acme_lib.World.{World, Act, lift, pure, continue, repeat, again, sleep, wait_if, ◌>>=◌}

-- Every value that `m` returns has the property `Q`.
pub record Returns {C : Crates} {P : Persist C} {A : Type 0} (Q : A → Type 0) (m : Act C P A)
    : Type 0 where
  pub at : (w : World C P) (a : A) → (m w).0 ≡ ok a → Q a

-- Every error that `m` gives has the property `Q`.
pub record Raises {C : Crates} {P : Persist C} {A : Type 0} (Q : Error C → Type 0) (m : Act C P A)
    : Type 0 where
  pub at : (w : World C P) (e : Error C) → (m w).0 ≡ err e → Q e

-- A block that returns a value runs its first action to a value, and goes on from there.
module _ {C : Crates} {P : Persist C} {A B : Type 0} where
  continue-eq-ok :
      (r : Outcome C A) (f : A → Act C P B) (w : World C P) {b : B}
      → (continue r f w).0 ≡ ok b
      → (a : A) × (r ≡ ok a) × (continue r f w ≡ f a w)
  continue-eq-ok (ok a) f w h = (a, refl, refl)
  continue-eq-ok (err e) f w h = cc
  continue-eq-ok (panic s) f w h = cc
  continue-eq-ok out_of_fuel f w h = cc

  -- The result of a block that returns a value is the result of the rest of it.
  pub bind-then-ok :
      (m : Act C P A) (f : A → Act C P B) (w : World C P) {b : B}
      → ((m >>= f) w).0 ≡ ok b
      → (a : A) × ((m w).0 ≡ ok a) × ((m >>= f) w ≡ f a (m w).1) × ((f a (m w).1).0 ≡ ok b)
  unfolding ◌>>=◌
  bind-then-ok m f w h =
      let (a, e, p) = continue-eq-ok (m w).0 f (m w).1 h in (a, e, p, sym (ap (λ r. r.0) p) ∙ h)

  pub bind-eq-ok :
      (m : Act C P A) (f : A → Act C P B) (w : World C P) {b : B}
      → ((m >>= f) w).0 ≡ ok b
      → (a : A) × ((m w).0 ≡ ok a) × ((m >>= f) w ≡ f a (m w).1)
  unfolding ◌>>=◌
  bind-eq-ok m f w h = continue-eq-ok (m w).0 f (m w).1 h

module _ {C : Crates} {P : Persist C} {A B : Type 0} {Q : B → Type 0} where
  Returns-continue :
      (r : Outcome C A) (f : A → Act C P B)
      → ((a : A) → r ≡ ok a → Returns Q (f a))
      → Returns Q (continue r f)
  Returns-continue (ok a) f h = record { at = (h a refl).at }
  Returns-continue (err e) f h = record { at = λ w b p. cc }
  Returns-continue (panic s) f h = record { at = λ w b p. cc }
  Returns-continue out_of_fuel f h = record { at = λ w b p. cc }

  -- The rest of the block may use what is known of the first value.
  pub Returns-bind_of :
      (R : A → Type 0) {m : Act C P A} {f : A → Act C P B}
      → Returns R m
      → ((a : A) → R a → Returns Q (f a))
      → Returns Q (m >>= f)
  unfolding ◌>>=◌
  Returns-bind_of R {m} {f} hm hf = record {
    at = λ w. (Returns-continue (m w).0 f (λ a e. hf a (hm.at w a e))).at (m w).1;
  }

  pub Returns-bind :
      (m : Act C P A) {f : A → Act C P B} → ((a : A) → Returns Q (f a)) → Returns Q (m >>= f)
  unfolding ◌>>=◌
  Returns-bind m {f} hf = record { at = λ w. (Returns-continue (m w).0 f (λ a e. hf a)).at (m w).1 }

module _ {C : Crates} {P : Persist C} {A B : Type 0} {Q : Error C → Type 0} where
  Raises-continue :
      (r : Outcome C A) (f : A → Act C P B)
      → ((e : Error C) → r ≡ err e → Q e)
      → ((a : A) → Raises Q (f a))
      → Raises Q (continue r f)
  Raises-continue (ok a) f g h = record { at = (h a).at }
  Raises-continue (err e) f g h = record { at = λ w d p. g d (ground arith) }
  Raises-continue (panic s) f g h = record { at = λ w b p. cc }
  Raises-continue out_of_fuel f g h = record { at = λ w b p. cc }

  pub Raises-bind :
      {m : Act C P A} {f : A → Act C P B}
      → Raises Q m
      → ((a : A) → Raises Q (f a))
      → Raises Q (m >>= f)
  unfolding ◌>>=◌
  Raises-bind {m} {f} hm hf = record {
    at = λ w. (Raises-continue (m w).0 f (hm.at w) hf).at (m w).1;
  }

module _ {C : Crates} {P : Persist C} {A B : Type 0} where
  pub lift-then-ok :
      (r : Outcome C A) (f : A → Act C P B) (w : World C P) {b : B}
      → ((lift r >>= f) w).0 ≡ ok b
      → (a : A) × (r ≡ ok a) × ((lift r >>= f) w ≡ f a w) × ((f a w).0 ≡ ok b)
  unfolding ◌>>=◌
  lift-then-ok r f w h = bind-then-ok (lift r) f w h

module _ {C : Crates} {P : Persist C} {A : Type 0} where
  pub pure-ok : (a : A) (w : World C P) {b : A} → (pure a w).0 ≡ ok b → a ≡ b
  unfolding ◌>>=◌
  pure-ok a w h = cc

  pub lift-ok : (r : Outcome C A) (w : World C P) {b : A} → (lift r w).0 ≡ ok b → r ≡ ok b
  unfolding ◌>>=◌
  lift-ok r w h = h

  pub lift-world : (r : Outcome C A) (w : World C P) → (lift r w).1 ≡ w
  unfolding ◌>>=◌
  lift-world r w = refl

  pub pure-world : (a : A) (w : World C P) → (pure a w).1 ≡ w
  unfolding ◌>>=◌
  pure-world a w = refl

-- What a round of a loop finds.
abbrev pub Found : {A : Type 0} → (A → Type 0) → Option A → Type 0
Found Q none = Unit
Found Q (some a) = Q a

module _ {C : Crates} {P : Persist C} {A : Type 0} where
  pub Returns-pure : {Q : A → Type 0} (a : A) → Q a → Returns Q (pure {P = P} a)
  unfolding ◌>>=◌
  Returns-pure {Q} a q = record { at = λ w b p. rw (← ok-injective p) q }
    where
      ok-injective : {x y : A} → ◌≡◌ {A = Outcome C A} (ok x) (ok y) → x ≡ y
      ok-injective e = cc

  pub Returns-weaken :
      {Q R : A → Type 0} {m : Act C P A} → Returns R m → ((a : A) → R a → Q a) → Returns Q m
  Returns-weaken h k = record { at = λ w a e. k a (h.at w a e) }

  pub Returns-lift :
      {Q : A → Type 0} (r : Outcome C A) → ((a : A) → r ≡ ok a → Q a) → Returns Q (lift {P = P} r)
  unfolding ◌>>=◌
  Returns-lift r h = record { at = λ w a p. h a p }

  pub Raises-pure : {Q : Error C → Type 0} (a : A) → Raises Q (pure {P = P} a)
  unfolding ◌>>=◌
  Raises-pure a = record { at = λ w e p. cc }

  pub Raises-lift :
      {Q : Error C → Type 0} (r : Outcome C A)
      → ((e : Error C) → r ≡ err e → Q e)
      → Raises Q (lift {P = P} r)
  unfolding ◌>>=◌
  Raises-lift r h = record { at = λ w e p. h e p }

  again-Returns :
      {Q : A → Type 0} (o : Option A) (k : Act C P A)
      → Found Q o
      → Returns Q k
      → Returns Q (again o k)
  unfolding ◌>>=◌
  again-Returns (some a) k q h = record { at = (Returns-pure a q).at }
  again-Returns none k q h = record { at = h.at }

  pub Returns-repeat :
      {Q : A → Type 0} (fuel : ℕ) (body : Act C P (Option A))
      → Returns (Found Q) body
      → Returns Q (repeat fuel body)
  unfolding repeat ◌>>=◌
  Returns-repeat zero body h = record { at = λ w a p. cc }
  Returns-repeat {Q} (suc fuel) body h = record {
    at =
        (Returns-bind_of (Found Q) h
          (λ o q. again-Returns o (repeat fuel body) q (Returns-repeat fuel body h))).at;
  }

  again-Raises :
      {Q : Error C → Type 0} (o : Option A) (k : Act C P A) → Raises Q k → Raises Q (again o k)
  unfolding ◌>>=◌
  again-Raises (some a) k h = record { at = λ w e p. cc }
  again-Raises none k h = record { at = h.at }

  pub Raises-repeat :
      {Q : Error C → Type 0} (fuel : ℕ) (body : Act C P (Option A))
      → Raises Q body
      → Raises Q (repeat fuel body)
  unfolding repeat ◌>>=◌
  Raises-repeat zero body h = record { at = λ w e p. cc }
  Raises-repeat (suc fuel) body h = record {
    at = (Raises-bind h (λ o. again-Raises o (repeat fuel body) (Raises-repeat fuel body h))).at;
  }

module _ {C : Crates} {P : Persist C} {A : Type 0} where
  pub Returns-wait_if :
      (Q : A → Type 0) (b : Bool) (delay_millis : ℕ) (a : A)
      → (b ≡ false → Q a)
      → Returns (Found Q) (wait_if {P = P} b delay_millis a)
  unfolding sleep ◌>>=◌
  Returns-wait_if Q true delay_millis a h = Returns-bind (sleep delay_millis) (λ _. Returns-none)
    where
      Returns-none : Returns (Found Q) (pure {P = P} none)
      Returns-none = Returns-pure none tt
  Returns-wait_if Q false delay_millis a h = Returns-pure (some a) (h refl)

  pub Raises-wait_if :
      {Q : Error C → Type 0} (b : Bool) (delay_millis : ℕ) (a : A)
      → Raises Q (wait_if {P = P} b delay_millis a)
  unfolding sleep ◌>>=◌
  Raises-wait_if true delay_millis a = record { at = λ w e p. cc }
  Raises-wait_if false delay_millis a = record { at = λ w e p. cc }
