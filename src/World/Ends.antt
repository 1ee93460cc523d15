-- ===== src/World/Ends.antt =====
-- Actions that end on fuel above a measure of the world, a rule for each way to build an action.
use acme_lib.Prelude.{ℕ, zero, suc, ◌≤◌, ◌<◌, ◌≡◌, ◌≢◌, refl, Option, none, some, arith}
use acme_lib.Crates.{Crates}
use acme_lib.Outcome.{Outcome, ok, err, panic, out_of_fuel}
use acme_lib.Persist.{Persist}
use acme_lib.World.{World, Act, lift, pure, continue, repeat, again, ◌>>=◌}
use acme_lib.World.Keeps.{Keeps, Keeps-bind, Keeps-lift, Keeps-again, Keeps-repeat}
use acme_lib.World.Values.{Returns, Found, bind-eq-ok}

module _ {C : Crates} {P : Persist C} (measure : World C P → ℕ) where
  -- The measure is below a bound; that this is kept for every bound says that it never rises.
  abbrev pub Under : ℕ → World C P → Type 0
  Under n w = measure w < n

  -- With a measure below `n` the action does not run out of fuel, and the measure never rises.
  pub record Ends {A : Type 0} (n : ℕ) (m : Act C P A) : Type 0 where
    pub settles : (w : World C P) → measure w < n → (m w).0 ≢ out_of_fuel
    pub level : (k : ℕ) → Keeps (Under k) m

  -- A value in `Q` has lowered the measure.
  pub record Spends {A : Type 0} (Q : A → Type 0) (m : Act C P A) : Type 0 where
    pub cost : (w : World C P) (a : A) → (m w).0 ≡ ok a → Q a → measure (m w).1 < measure w

  module _ {A : Type 0} where
    pub Ends-lift : (n : ℕ) (r : Outcome C A) → r ≢ out_of_fuel → Ends n (lift r)
    unfolding ◌>>=◌
    Ends-lift n r h = record { settles = λ w i. h; level = λ k. Keeps-lift r }

    pub Ends-pure : (n : ℕ) (a : A) → Ends n (pure a)
    unfolding ◌>>=◌
    Ends-pure n a = record { settles = λ w i e. cc; level = λ k. record { at = λ w i. i } }

  module _ {A B : Type 0} where
    settles-continue :
        (n : ℕ) (r : Outcome C A) (f : A → Act C P B) (w : World C P)
        → r ≢ out_of_fuel
        → ((a : A) → Ends n (f a))
        → measure w < n
        → (continue r f w).0 ≢ out_of_fuel
    settles-continue n (ok a) f w h k i = (k a).settles w i
    settles-continue n (err e) f w h k i = λ p. cc
    settles-continue n (panic s) f w h k i = λ p. cc
    settles-continue n out_of_fuel f w h k i = λ p. h refl

    pub Ends-bind :
        (n : ℕ) {m : Act C P A} {f : A → Act C P B}
        → Ends n m
        → ((a : A) → Ends n (f a))
        → Ends n (m >>= f)
    unfolding ◌>>=◌
    Ends-bind n {m} {f} hm hf = record {
      settles =
          λ w i. settles-continue n (m w).0 f (m w).1 (hm.settles w i) hf ((hm.level n).at w i);
      level = λ k. record { at = (Keeps-bind (hm.level k) (λ a. (hf a).level k)).at };
    }

    -- The cost lies in the first action, if the rest gives such values only after such values.
    pub Spends-first :
        (Q : A → Type 0) (R : B → Type 0) {m : Act C P A} {f : A → Act C P B}
        → Spends Q m
        → ((k : ℕ) (a : A) → Keeps (Under k) (f a))
        → ((a : A) → Returns (λ b. R b → Q a) (f a))
        → Spends R (m >>= f)
    Spends-first Q R {m} {f} hm hk hr = record {
      cost = λ w b e q. first w b (bind-eq-ok m f w e) e q;
    }
      where
        first :
            (w : World C P) (b : B)
            → (a : A) × ((m w).0 ≡ ok a) × ((m >>= f) w ≡ f a (m w).1)
            → ((m >>= f) w).0 ≡ ok b
            → R b
            → measure ((m >>= f) w).1 < measure w
        first w b (a, p, s) e q =
            rw s ((hk (measure w) a).at (m w).1 (hm.cost w a p ((hr a).at (m w).1 b (rw s at e) q)))

    -- The cost lies in the rest.
    pub Spends-rest :
        (R : B → Type 0) {m : Act C P A} {f : A → Act C P B}
        → ((k : ℕ) → Keeps (Under k) m)
        → ((a : A) → Spends R (f a))
        → Spends R (m >>= f)
    Spends-rest R {m} {f} hk hf = record { cost = λ w b e q. rest w b (bind-eq-ok m f w e) e q }
      where
        rest :
            (w : World C P) (b : B)
            → (a : A) × ((m w).0 ≡ ok a) × ((m >>= f) w ≡ f a (m w).1)
            → ((m >>= f) w).0 ≡ ok b
            → R b
            → measure ((m >>= f) w).1 < measure w
        rest w b (a, p, s) e q = rw s (
            below ((hf a).cost (m w).1 b (rw s at e) q) ((hk (suc (measure w))).at w (omega arith)))
          where
            below :
                {x : ℕ} → x < measure (m w).1 → measure (m w).1 < suc (measure w) → x < measure w
            below h k = omega arith

  module _ {A : Type 0} {body : Act C P (Option A)} where
    repeat-settles :
        (n f : ℕ) (w : World C P)
        → f ≤ n
        → Ends n body
        → Spends (λ o. o ≡ none) body
        → measure w < f
        → (repeat f body w).0 ≢ out_of_fuel
    unfolding repeat ◌>>=◌
    repeat-settles n zero w le e s h = absurd (omega arith)
    repeat-settles n (suc f) w le e s h =
        go (body w).0 refl (λ q. repeat-settles n f (body w).1 (omega arith) e s q)
      where
        go :
            (r : Outcome C (Option A))
            → (body w).0 ≡ r
            → (measure (body w).1 < f → (repeat f body (body w).1).0 ≢ out_of_fuel)
            → (continue r (λ o. again o (repeat f body)) (body w).1).0 ≢ out_of_fuel
        go (ok none) p ih = ih (below (s.cost w none p refl))
          where
            below : measure (body w).1 < measure w → measure (body w).1 < f
            below fell = omega arith
        go (ok (some a)) p ih = λ q. cc
        go (err d) p ih = λ q. cc
        go (panic m) p ih = λ q. cc
        go out_of_fuel p ih = λ q. e.settles w (omega arith) p

    -- Each further round lowers the measure: with fuel above it, the loop ends.
    pub Ends-repeat :
        (n f : ℕ) → n ≡ f → Ends n body → Spends (λ o. o ≡ none) body → Ends n (repeat f body)
    Ends-repeat n f same e s = record {
      settles = λ w h. repeat-settles n f w (omega arith) e s (omega arith);
      level = λ k. Keeps-repeat f body (e.level k);
    }

    pub Spends-repeat :
        (Q : A → Type 0) (f : ℕ)
        → ((k : ℕ) → Keeps (Under k) body)
        → Spends (Found Q) body
        → Spends Q (repeat f body)
    unfolding repeat
    Spends-repeat Q zero hk s = record { cost = λ w a p q. cc }
    Spends-repeat Q (suc f) hk s = record {
      cost =
          (Spends-first (Found Q) Q s (λ k o. Keeps-again o _ (Keeps-repeat f body (hk k)))
            round).cost;
    }
      where
        round : (o : Option A) → Returns (λ b. Q b → Found Q o) (again o (repeat f body))
        round none = record { at = λ w b p q. tt }
        round (some a) = record { at = λ w b p q. rw (same b p) q }
          where
            same : (b : A) → ◌≡◌ {A = Outcome C A} (ok a) (ok b) → a ≡ b
            same b p = cc
