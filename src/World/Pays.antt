-- ===== src/World/Pays.antt =====
-- Actions that raise a measure of the world by so much at most, a rule for each way to build an action.
use acme_lib.Prelude.{subst, ℕ, zero, suc, ◌+◌, ◌≤◌, ◌≡◌, refl, sym, Option, none, some, arith}
use acme_lib.Crates.{Crates}
use acme_lib.Outcome.{Outcome, ok, err, panic, out_of_fuel, ok-injective}
use acme_lib.Persist.{Persist}
use acme_lib.World.{World, Act, lift, pure, continue, repeat, again, ◌>>=◌}
use acme_lib.World.Values.{Returns, Found, bind-then-ok}

module _ {C : Crates} {P : Persist C} (measure : World C P → ℕ) where
  pub record Costs {A : Type 0} (n : ℕ) (m : Act C P A) : Type 0 where
    pub at : (w : World C P) → measure (m w).1 ≤ measure w + n

  -- A value in `Q` has not raised the measure.
  pub record Refunds {A : Type 0} (Q : A → Type 0) (m : Act C P A) : Type 0 where
    pub at : (w : World C P) (a : A) → (m w).0 ≡ ok a → Q a → measure (m w).1 ≤ measure w

  module _ {A : Type 0} where
    pub Costs-lift : (n : ℕ) (r : Outcome C A) → Costs n (lift r)
    unfolding ◌>>=◌
    Costs-lift n r = record { at = λ w. omega arith }

    pub Costs-pure : (n : ℕ) (a : A) → Costs n (pure a)
    unfolding ◌>>=◌
    Costs-pure n a = record { at = λ w. omega arith }

  module _ {A B : Type 0} where
    Costs-continue :
        (n : ℕ) (r : Outcome C A) (f : A → Act C P B) (w : World C P)
        → ((a : A) → Costs n (f a))
        → measure (continue r f w).1 ≤ measure w + n
    Costs-continue n (ok a) f w h = (h a).at w
    Costs-continue n (err e) f w h = omega arith
    Costs-continue n (panic s) f w h = omega arith
    Costs-continue n out_of_fuel f w h = omega arith

    pub Costs-bind :
        (m n : ℕ) {act : Act C P A} {f : A → Act C P B}
        → Costs m act
        → ((a : A) → Costs n (f a))
        → Costs (m + n) (act >>= f)
    unfolding ◌>>=◌
    Costs-bind m n {act} {f} hm hf = record {
      at = λ w. omega (arith, hm.at w, Costs-continue n (act w).0 f (act w).1 hf);
    }

    -- The refund lies in the first action, if the rest gives such values only after such values.
    pub Refunds-first :
        (Q : A → Type 0) (R : B → Type 0) {act : Act C P A} {f : A → Act C P B}
        → Refunds Q act
        → ((a : A) → Costs 0 (f a))
        → ((a : A) → Returns (λ b. R b → Q a) (f a))
        → Refunds R (act >>= f)
    Refunds-first Q R {act} {f} hm hf hr = record {
      at = λ w b e q.
          let (a, e1, p, e2) = bind-then-ok act f w e in
          let first = hm.at w a e1 ((hr a).at (act w).1 b e2 q) in
          let rest = (hf a).at (act w).1 in rw p (omega (arith, first, rest));
    }

  module _ {A : Type 0} where
    again-Costs :
        (n : ℕ) (Q : A → Type 0) (o : Option A) (k : Act C P A) (w v : World C P)
        → (Found Q o → measure v ≤ measure w)
        → measure v ≤ measure w + n
        → Costs n k
        → measure (again o k v).1 ≤ measure w + n
    again-Costs n Q none k w v refund cost h = omega (arith, refund tt, h.at v)
    again-Costs n Q (some a) k w v refund cost h = cost

    -- Every round but the last is refunded.
    pub Costs-repeat :
        (n : ℕ) (Q : A → Type 0) (fuel : ℕ) {body : Act C P (Option A)}
        → Costs n body
        → Refunds (Found Q) body
        → Costs n (repeat fuel body)
    unfolding repeat ◌>>=◌
    Costs-repeat n Q zero hc hr = record { at = λ w. omega arith }
    Costs-repeat n Q (suc fuel) {body} hc hr = record {
      at = λ w. round w (body w).0 refl (Costs-repeat n Q fuel hc hr);
    }
      where
        round :
            (w : World C P) (r : Outcome C (Option A))
            → (body w).0 ≡ r
            → Costs n (repeat fuel body)
            → measure (continue r (λ o. again o (repeat fuel body)) (body w).1).1 ≤ measure w + n
        round w (ok o) e h =
            again-Costs n Q o (repeat fuel body) w (body w).1 (hr.at w o e) (hc.at w) h
        round w (err x) e h = hc.at w
        round w (panic s) e h = hc.at w
        round w out_of_fuel e h = hc.at w

    again-Refunds :
        (Q : A → Type 0) (o : Option A) (k : Act C P A) (v : World C P) (a : A)
        → (again o k v).0 ≡ ok a
        → Q a
        → Refunds Q k
        → (Found Q o) × (measure (again o k v).1 ≤ measure v)
    again-Refunds Q none k v a e q h = (tt, h.at v a e q)
    again-Refunds Q (some b) k v a e q h = (subst Q (sym (ok-injective {C = C} e)) q, omega arith)

    pub Refunds-repeat :
        (Q : A → Type 0) (fuel : ℕ) {body : Act C P (Option A)}
        → Refunds (Found Q) body
        → Refunds Q (repeat fuel body)
    unfolding repeat
    Refunds-repeat Q zero hr = record { at = λ w a e q. cc }
    Refunds-repeat Q (suc fuel) {body} hr = record {
      at = λ w a e q.
          let (o, e1, p, e2) = bind-then-ok body (λ o. again o (repeat fuel body)) w e in
          let (found, rest) =
            again-Refunds Q o (repeat fuel body) (body w).1 a e2 q (Refunds-repeat Q fuel hr) in
          let first = hr.at w o e1 found in rw p (omega (arith, first, rest));
    }
