-- ===== src/World/Leads.antt =====
-- What holds of a value and of the world it is returned in, a rule for each way to build an action.
use acme_lib.Prelude.{
  ℕ, zero, suc, Bool, true, false, ◌≡◌, refl, sym, ap, subst, Option, none, some,
}
use acme_lib.Crates.{Crates}
use acme_lib.Outcome.{Outcome, ok, ok-injective}
use acme_lib.Persist.{Persist}
use acme_lib.World.{World, Act, lift, pure, repeat, again, sleep, wait_if, ◌>>=◌}
use acme_lib.World.Keeps.{Keeps}
use acme_lib.World.Values.{bind-then-ok}

-- From a world in `I`, a value that `m` returns is in `Q` with the world then.
pub record Leads {C : Crates} {P : Persist C} {A : Type 0} (I : World C P → Type 0) (m : Act C P A)
    (Q : A → World C P → Type 0) : Type 0 where
  pub at : (w : World C P) (a : A) → I w → (m w).0 ≡ ok a → Q a (m w).1

module _ {C : Crates} {P : Persist C} {A : Type 0} {I : World C P → Type 0}
    {Q : A → World C P → Type 0} where
  pub Leads-lift :
      (r : Outcome C A) → ((a : A) (w : World C P) → I w → r ≡ ok a → Q a w) → Leads I (lift r) Q
  unfolding ◌>>=◌
  Leads-lift r h = record { at = λ w a i e. h a w i e }

  pub Leads-pure : (a : A) → ((w : World C P) → I w → Q a w) → Leads I (pure a) Q
  unfolding ◌>>=◌
  Leads-pure a h = record { at = λ w b i e. subst (λ c. Q c w) (ok-injective {C = C} e) (h w i) }

module _ {C : Crates} {P : Persist C} {A : Type 0} {I : World C P → Type 0} where
  pub Leads-keeps : {m : Act C P A} → Keeps I m → Leads I m (λ a w. I w)
  Leads-keeps k = record { at = λ w a i e. k.at w i }

module _ {C : Crates} {P : Persist C} {A B : Type 0} {I : World C P → Type 0}
    {Q : B → World C P → Type 0} where
  pub Leads-bind :
      (R : A → World C P → Type 0) {m : Act C P A} {f : A → Act C P B}
      → Leads I m R
      → ((a : A) → Leads (R a) (f a) Q)
      → Leads I (m >>= f) Q
  Leads-bind R {m} {f} hm hf = record {
    at = λ w b i e.
        let (a, e1, p, e2) = bind-then-ok m f w e in
        subst (λ v. Q b v) (ap (λ r. r.1) (sym p)) ((hf a).at (m w).1 b (hm.at w a i e1) e2);
  }

-- What a round of a loop leads to.
abbrev pub Round :
    {C : Crates} {P : Persist C} {A : Type 0}
    → (World C P → Type 0)
    → (A → World C P → Type 0)
    → Option A
    → World C P
    → Type 0
Round I Q none w = I w
Round I Q (some a) w = Q a w

module _ {C : Crates} {P : Persist C} {A : Type 0} {I : World C P → Type 0}
    {Q : A → World C P → Type 0} where
  again-Leads : (o : Option A) (k : Act C P A) → Leads I k Q → Leads (Round I Q o) (again o k) Q
  again-Leads none k h = record { at = h.at }
  again-Leads (some a) k h = record {
    at = λ w b q e. subst (λ c. Q c w) (ok-injective {C = C} e) q;
  }

  pub Leads-repeat :
      (fuel : ℕ) (body : Act C P (Option A))
      → Leads I body (Round I Q)
      → Leads I (repeat fuel body) Q
  unfolding repeat
  Leads-repeat zero body h = record { at = λ w a i e. cc }
  Leads-repeat (suc fuel) body h = record {
    at =
        (Leads-bind (Round I Q) h
          (λ o. again-Leads o (repeat fuel body) (Leads-repeat fuel body h))).at;
  }

  pub Leads-wait_if :
      (J : World C P → Type 0) (b : Bool) (delay_millis : ℕ) (a : A)
      → Keeps I (sleep delay_millis)
      → ((w : World C P) → J w → I w)
      → ((w : World C P) → J w → b ≡ false → Q a w)
      → Leads J (wait_if b delay_millis a) (Round I Q)
  Leads-wait_if J true delay_millis a k weaker h =
      Leads-bind (λ _ w. I w) (record { at = λ w u j e. k.at w (weaker w j) })
        (λ _. Leads-pure none (λ w i. i))
  Leads-wait_if J false delay_millis a k weaker h = Leads-pure (some a) (λ w j. h w j refl)
