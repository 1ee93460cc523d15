-- ===== src/World/Fine.antt =====
-- Actions that do not fail from some worlds on, a rule for each way to build an action.
use acme_lib.Outcome.{◌>>=ᵒ◌, Outcome, ok, err, panic, out_of_fuel, expect}
use acme_lib.Prelude.{ℕ, zero, suc, String, Bool, true, false, ◌≡◌, ◌≢◌, refl, Option, none, some}
use acme_lib.Crates.{Crates}
use acme_lib.Persist.{Persist}
use acme_lib.World.Values.{Returns}
use acme_lib.World.{World, Act, lift, pure, continue, draw, repeat, again, sleep, wait_if, ◌>>=◌}

-- Neither an error nor a panic, and a value is in `Q`.
abbrev pub Good : {C : Crates} {A : Type 0} → (A → Type 0) → Outcome C A → Type 0
Good Q (ok a) = Q a
Good Q out_of_fuel = Unit
Good Q _ = ⊥

-- Every pool asks for nonces at such a URL.
abbrev pub AsksAt : {C : Crates} {P : Persist C} → (String → Type 0) → World C P → Type 0
AsksAt N w = (p : ℕ) → N (w.pools p).nonce_url

-- From a world in `I`, what the action returns and the world it leaves are in `Q`; the pools go on to ask
-- at such URLs.
pub record Fine {C : Crates} {P : Persist C} {A : Type 0} (N : String → Type 0)
    (I : World C P → Type 0) (Q : A → World C P → Type 0) (m : Act C P A) : Type 0 where
  pub at : (w : World C P) → AsksAt N w → I w → Good (λ a. AsksAt N (m w).1 × Q a (m w).1) (m w).0

-- After a round of a loop: the invariant, or what the loop returns.
abbrev pub Next :
    {C : Crates} {P : Persist C} {A : Type 0}
    → (World C P → Type 0)
    → (A → World C P → Type 0)
    → Option A
    → World C P
    → Type 0
Next I Q none w = I w
Next I Q (some a) w = Q a w

-- What is good and not out of fuel is a value.
pub Good-ok :
    {C : Crates} {A : Type 0} (Q : A → Type 0) (o : Outcome C A)
    → Good Q o
    → o ≢ out_of_fuel
    → (a : A) × (o ≡ ok a) × Q a
Good-ok Q (ok a) g h = (a, refl, g)
Good-ok Q (err e) g h = absurd g
Good-ok Q (panic s) g h = absurd g
Good-ok Q out_of_fuel g h = absurd (h refl)

abbrev pub IsSome : {A : Type 0} → Option A → Type 0
IsSome {A} o = (a : A) × (o ≡ some a)

module _ {C : Crates} {P : Persist C} {A B : Type 0} {N : String → Type 0}
    {Q : B → World C P → Type 0} where
  Good-continue :
      (R : A → World C P → Type 0) (r : Outcome C A) (f : A → Act C P B) (w : World C P)
      → Good (λ a. AsksAt N w × R a w) r
      → ((a : A) → Fine N (R a) Q (f a))
      → Good (λ b. AsksAt N (continue r f w).1 × Q b (continue r f w).1) (continue r f w).0
  Good-continue R (ok a) f w (n, g) h = (h a).at w n g
  Good-continue R (err e) f w g h = g
  Good-continue R (panic s) f w g h = g
  Good-continue R out_of_fuel f w g h = tt

  pub Fine-bind :
      {I : World C P → Type 0} (R : A → World C P → Type 0) {m : Act C P A} {f : A → Act C P B}
      → Fine N I R m
      → ((a : A) → Fine N (R a) Q (f a))
      → Fine N I Q (m >>= f)
  unfolding ◌>>=◌
  Fine-bind R {m} {f} hm hf = record {
    at = λ w n i. Good-continue R (m w).0 f (m w).1 (hm.at w n i) hf;
  }

Good-map :
    {C : Crates} {A : Type 0} {Q R : A → Type 0} (r : Outcome C A)
    → ((a : A) → R a → Q a)
    → Good R r
    → Good Q r
Good-map (ok a) h g = h a g
Good-map (err e) h g = g
Good-map (panic s) h g = g
Good-map out_of_fuel h g = g

pub Good-then :
    {C : Crates} {A B : Type 0} (Q : B → Type 0) (R : A → Type 0) (r : Outcome C A)
    (f : A → Outcome C B)
    → Good R r
    → ((a : A) → R a → Good Q (f a))
    → Good Q (r >>=ᵒ f)
Good-then Q R (ok a) f g h = h a g
Good-then Q R (err e) f g h = g
Good-then Q R (panic s) f g h = g
Good-then Q R out_of_fuel f g h = g

Good-returning :
    {C : Crates} {A : Type 0} (Q R : A → Type 0) (r : Outcome C A)
    → ((a : A) → r ≡ ok a → R a)
    → Good Q r
    → Good (λ a. R a × Q a) r
Good-returning Q R (ok a) h g = (h a refl, g)
Good-returning Q R (err e) h g = g
Good-returning Q R (panic s) h g = g
Good-returning Q R out_of_fuel h g = g

module _ {C : Crates} {P : Persist C} {A B : Type 0} {N : String → Type 0}
    {Q : B → World C P → Type 0} where
  -- What is known of the value alone is known in the rest.
  pub Fine-then :
      {I J : World C P → Type 0} (R : A → Type 0) {m : Act C P A} {f : A → Act C P B}
      → Fine N I (λ a w. R a × J w) m
      → ((a : A) → R a → Fine N J Q (f a))
      → Fine N I Q (m >>= f)
  unfolding ◌>>=◌
  Fine-then {J = J} R {m} {f} hm hf = record {
    at =
        (Fine-bind {Q = Q} (λ a w. R a × J w) hm
          (λ a. record { at = λ w n (r, j). (hf a r).at w n j })).at;
  }

module _ {C : Crates} {P : Persist C} {A : Type 0} {N : String → Type 0} where
  pub Fine-lift :
      (R : A → Type 0) {I : World C P → Type 0} (r : Outcome C A)
      → Good R r
      → Fine N I (λ a w. R a × I w) (lift r)
  unfolding ◌>>=◌
  Fine-lift R {I} r g = record {
    at = λ w n i. Good-map {Q = λ a. AsksAt N w × (R a × I w)} {R = R} r (λ a h. (n, (h, i))) g;
  }

  -- What is returned may depend on the world.
  pub Fine-lift_at :
      {I : World C P → Type 0} {Q : A → World C P → Type 0} (r : Outcome C A)
      → ((w : World C P) → I w → Good (λ a. Q a w) r)
      → Fine N I Q (lift r)
  unfolding ◌>>=◌
  Fine-lift_at {I} {Q} r g = record {
    at = λ w n i. Good-map {Q = λ a. AsksAt N w × Q a w} {R = λ a. Q a w} r (λ a q. (n, q)) (g w i);
  }

  pub Fine-weaken :
      {I : World C P → Type 0} {Q R : A → World C P → Type 0} {m : Act C P A}
      → Fine N I R m
      → ((a : A) (w : World C P) → R a w → Q a w)
      → Fine N I Q m
  Fine-weaken {Q = Q} {R} {m} h k = record {
    at = λ w n i. Good-map (m w).0 (λ a (x, q). (x, k a (m w).1 q)) (h.at w n i);
  }

  -- With what is known of every value that the action returns.
  pub Fine-returning :
      {I J : World C P → Type 0} (R : A → Type 0) {m : Act C P A}
      → Fine N I (λ a w. J w) m
      → Returns R m
      → Fine N I (λ a w. R a × J w) m
  Fine-returning {J = J} R {m} h k = record {
    at = λ w n i.
        Good-map (m w).0 (λ a (r, (x, j)). (x, (r, j)))
          (Good-returning (λ a. AsksAt N (m w).1 × J (m w).1) R (m w).0 (λ a e. k.at w a e)
            (h.at w n i));
  }

  pub Fine-known :
      {I : World C P → Type 0} (r : Outcome C A) {a : A}
      → r ≡ ok a
      → Fine N I (λ b w. (a ≡ b) × I w) (lift r)
  unfolding ◌>>=◌
  Fine-known r {a} e = rw e (record { at = λ w n i. (n, (refl, i)) })

  pub Fine-expect :
      {I : World C P → Type 0} (message : String) (o : Option A)
      → IsSome o
      → Fine N I (λ a w. (o ≡ some a) × I w) (lift (expect message o))
  unfolding ◌>>=◌
  Fine-expect message none (a, e) = cc
  Fine-expect message (some b) e = record { at = λ w n i. (n, (refl, i)) }

  pub Fine-pure :
      {I : World C P → Type 0} {Q : A → World C P → Type 0} (a : A)
      → ((w : World C P) → I w → Q a w)
      → Fine N I Q (pure a)
  unfolding ◌>>=◌
  Fine-pure a q = record { at = λ w n i. (n, q w i) }

  again-Fine :
      {I : World C P → Type 0} {Q : A → World C P → Type 0} (o : Option A) (k : Act C P A)
      → Fine N I Q k
      → Fine N (Next I Q o) Q (again o k)
  again-Fine (some a) k h = record { at = λ w n i. (n, i) }
  again-Fine none k h = record { at = h.at }

  pub Fine-repeat :
      {I : World C P → Type 0} {Q : A → World C P → Type 0} (fuel : ℕ) (body : Act C P (Option A))
      → Fine N I (Next I Q) body
      → Fine N I Q (repeat fuel body)
  unfolding repeat
  Fine-repeat zero body h = record { at = λ w n i. tt }
  Fine-repeat {I} {Q} (suc fuel) body h = record {
    at =
        (Fine-bind (Next I Q) h
          (λ o. again-Fine o (repeat fuel body) (Fine-repeat fuel body h))).at;
  }

  -- Where the network decides what is known of the world, a step that is not a request keeps it.
  pub Fine-draw :
      (I : C.Net → Type 0) (R : A → Type 0) (f : C.Entropy → A × C.Entropy)
      → ((e : C.Entropy) → R (f e).0)
      → Fine N (λ (w : World C P). I w.net) (λ a w. R a × I w.net) (draw f)
  unfolding draw
  Fine-draw I R f h = record { at = λ w n i. (n, (h w.entropy, i)) }

  pub Fine-wait_if :
      (I : C.Net → Type 0) {K : World C P → Type 0} {Q : A → World C P → Type 0} (b : Bool)
      (delay_millis : ℕ) (a : A)
      → ((w : World C P) → K w → b ≡ true → I w.net)
      → ((w : World C P) → K w → b ≡ false → Q a w)
      → Fine N K (Next (λ w. I w.net) Q) (wait_if b delay_millis a)
  unfolding sleep ◌>>=◌
  Fine-wait_if I true delay_millis a h k = record { at = λ w n i. (n, h w i refl) }
  Fine-wait_if I false delay_millis a h k = record { at = λ w n i. (n, k w i refl) }
