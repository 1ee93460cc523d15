-- ===== src/Order/Results.antt =====
-- On the values that the methods of src/order/mod.rs return.
use acme_lib.Prelude.{
  ℕ, ◌≡◌, ◌≢◌, ◌↔◌, refl, ap, ◌∙◌, String, Bool, true, false, ◌||◌, Option, none, some,
  if◌then◌else◌, ◌⊎◌, inl, inr, eq_iff,
}
use mathlib.Core.Option.{some-injective}
use acme_lib.Api.{is_status_ready, is_status_valid, is_status_processing, is_status}
use acme_lib.Crates.{Crates}
use acme_lib.Outcome.{Error, Outcome, ok, err}
use acme_lib.Persist.{Persist}
use acme_lib.World.{World}
use acme_lib.World.Values.{
  Returns, Returns-bind_of, Returns-bind, Returns-pure, Returns-lift, Returns-repeat,
  Returns-wait_if,
}
use acme_lib.Acc.Inner.{AccountInner}
use acme_lib.Order.{
  Order, NewOrder, CsrOrder, CertOrder, is_validated, confirm_validations, cert_order_if_valid,
  refresh_order, poll_order, wait_for_order_status, finalize_pkey,
}

-- An order of one account under one URL.
abbrev IsAt : {C : Crates} → AccountInner C → String → Order C → Type 0
IsAt inner url o = (o.inner ≡ inner) × (o.url ≡ url)

module _ {C : Crates} {P : Persist C} (fuel : ℕ) (inner : AccountInner C) (url : String) where
  refresh_order-Returns : Returns {P = P} (IsAt inner url) (refresh_order fuel inner url)
  unfolding refresh_order
  refresh_order-Returns = Returns-bind _ λ res. Returns-bind _ λ api. Returns-pure _ (refl, refl)

  wait_for_order_status-Returns :
      (delay_millis : ℕ)
      → Returns {P = P}
          (λ o. IsAt inner url o × (is_status_processing o.api_order ≡ false))
          (wait_for_order_status fuel inner url delay_millis)
  unfolding wait_for_order_status poll_order
  wait_for_order_status-Returns delay_millis = Returns-repeat fuel _ (
      Returns-bind_of (IsAt inner url) refresh_order-Returns λ o at.
        Returns-wait_if _ (is_status_processing o.api_order) delay_millis o λ done. (at, done))

module _ {C : Crates} {A : Type 0} where
  if-eq-ok :
      (b : Bool) (a : A) (e : Error C) {c : A}
      → ◌≡◌ {A = Outcome C A} (if b then ok a else err e) (ok c)
      → (c ≡ a) × (b ≡ true)
  if-eq-ok true a e h = (cc, refl)
  if-eq-ok false a e h = cc

pub is_status_iff :
    (want : String) (status : Option String) → (is_status want status ≡ true) ↔ (status ≡ some want)
unfolding is_status
is_status_iff want none = (λ h. cc, λ h. cc)
is_status_iff want (some s) =
    (λ h. ap some ((eq_iff s want).0 h), λ h. (eq_iff s want).1 (some-injective s want h))

pub cert_order_if_valid-eq-ok :
    {C : Crates} (k : C.PrivateKey) (o : Order C) (c : CertOrder C)
    → cert_order_if_valid k o ≡ ok c
    → (c.private_key ≡ k) × (c.order ≡ o) × (is_status_valid o.api_order ≡ true)
unfolding cert_order_if_valid
cert_order_if_valid-eq-ok {C} k o c e =
    let (same, valid) = if-eq-ok {C = C} (is_status_valid o.api_order) _ _ e in
    (ap (λ x. x.private_key) same, ap (λ x. x.order) same, valid)

module _ {C : Crates} {P : Persist C} (fuel : ℕ) where
  finalize_pkey-Returns :
      (o : CsrOrder C) (k : C.PrivateKey) (l : C.PublicKey) (delay_millis : ℕ)
      → Returns {P = P}
          (λ c.
            (c.private_key ≡ k)
            × IsAt o.order.inner o.order.url c.order
            × (is_status_valid c.order.api_order ≡ true))
          (finalize_pkey fuel o k l delay_millis)
  unfolding finalize_pkey
  finalize_pkey-Returns o k l delay_millis = Returns-bind _ λ csr. Returns-bind _ λ der.
      Returns-bind _ λ res.
        Returns-bind_of _
          (wait_for_order_status-Returns fuel o.order.inner o.order.url delay_millis)
          λ order at. Returns-lift _ λ c e.
            let (key, same, valid) = cert_order_if_valid-eq-ok k order c e in
            (key, (ap (λ x. x.inner) same ∙ at.0.0, ap (λ x. x.url) same ∙ at.0.1), rw same valid)

  -- An order that `finalize_pkey` returns has the status `valid`, the private key that was given, and
  -- the account and the URL of the order that was finalized.
  pub finalize_pkey-is-valid :
      (o : CsrOrder C) (k : C.PrivateKey) (l : C.PublicKey) (delay_millis : ℕ) (w : World C P)
      (c : CertOrder C)
      → (finalize_pkey fuel o k l delay_millis w).0 ≡ ok c
      → (c.order.api_order.status ≡ some "valid")
        × (c.private_key ≡ k)
        × (c.order.inner ≡ o.order.inner)
        × (c.order.url ≡ o.order.url)
  unfolding is_status_valid
  finalize_pkey-is-valid o k l delay_millis w c h =
      let (key, at, valid) = (finalize_pkey-Returns o k l delay_millis).at w c h in
      ((is_status_iff "valid" c.order.api_order.status).0 valid, key, at.0, at.1)

either_some :
    {A R V : Type 0} (r v : Bool) (a : A)
    → ((r ≡ true) ↔ R)
    → ((v ≡ true) ↔ V)
    → (((if r || v then some a else none) ≡ some a) ↔ (R ⊎ V))
      × (((if r || v then some a else none) ≡ none) ↔ ((R → ⊥) × (V → ⊥)))
either_some true v a (hr, rh) k =
    ((λ e. inl (hr refl), λ e. refl), (λ e. cc, λ n. absurd (n.0 (hr refl))))
either_some false true a h (hv, vh) =
    ((λ e. inr (hv refl), λ e. refl), (λ e. cc, λ n. absurd (n.1 (hv refl))))
either_some false false a (hr, rh) (hv, vh) = (
  (λ e. cc, λ e. elim e [ inl x ↦ (let b = rh x in cc) | inr x ↦ (let b = vh x in cc) ]),
  (λ e. (λ x. let b = rh x in cc, λ x. let b = vh x in cc), λ n. refl),
)

-- `confirm_validations` gives the same order to finalize exactly if its status is `ready` or `valid`,
-- and `none` exactly otherwise.
pub confirm_validations_iff :
    {C : Crates} (o : NewOrder C)
    → ((confirm_validations o ≡ some (record { order = o.order }))
        ↔ ((o.order.api_order.status ≡ some "ready") ⊎ (o.order.api_order.status ≡ some "valid")))
      × ((confirm_validations o ≡ none)
          ↔ ((o.order.api_order.status ≢ some "ready") × (o.order.api_order.status ≢ some "valid")))
unfolding confirm_validations is_validated is_status_ready is_status_valid
confirm_validations_iff o =
    either_some (is_status "ready" o.order.api_order.status)
      (is_status "valid" o.order.api_order.status) _
      (is_status_iff "ready" o.order.api_order.status)
      (is_status_iff "valid" o.order.api_order.status)
