-- ===== src/Client/Termination/Polls.antt =====
-- Lemmas on fuel: the polling loops of src/order/mod.rs and src/order/auth.rs.
use acme_lib.Prelude.{ℕ, arith, ◌≢◌, ◌≡◌, refl, String, Bool, true, false, none, some}
use acme_lib.Api.{ApiOrder, ApiAuth, is_status_processing, is_auth_pending, empty_string_json}
use acme_lib.Crates.{Crates}
use acme_lib.Outcome.{Outcome, ok, out_of_fuel}
use acme_lib.Persist.{Persist}
use acme_lib.World.{sleep, wait_if}
use acme_lib.World.Keeps.{Keeps-bind, Keeps-lift, Keeps-pure}
use acme_lib.World.Values.{Returns, Returns-bind_of, Returns-lift, Returns-pure}
use acme_lib.World.Ends.{Ends, Spends, Ends-lift, Ends-pure, Ends-bind, Ends-repeat, Spends-first}
use acme_lib.Req.{read_json}
use acme_lib.Acc.Inner.{AccountInner}
use acme_lib.Order.{Order, refresh_order, poll_order, wait_for_order_status}
use acme_lib.Order.Auth.{
  accept_if_valid, Challenge, Marker, validate, poll_auth, wait_for_auth_status,
}
use acme_lib.Client.Patience.{IsPatient}
use acme_lib.Client.Termination.Calls.{
  rank_of, level_basics, read_json-settles, call-Ends, call-Spends,
}

pub accept_if_valid-settles :
    {C : Crates} (a : ApiAuth) → ◌≢◌ {A = Outcome C Unit} (accept_if_valid a) out_of_fuel
unfolding accept_if_valid
accept_if_valid-settles a = ground arith

abbrev IsProcessing : {C : Crates} → Order C → Type 0
IsProcessing order = is_status_processing order.api_order ≡ true

abbrev DecodesProcessing : (C : Crates) → C.Response → Type 0
DecodesProcessing C res =
    (o : ApiOrder) × (read_json C C.order_from_str res ≡ ok o) × (is_status_processing o ≡ true)

abbrev IsPending : ApiAuth → Type 0
IsPending auth = is_auth_pending auth ≡ true

abbrev pub DecodesPending : (C : Crates) → C.Response → Type 0
DecodesPending C res =
    (a : ApiAuth) × (read_json C C.auth_from_str res ≡ ok a) × (is_auth_pending a ≡ true)

module _ {C : Crates} {P : Persist C} (rank : C.Net → ℕ) (patient : IsPatient C rank) where
  sleep-Ends : (n millis : ℕ) → Ends {P = P} (rank_of rank patient) n (sleep millis)
  unfolding sleep
  sleep-Ends n millis = record {
    settles = λ w h p. cc;
    level = λ k. (level_basics rank patient k).basic_sleep millis;
  }

  wait_if-Ends :
      (n : ℕ) {A : Type 0} (b : Bool) (delay_millis : ℕ) (a : A)
      → Ends {P = P} (rank_of rank patient) n (wait_if b delay_millis a)
  wait_if-Ends n true delay_millis a =
      Ends-bind _ n (sleep-Ends n delay_millis) λ _. Ends-pure _ n none
  wait_if-Ends n false delay_millis a = Ends-pure _ n (some a)

  -- A round that goes on has seen the test come true.
  pub wait_if-Returns :
      {A : Type 0} (Q : A → Type 0) (b : Bool) (delay_millis : ℕ) (a : A)
      → (b ≡ true → Q a)
      → Returns {P = P} (λ o. o ≡ none → Q a) (wait_if b delay_millis a)
  wait_if-Returns Q true delay_millis a h = record { at = λ w o p e. h refl }
  wait_if-Returns Q false delay_millis a h = Returns-pure (some a) (λ e. cc)

  pub refresh_order-Ends :
      (n : ℕ) (inner : AccountInner C) (url : String)
      → Ends {P = P} (rank_of rank patient) n (refresh_order n inner url)
  unfolding refresh_order
  refresh_order-Ends n inner url =
      Ends-bind _ n (call-Ends rank patient n inner.transport url empty_string_json) λ res.
        Ends-bind _ n (Ends-lift _ n _ (read_json-settles C.order_from_str res))
          λ o. Ends-pure _ n _

  refresh_order-Spends :
      (n : ℕ) (inner : AccountInner C) (url : String)
      → Spends {P = P} (rank_of rank patient) IsProcessing (refresh_order n inner url)
  unfolding refresh_order
  refresh_order-Spends n inner url =
      Spends-first _ (DecodesProcessing C) IsProcessing
        (call-Spends rank patient n inner.transport url empty_string_json (DecodesProcessing C)
          (λ text net (o, r, q). patient.processing_costs url text net o r q))
        (λ k res. Keeps-bind (Keeps-lift _) λ o. Keeps-pure _)
        (λ res.
          Returns-bind_of (λ o. read_json C C.order_from_str res ≡ ok o) (Returns-lift _ (λ o e. e))
            λ o e. Returns-pure _ (λ q. (o, e, q)))

  pub wait_for_order_status-Ends :
      (n : ℕ) (inner : AccountInner C) (url : String) (delay_millis : ℕ)
      → Ends {P = P} (rank_of rank patient) n (wait_for_order_status n inner url delay_millis)
  unfolding wait_for_order_status poll_order
  wait_for_order_status-Ends n inner url delay_millis =
      Ends-repeat _ n n refl
        (Ends-bind _ n (refresh_order-Ends n inner url)
          λ order. wait_if-Ends n _ delay_millis order)
        (Spends-first _ IsProcessing (λ o. o ≡ none) (refresh_order-Spends n inner url)
          (λ k order. (wait_if-Ends 0 _ delay_millis order).level k)
          (λ order. wait_if-Returns IsProcessing _ delay_millis order (λ e. e)))

  pub wait_for_auth_status-Ends :
      (n : ℕ) (inner : AccountInner C) (url : String) (delay_millis : ℕ)
      → Ends {P = P} (rank_of rank patient) n (wait_for_auth_status n inner url delay_millis)
  unfolding wait_for_auth_status poll_auth
  wait_for_auth_status-Ends n inner url delay_millis =
      Ends-repeat _ n n refl
        (Ends-bind _ n (call-Ends rank patient n inner.transport url empty_string_json) λ res.
          Ends-bind _ n (Ends-lift _ n _ (read_json-settles C.auth_from_str res))
            λ auth. wait_if-Ends n _ delay_millis auth)
        (Spends-first _ (DecodesPending C) (λ o. o ≡ none)
          (call-Spends rank patient n inner.transport url empty_string_json (DecodesPending C)
            (λ text net (a, r, q). patient.pending_costs url text net a r q))
          (λ k res. Keeps-bind (Keeps-lift _) λ auth. (wait_if-Ends 0 _ delay_millis auth).level k)
          (λ res.
            Returns-bind_of (λ a. read_json C C.auth_from_str res ≡ ok a)
              (Returns-lift _ (λ a e. e))
              λ auth e.
                wait_if-Returns (λ _. DecodesPending C res) _ delay_millis auth
                  (λ q. (auth, e, q))))

  pub validate-Ends :
      (n : ℕ) {A : Marker} (c : Challenge C A) (delay_millis : ℕ)
      → Ends {P = P} (rank_of rank patient) n (validate n c delay_millis)
  unfolding validate
  validate-Ends n c delay_millis = Ends-bind _ n (call-Ends rank patient n _ _ _) λ res.
      Ends-bind _ n (Ends-lift _ n _ (read_json-settles _ res)) λ _.
        Ends-bind _ n (wait_for_auth_status-Ends n _ _ delay_millis)
          λ auth. Ends-lift _ n _ (accept_if_valid-settles auth)
