-- ===== src/Client/Liveness.antt =====
-- On `Challenge::validate` of src/order/auth.rs against servers that do their part.
use acme_lib.Prelude.{subst, ℕ, ◌≡◌, String, true, false, some, ◌⊎◌, inl, inr}
use acme_lib.World.Fine.{Fine-lift_at, Fine-known, Fine-then, Next, Fine, Fine-repeat, Fine-wait_if}
use acme_lib.Api.{
  ApiAuth, ApiChallenge, is_auth_valid, is_auth_pending, empty_string_json, empty_object_json,
}
use acme_lib.Json.{Json}
use acme_lib.Acc.Key.{AcmeKey}
use acme_lib.Crates.{Crates}
use acme_lib.Outcome.{ok}
use acme_lib.Persist.{Persist}
use acme_lib.World.{World}
use acme_lib.Req.{read_json}
use acme_lib.Acc.Inner.{AccountInner}
use acme_lib.Order.Auth.{
  Challenge, Marker, accept_if_valid, poll_auth, wait_for_auth_status, validate,
}
use acme_lib.Client.Responsive.{IsResponsive, IsKept, Shows, reply_to, call-Shows}

-- The response reads as a challenge.
abbrev pub IsChallenge : (C : Crates) → C.Response → Type 0
IsChallenge C res = (c : ApiChallenge) × (read_json C C.challenge_from_str res ≡ ok c)

-- The response reads as an authorization that is pending or valid.
abbrev pub IsOpenAuth : (C : Crates) → C.Response → Type 0
IsOpenAuth C res =
    (a : ApiAuth) × (read_json C C.auth_from_str res ≡ ok a)
    × ((is_auth_pending a ≡ true) ⊎ (is_auth_valid a ≡ true))

-- The servers respond, have a challenge, and an authorization that is pending or valid.
pub record IsCooperative (C : Crates) (key : AcmeKey C) (nonce_url challenge_url auth_url : String)
    : Type 0 where
  pub responsive :
      IsResponsive C
        (λ url. url ≡ nonce_url)
        (λ k url payload.
          (k ≡ key)
          × ((url ≡ challenge_url) × (payload ≡ empty_object_json)
              ⊎ (url ≡ auth_url) × (payload ≡ empty_string_json)))
  pub has_challenge :
      (text : String) (net : C.Net)
      → C.is_ok (reply_to C challenge_url text net) ≡ true
      → IsChallenge C (reply_to C challenge_url text net)
  pub has_authorization :
      (text : String) (net : C.Net)
      → C.is_ok (reply_to C auth_url text net) ≡ true
      → IsOpenAuth C (reply_to C auth_url text net)

abbrev IsOpen : ApiAuth → Type 0
IsOpen a = (is_auth_pending a ≡ true) ⊎ (is_auth_valid a ≡ true)

abbrev IsValid : ApiAuth → Type 0
IsValid auth = is_auth_valid auth ≡ true

not_pending :
    (auth : ApiAuth)
    → (is_auth_pending auth ≡ true) ⊎ (is_auth_valid auth ≡ true)
    → is_auth_pending auth ≡ false
    → is_auth_valid auth ≡ true
not_pending auth (inl pending) q = cc
not_pending auth (inr valid) q = valid

module _ {C : Crates} {P : Persist C} {N : String → Type 0}
    {Serves : AcmeKey C → String → Json → Type 0} (server : IsResponsive C N Serves)
    (I : C.Net → Type 0) (kept : IsKept C I) (fuel : ℕ) where
  poll_auth-Fine :
      (inner : AccountInner C) (kid auth_url : String) (delay_millis : ℕ)
      → inner.transport.acme_key.key_id ≡ some kid
      → Serves inner.transport.acme_key auth_url empty_string_json
      → Shows C I auth_url (IsOpenAuth C)
      → Fine {P = P} N
          (λ w. I w.net)
          (Next (λ w. I w.net) (λ auth w. IsValid auth × I w.net))
          (poll_auth fuel inner auth_url delay_millis)
  unfolding poll_auth
  poll_auth-Fine inner kid auth_url delay_millis e serves h =
      Fine-then _
        (call-Shows server I kept (IsOpenAuth C) inner.transport kid auth_url empty_string_json fuel
          e serves h)
        λ res (a, read, status). Fine-then _ (Fine-known _ read) λ auth same.
          Fine-wait_if I (is_auth_pending auth) delay_millis auth (λ w i pending. i)
            (λ w i done. (not_pending auth (subst IsOpen same status) done, i))

  -- A validation on servers that have a challenge, and an authorization that is pending or valid.
  pub validate-Fine :
      {A : Marker} (c : Challenge C A) (kid : String) (delay_millis : ℕ)
      → c.inner.transport.acme_key.key_id ≡ some kid
      → Serves c.inner.transport.acme_key c.api_challenge.url empty_object_json
      → Serves c.inner.transport.acme_key c.auth_url empty_string_json
      → Shows C I c.api_challenge.url (IsChallenge C)
      → Shows C I c.auth_url (IsOpenAuth C)
      → Fine {P = P} N (λ w. I w.net) (λ u w. I w.net) (validate fuel c delay_millis)
  unfolding validate wait_for_auth_status accept_if_valid
  validate-Fine c kid delay_millis e at_challenge at_auth challenge auth =
      Fine-then _
        (call-Shows server I kept (IsChallenge C) c.inner.transport kid c.api_challenge.url
          empty_object_json fuel e at_challenge challenge)
        λ res (x, read). Fine-then _ (Fine-known _ read) λ y same.
          Fine-then _
            (Fine-repeat fuel _ (poll_auth-Fine c.inner kid c.auth_url delay_millis e at_auth auth))
            λ auth valid. Fine-lift_at _ λ w i. rw valid i
