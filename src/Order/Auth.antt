-- ===== src/Order/Auth.antt =====
-- Authorizations and challenges (src/order/auth.rs).
use acme_lib.Prelude.{
  ℕ, String, ◌<>◌, Bool, true, false, not, Option, none, some, List, [], ◌∷◌, if◌then◌else◌,
  unwrap_or,
}
use acme_lib.Std.{as_bytes}
use acme_lib.Api.{
  ApiProblem, ApiAuth, ApiChallenge, is_auth_valid, is_auth_pending, is_challenge_pending,
  find_http_challenge, find_dns_challenge, empty_object_json, empty_string_json,
}
use acme_lib.Crates.{Crates}
use acme_lib.Outcome.{Outcome, ok, err, other, expect_ok, expect, map_ok, ◌>>=ᵒ◌}
use acme_lib.Persist.{Persist}
use acme_lib.World.{Act, lift, repeat, wait_if, ◌>>=◌, ◌>>◌}
use acme_lib.Req.{read_json, base64url}
use acme_lib.Acc.Key.{AcmeKey}
use acme_lib.Jwt.{jwk_of, thumb_of, thumb_json}
use acme_lib.Trans.{call}
use acme_lib.Acc.Inner.{AccountInner}

pub record Auth (C : Crates) : Type 0 where
  pub inner : AccountInner C
  pub api_auth : ApiAuth
  pub auth_url : String

-- The marker types `Http` and `Dns`.
pub data Marker : Type 0 where
  http dns : Marker

pub record Challenge (C : Crates) (A : Marker) : Type 0 where
  pub inner : AccountInner C
  pub api_challenge : ApiChallenge
  pub auth_url : String

module _ {C : Crates} where
  module _ (a : Auth C) where
    unfoldable pub domain_name : String
    domain_name = a.api_auth.identifier.value

    unfoldable pub need_challenge : Bool
    need_challenge = not (is_auth_valid a.api_auth)

    abbrev pub challenge_of : {A : Marker} → ApiChallenge → Challenge C A
    challenge_of c = record { inner = a.inner; api_challenge = c; auth_url = a.auth_url }

    -- `Auth::http_challenge`
    unfoldable pub http_challenge : Outcome C (Challenge C http)
    http_challenge = map_ok challenge_of (expect "http-challenge" (find_http_challenge a.api_auth))

    -- `Auth::dns_challenge`
    unfoldable pub dns_challenge : Outcome C (Challenge C dns)
    dns_challenge = map_ok challenge_of (expect "dns-challenge" (find_dns_challenge a.api_auth))

  -- `key_authorization`
  unfoldable pub key_authorization : String → AcmeKey C → Bool → Outcome C String
  key_authorization token key extra_sha256 = jwk_of C key >>=ᵒ λ jwk.
      expect_ok "jwk_thumb" (C.to_string (thumb_json (thumb_of jwk))) >>=ᵒ λ jwk_json.
      let key_auth = token <> "." <> base64url C (C.sha256 (as_bytes jwk_json)) in
      if extra_sha256 then ok (base64url C (C.sha256 (as_bytes key_auth))) else ok key_auth

  unfoldable pub http_token : Challenge C http → String
  http_token c = c.api_challenge.token

  unfoldable pub http_proof : Challenge C http → Outcome C String
  http_proof c = key_authorization c.api_challenge.token c.inner.transport.acme_key false

  unfoldable pub dns_proof : Challenge C dns → Outcome C String
  dns_proof c = key_authorization c.api_challenge.token c.inner.transport.acme_key true

  unfoldable pub need_validate : {A : Marker} → Challenge C A → Bool
  need_validate c = is_challenge_pending c.api_challenge

-- `challenges.iter().filter_map(|c| c.error.as_ref()).nth(0)`
abbrev pub first_error : List ApiChallenge → Option ApiProblem
first_error [] = none
first_error (c ∷ cs) = elim c.error [ some e ↦ some e | none ↦ first_error cs ]

abbrev pub reason_of : Option ApiProblem → String
reason_of (some error) = "Failed: " <> unwrap_or error.detail error.type
reason_of none = "Validation failed and no error found"

-- The end of `validate`, on the authorization that the wait gave.
unfoldable pub accept_if_valid : {C : Crates} → ApiAuth → Outcome C Unit
accept_if_valid auth =
    if is_auth_valid auth then ok tt else err (other (reason_of (first_error auth.challenges)))

module _ {C : Crates} {P : Persist C} (fuel : ℕ) where
  -- One round of `wait_for_auth_status`.
  unfoldable pub poll_auth : AccountInner C → String → ℕ → Act C P (Option ApiAuth)
  poll_auth inner auth_url delay_millis = do
    res ← call inner.transport auth_url empty_string_json fuel
    auth ← lift (read_json C C.auth_from_str res)
    wait_if (is_auth_pending auth) delay_millis auth

  unfoldable pub wait_for_auth_status : AccountInner C → String → ℕ → Act C P ApiAuth
  wait_for_auth_status inner auth_url delay_millis =
      repeat fuel (poll_auth inner auth_url delay_millis)

  -- `Challenge::validate`
  unfoldable pub validate : {A : Marker} → Challenge C A → ℕ → Act C P Unit
  validate c delay_millis = do
    res ← call c.inner.transport c.api_challenge.url empty_object_json fuel
    lift (read_json C C.challenge_from_str res)
    auth ← wait_for_auth_status c.inner c.auth_url delay_millis
    lift (accept_if_valid auth)
