-- ===== src/Api/Auth.antt =====
-- `ApiAuth` and `ApiChallenge` of src/api.rs.
use acme_lib.Prelude.{String, Bool, false, Option, List, ◌==◌, find, unwrap_or}
use acme_lib.Api.Problem.{ApiProblem, ApiIdentifier}
use acme_lib.Api.Account.{is_status}

pub record ApiChallenge : Type 0 where
  pub url : String
  pub type : String
  pub status : String
  pub token : String
  pub validated : Option String
  pub error : Option ApiProblem

module _ (c : ApiChallenge) where
  unfoldable pub is_challenge_pending : Bool
  is_challenge_pending = c.status == "pending"

  unfoldable pub is_challenge_processing : Bool
  is_challenge_processing = c.status == "processing"

  unfoldable pub is_challenge_valid : Bool
  is_challenge_valid = c.status == "valid"

  unfoldable pub is_challenge_invalid : Bool
  is_challenge_invalid = c.status == "invalid"

pub record ApiAuth : Type 0 where
  pub identifier : ApiIdentifier
  pub status : Option String
  pub expires : Option String
  pub challenges : List ApiChallenge
  pub wildcard : Option Bool

module _ (a : ApiAuth) where
  unfoldable pub is_auth_pending : Bool
  is_auth_pending = is_status "pending" a.status

  unfoldable pub is_auth_valid : Bool
  is_auth_valid = is_status "valid" a.status

  unfoldable pub is_auth_invalid : Bool
  is_auth_invalid = is_status "invalid" a.status

  unfoldable pub is_auth_deactivated : Bool
  is_auth_deactivated = is_status "deactivated" a.status

  unfoldable pub is_auth_expired : Bool
  is_auth_expired = is_status "expired" a.status

  unfoldable pub is_auth_revoked : Bool
  is_auth_revoked = is_status "revoked" a.status

  -- The method `wildcard`.
  unfoldable pub is_wildcard : Bool
  is_wildcard = unwrap_or a.wildcard false

  unfoldable pub find_http_challenge : Option ApiChallenge
  find_http_challenge = find (λ c. c.type == "http-01") a.challenges

  unfoldable pub find_dns_challenge : Option ApiChallenge
  find_dns_challenge = find (λ c. c.type == "dns-01") a.challenges

  unfoldable pub find_tls_alpn_challenge : Option ApiChallenge
  find_tls_alpn_challenge = find (λ c. c.type == "tls-alpn-01") a.challenges
