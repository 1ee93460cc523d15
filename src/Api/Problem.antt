-- ===== src/Api/Problem.antt =====
-- `ApiIdentifier`, `ApiSubproblem` and `ApiProblem` of src/api.rs.
use acme_lib.Prelude.{String, ◌<>◌, Bool, false, ◌&&◌, Option, none, some, List, ◌==◌}

pub record ApiIdentifier : Type 0 where
  pub type : String
  pub value : String

unfoldable pub is_type_dns : ApiIdentifier → Bool
is_type_dns i = i.type == "dns"

pub record ApiSubproblem : Type 0 where
  pub type : String
  pub detail : Option String
  pub identifier : Option ApiIdentifier

pub record ApiProblem : Type 0 where
  pub type : String
  pub detail : Option String
  pub subproblems : Option (List ApiSubproblem)

unfoldable pub is_bad_nonce : ApiProblem → Bool
is_bad_nonce p = p.type == "badNonce"

-- `self.detail.as_ref().map(|s| s == …).unwrap_or(false)`
abbrev pub detail_is : String → Option String → Bool
detail_is text none = false
detail_is text (some s) = s == text

unfoldable pub is_jwt_verification_error : ApiProblem → Bool
is_jwt_verification_error p =
    p.type == "urn:acme:error:malformed" && detail_is "JWS verification error" p.detail

abbrev with_detail : String → Option String → String
with_detail type none = type
with_detail type (some detail) = type <> ": " <> detail

-- The `Display` of a problem.
unfoldable pub problem_display : ApiProblem → String
problem_display p = with_detail p.type p.detail
