-- ===== src/Api/Order.antt =====
-- `ApiOrder`, `ApiFinalize` and `ApiRevocation` of src/api.rs.
use acme_lib.Prelude.{ℕ, String, Bool, Option, List, map}
use acme_lib.Api.Problem.{ApiProblem, ApiIdentifier}
use acme_lib.Api.Account.{is_status}

pub record ApiOrder : Type 0 where
  pub status : Option String
  pub expires : Option String
  pub identifiers : List ApiIdentifier
  pub not_before : Option String
  pub not_after : Option String
  pub error : Option ApiProblem
  pub authorizations : Option (List String)
  pub finalize : String
  pub certificate : Option String

module _ (o : ApiOrder) where
  unfoldable pub is_status_pending : Bool
  is_status_pending = is_status "pending" o.status

  unfoldable pub is_status_ready : Bool
  is_status_ready = is_status "ready" o.status

  unfoldable pub is_status_processing : Bool
  is_status_processing = is_status "processing" o.status

  unfoldable pub is_status_valid : Bool
  is_status_valid = is_status "valid" o.status

  unfoldable pub is_status_invalid : Bool
  is_status_invalid = is_status "invalid" o.status

  unfoldable pub domains : List String
  domains = map (λ i. i.value) o.identifiers

pub record ApiFinalize : Type 0 where
  pub csr : String

pub record ApiRevocation : Type 0 where
  pub certificate : String
  pub reason : ℕ
