-- ===== src/Api/Account.antt =====
-- `ApiDirectory`, `ApiDirectoryMeta` and `ApiAccount` of src/api.rs.
use acme_lib.Prelude.{String, Bool, false, Option, none, some, List, ◌==◌, unwrap_or}

pub record ApiDirectoryMeta : Type 0 where
  pub terms_of_service : Option String
  pub website : Option String
  pub caa_identities : Option (List String)
  pub external_account_required : Option Bool

-- The method `externalAccountRequired`.
unfoldable pub is_external_account_required : ApiDirectoryMeta → Bool
is_external_account_required m = unwrap_or m.external_account_required false

pub record ApiDirectory : Type 0 where
  pub new_nonce : String
  pub new_account : String
  pub new_order : String
  pub new_authz : Option String
  pub revoke_cert : String
  pub key_change : String
  pub meta : Option ApiDirectoryMeta

pub record ApiAccount : Type 0 where
  pub status : Option String
  pub contact : List String
  pub terms_of_service_agreed : Option Bool
  pub orders : Option String

-- `self.status.as_ref().map(|s| s.as_ref()) == Some(…)`
unfoldable pub is_status : String → Option String → Bool
is_status want none = false
is_status want (some s) = s == want

module _ (a : ApiAccount) where
  unfoldable pub is_account_valid : Bool
  unfolding is_status
  is_account_valid = is_status "valid" a.status

  unfoldable pub is_account_deactivated : Bool
  unfolding is_status
  is_account_deactivated = is_status "deactivated" a.status

  unfoldable pub is_account_revoked : Bool
  unfolding is_status
  is_account_revoked = is_status "revoked" a.status

  -- The method `termsOfServiceAgreed`.
  unfoldable pub has_agreed_terms : Bool
  has_agreed_terms = unwrap_or a.terms_of_service_agreed false
