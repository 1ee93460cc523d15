-- ===== src/Acc.antt =====
-- Accounts: issued certificates, new orders and revocation (src/acc/mod.rs).
pub mod Key
pub mod Inner
pub mod Revocation
use acme_lib.Prelude.{ℕ, String, Option, none, some, List, [], ◌∷◌, map, Bytes}
use mathlib.Core.Option
use acme_lib.Std.{from_utf8}
use acme_lib.Api.{ApiIdentifier, ApiOrder, ApiRevocation, order_json, revocation_json}
use acme_lib.Crates.{Crates}
use acme_lib.Outcome.{Outcome, or_problem, expect, ◌>>=ᵒ◌}
use acme_lib.Persist.{Persist, PersistKind, new_key}
use acme_lib.World.{Act, lift, pure, get, ◌>>=◌, ◌>>◌}
use acme_lib.Req.{req_expect_header, read_json, base64url}
use acme_lib.Trans.{call}
use acme_lib.Cert.{Certificate, certificate_der}
use acme_lib.Order.{Order, NewOrder, new_order_of}
use Inner.{AccountInner}
use Key.{key_to_pem}

pub record Account (C : Crates) : Type 0 where
  pub inner : AccountInner C

pub data RevocationReason : Type 0 where
  unspecified key_compromise ca_compromise affiliation_changed superseded : RevocationReason
  cessation_of_operation certificate_hold remove_from_crl : RevocationReason
  privilege_withdrawn aa_compromise : RevocationReason

-- `reason as usize`
unfoldable pub reason_code : RevocationReason → ℕ
reason_code unspecified = 0
reason_code key_compromise = 1
reason_code ca_compromise = 2
reason_code affiliation_changed = 3
reason_code superseded = 4
reason_code cessation_of_operation = 5
reason_code certificate_hold = 6
reason_code remove_from_crl = 8
reason_code privilege_withdrawn = 9
reason_code aa_compromise = 10

abbrev both : Option String → Option String → Option Certificate
both (some k) (some c) = some (record { private_key = k; certificate = c })
both _ _ = none

-- The order that `new_order` sends.
unfoldable pub order_request : String → List String → ApiOrder
order_request primary_name alt_names = record {
  status = none;
  expires = none;
  identifiers = map (λ s. record { type = "dns"; value = s }) (primary_name ∷ alt_names);
  not_before = none;
  not_after = none;
  error = none;
  authorizations = none;
  finalize = "";
  certificate = none;
}

module _ {C : Crates} (a : Account C) where
  unfoldable pub acme_private_key_pem : Outcome C String
  acme_private_key_pem =
      key_to_pem a.inner.transport.acme_key >>=ᵒ λ pem. expect "from_utf8" (from_utf8 pem)

module _ {C : Crates} {P : Persist C} (a : Account C) where
  -- `Account::certificate`
  unfoldable pub certificate : String → Act C P (Option Certificate)
  certificate primary_name = do
    let realm = a.inner.contact_email
    stored_key ← get (new_key C realm PersistKind.private_key primary_name)
    let private_key = Option.bind stored_key from_utf8
    stored_cert ← get (new_key C realm PersistKind.certificate primary_name)
    let cert = Option.bind stored_cert from_utf8
    pure (both private_key cert)

  -- `Account::new_order`
  unfoldable pub new_order : ℕ → String → List String → Act C P (NewOrder C)
  new_order fuel primary_name alt_names = do
    res ←
        call a.inner.transport a.inner.api_directory.new_order
          (order_json (order_request primary_name alt_names)) fuel
    order_url ← lift (or_problem (req_expect_header C res "location"))
    api_order ← lift (read_json C C.order_from_str res)
    pure (new_order_of a.inner api_order order_url)

  -- `Account::revoke_certificate`
  unfoldable pub revoke_certificate : ℕ → Certificate → RevocationReason → Act C P Unit
  revoke_certificate fuel cert reason = do
    der ← lift (certificate_der C cert)
    let revoc : ApiRevocation = record {
      certificate = base64url C der;
      reason = reason_code reason;
    }
    call a.inner.transport a.inner.api_directory.revoke_cert (revocation_json revoc) fuel
    pure tt
