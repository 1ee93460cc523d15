-- ===== src/Order.antt =====
-- The life cycle of an order (src/order/mod.rs).
pub mod Auth
pub mod Saved
pub mod Results
pub mod Verdict
pub mod Proofs
pub mod Typed
use acme_lib.Prelude.{
  ℕ, String, ◌<>◌, Bool, true, false, ◌||◌, Option, none, some, List, [], ◌∷◌, if◌then◌else◌, Bytes,
}
use acme_lib.Std.{as_bytes, from_utf8_lossy}
use acme_lib.Api.{
  ApiOrder, ApiAuth, ApiFinalize, is_status_ready, is_status_valid, is_status_processing, domains,
  empty_string_json, finalize_json,
}
use acme_lib.Crates.{Crates}
use acme_lib.Outcome.{Outcome, ok, err, other, or_other, or_io, expect}
use acme_lib.Persist.{Persist, PersistKind, new_key}
use acme_lib.World.{Act, lift, pure, put, repeat, wait_if, ◌>>=◌, ◌>>◌}
use acme_lib.Req.{read_json, base64url}
use acme_lib.Trans.{call}
use acme_lib.Acc.Inner.{AccountInner}
use acme_lib.Cert.{Certificate, create_csr}

pub record Order (C : Crates) : Type 0 where
  pub inner : AccountInner C
  pub api_order : ApiOrder
  pub url : String

pub record NewOrder (C : Crates) : Type 0 where
  pub order : Order C

pub record CsrOrder (C : Crates) : Type 0 where
  pub order : Order C

pub record CertOrder (C : Crates) : Type 0 where
  pub private_key : C.PrivateKey
  pub order : Order C

abbrev pub new_order_of : {C : Crates} → AccountInner C → ApiOrder → String → NewOrder C
new_order_of inner api_order url = record {
  order = record { inner = inner; api_order = api_order; url = url };
}

-- `{:?}` of an `Option<String>`
abbrev debug_status : Crates → Option String → String
debug_status C none = "None"
debug_status C (some s) = "Some(" <> C.debug_str s <> ")"

abbrev pub first_domain : {C : Crates} → List String → Outcome C String
first_domain [] = Outcome.panic "index out of bounds"
first_domain (d ∷ ds) = ok d

module _ {C : Crates} where
  module _ (o : NewOrder C) where
    -- `NewOrder::is_validated`
    unfoldable pub is_validated : Bool
    is_validated = is_status_ready o.order.api_order || is_status_valid o.order.api_order

    -- `NewOrder::confirm_validations`
    unfoldable pub confirm_validations : Option (CsrOrder C)
    unfolding is_validated
    confirm_validations = if is_validated then some (record { order = o.order }) else none

  -- The last test of `finalize_pkey`.
  unfoldable pub cert_order_if_valid : C.PrivateKey → Order C → Outcome C (CertOrder C)
  cert_order_if_valid private_key order =
      if is_status_valid order.api_order
      then ok (record { private_key = private_key; order = order })
      else err (other ("Order is in status: " <> debug_status C order.api_order.status))

module _ {C : Crates} {P : Persist C} (fuel : ℕ) where
  unfoldable pub refresh_order : AccountInner C → String → Act C P (Order C)
  refresh_order inner url = do
    res ← call inner.transport url empty_string_json fuel
    api_order ← lift (read_json C C.order_from_str res)
    pure (record { inner = inner; api_order = api_order; url = url })

  -- `NewOrder::refresh`; the order that it replaces is returned anew.
  unfoldable pub refresh : NewOrder C → Act C P (NewOrder C)
  refresh o = do order ← refresh_order o.order.inner o.order.url; pure (record { order = order })

  unfoldable pub authorizations_of : AccountInner C → List String → Act C P (List (Auth.Auth C))
  authorizations_of inner [] = pure []
  authorizations_of inner (auth_url ∷ urls) = do
    res ← call inner.transport auth_url empty_string_json fuel
    api_auth ← lift (read_json C C.auth_from_str res)
    rest ← authorizations_of inner urls
    pure (record { inner = inner; api_auth = api_auth; auth_url = auth_url } ∷ rest)

  abbrev pub authorizations_if :
      AccountInner C → Option (List String) → Act C P (List (Auth.Auth C))
  authorizations_if inner none = pure []
  authorizations_if inner (some urls) = authorizations_of inner urls

  -- `NewOrder::authorizations`
  unfoldable pub authorizations : NewOrder C → Act C P (List (Auth.Auth C))
  authorizations o = authorizations_if o.order.inner o.order.api_order.authorizations

  -- One round of `wait_for_order_status`.
  unfoldable pub poll_order : AccountInner C → String → ℕ → Act C P (Option (Order C))
  poll_order inner url delay_millis = do
    order ← refresh_order inner url
    wait_if (is_status_processing order.api_order) delay_millis order

  unfoldable pub wait_for_order_status : AccountInner C → String → ℕ → Act C P (Order C)
  wait_for_order_status inner url delay_millis = repeat fuel (poll_order inner url delay_millis)

  -- `CsrOrder::finalize_pkey`
  unfoldable pub finalize_pkey : CsrOrder C → C.PrivateKey → C.PublicKey → ℕ → Act C P (CertOrder C)
  finalize_pkey o private_key public_key delay_millis = do
    let inner = o.order.inner
    csr ← create_csr private_key public_key (domains o.order.api_order)
    csr_der ← lift (expect "to_der()" (C.req_to_der csr))
    let body : ApiFinalize = record { csr = base64url C csr_der }
    call inner.transport o.order.api_order.finalize (finalize_json body) fuel
    order ← wait_for_order_status inner o.order.url delay_millis
    lift (cert_order_if_valid private_key order)

  -- `CsrOrder::finalize`
  unfoldable pub finalize : CsrOrder C → String → String → ℕ → Act C P (CertOrder C)
  finalize o private_key_pem public_key_pem delay_millis = do
    pkey_pri ← lift (
        or_other (λ e. "Error reading private key PEM: " <> C.ssl_error_display e)
          (C.private_key_from_pem (as_bytes private_key_pem)))
    pkey_pub ← lift (
        or_other (λ e. "Error reading public key PEM: " <> C.ssl_error_display e)
          (C.public_key_from_pem (as_bytes public_key_pem)))
    finalize_pkey o pkey_pri pkey_pub delay_millis

  -- `CertOrder::download_and_save_cert`
  unfoldable pub download_and_save_cert : CertOrder C → Act C P Certificate
  download_and_save_cert o = do
    primary_name ← lift (first_domain (domains o.order.api_order))
    url ← lift (expect "certificate url" o.order.api_order.certificate)
    let inner = o.order.inner
    let realm = inner.contact_email
    res ← call inner.transport url empty_string_json fuel
    pkey_pem_bytes ← lift (expect "to_pem" (C.private_key_to_pem_pkcs8 o.private_key))
    put (new_key C realm PersistKind.private_key primary_name) pkey_pem_bytes
    cert ← lift (or_io (C.into_string res))
    put (new_key C realm PersistKind.certificate primary_name) (as_bytes cert)
    pure (record { private_key = from_utf8_lossy pkey_pem_bytes; certificate = cert })
