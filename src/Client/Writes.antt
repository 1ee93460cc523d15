-- ===== src/Client/Writes.antt =====
-- Invariants of the steps for the methods that write to the persistence: `account` of src/dir.rs and
-- `download_and_save_cert` of src/order/mod.rs.
use acme_lib.Trans.{set_key_id, new_transport, Transport}
use acme_lib.Client.Frame.{Basics, quiet_of, call-Keeps, call_jwk-Keeps, key_or_new-Keeps}
use acme_lib.Prelude.{ℕ, String, Bool, true, false, Bytes}
use acme_lib.Std.{as_bytes}
use acme_lib.Api.{domains, empty_string_json}
use acme_lib.Outcome.{expect, or_io}
use acme_lib.Crates.{Crates}
use acme_lib.Persist.{Persist, PersistKey, PersistKind, new_key}
use acme_lib.World.{World}
use acme_lib.World.Keeps.{Keeps, Keeps-lift, Keeps-pure, Keeps-bind}
use acme_lib.Dir.{Directory, account, save_if_new}
use acme_lib.Order.{first_domain, download_and_save_cert, CertOrder}

module _ {C : Crates} {P : Persist C} {I : World C P → Type 0} (B : Basics I) where
  open B use {basic_load, basic_store}

  save_if_new-Keeps : (k : PersistKey) (t : Transport C) (b : Bool) → Keeps I (save_if_new k t b)
  save_if_new-Keeps k t false = Keeps-pure _
  save_if_new-Keeps k t true = Keeps-bind (Keeps-lift _) λ pem. basic_store k pem

  pub account-Keeps : (fuel : ℕ) (d : Directory) (email : String) → Keeps I (account fuel d email)
  unfolding account
  account-Keeps fuel d email = Keeps-bind (basic_load _) λ pem.
      Keeps-bind (key_or_new-Keeps (quiet_of B) pem) λ found.
        Keeps-bind (call_jwk-Keeps (quiet_of B) _ _ _ fuel) λ res. Keeps-bind (Keeps-lift _) λ kid.
          Keeps-bind (Keeps-lift _) λ api.
            Keeps-bind (save_if_new-Keeps _ (set_key_id (new_transport d.nonce_pool found.0) kid) _)
              λ saved. Keeps-pure _

  pub download_and_save_cert-Keeps :
      (fuel : ℕ) (o : CertOrder C) → Keeps I (download_and_save_cert fuel o)
  unfolding download_and_save_cert
  download_and_save_cert-Keeps fuel o =
      Keeps-bind {A = String} (Keeps-lift (first_domain (domains o.order.api_order))) λ name.
        Keeps-bind {A = String}
          (Keeps-lift (expect "certificate url" o.order.api_order.certificate))
          λ url.
            Keeps-bind (call-Keeps (quiet_of B) o.order.inner.transport url empty_string_json fuel)
              λ res. Keeps-bind {A = Bytes} (Keeps-lift _) λ pem.
                Keeps-bind (basic_store (key_at name PersistKind.private_key) pem) λ _.
                  Keeps-bind {A = String} (Keeps-lift (or_io (C.into_string res))) λ cert.
                    Keeps-bind (basic_store (key_at name PersistKind.certificate) (as_bytes cert))
                      λ _. Keeps-pure _
    where
      key_at : String → PersistKind → PersistKey
      key_at name kind = new_key C o.order.inner.contact_email kind name
