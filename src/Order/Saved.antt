-- ===== src/Order/Saved.antt =====
-- On `download_and_save_cert` of src/order/mod.rs and `Account::certificate` of src/acc/mod.rs.
use mathlib.Core.Option
use mathlib.Core.Option.{some-injective}
use acme_lib.Prelude.{ℕ, ◌≡◌, refl, sym, ap, ◌∙◌, String, some, Bytes}
use acme_lib.Std.{as_bytes, from_utf8, from_utf8_lossy}
use acme_lib.Std.RoundTrip.{from_utf8-as_bytes, from_utf8_lossy-agrees}
use acme_lib.Api.{domains, empty_string_json}
use acme_lib.Crates.{Crates}
use acme_lib.Outcome.{ok, ok-injective, expect-eq-ok}
use acme_lib.Persist.{Persist, PersistKey, PersistKind, new_key}
use acme_lib.Persist.Lawful.{IsLawful, get_same, get_other}
use acme_lib.Persist.Naming.{private_key-ne-certificate}
use acme_lib.World.{World, get, put, ◌>>=◌}
use acme_lib.World.Values.{bind-then-ok, lift-then-ok, pure-ok, pure-world}
use acme_lib.Trans.{call}
use acme_lib.Cert.{Certificate}
use acme_lib.Acc.{Account, certificate}
use acme_lib.Order.{CertOrder, first_domain, download_and_save_cert}

-- PEM is text: a law of openssl's.
abbrev pub PemIsText : Crates → Type 0
PemIsText C =
    (k : C.PrivateKey) (pem : Bytes)
    → C.private_key_to_pem_pkcs8 k ≡ some pem
    → (key : String) × (pem ≡ as_bytes key)

module _ {C : Crates} (P : Persist C) {IsKeyText : String → Type 0}
    (lawful : IsLawful P IsKeyText) where
  -- A private key and then a certificate, put in under one name, are loaded.
  certificate_after_puts :
      (a : Account C) (name : String) (pem : Bytes) (cert key : String) (w v : World C P)
      → IsKeyText name
      → from_utf8 pem ≡ some key
      → (P.put (new_key C a.inner.contact_email PersistKind.private_key name) pem w.store).0 ≡ ok tt
      → (P.put
          (new_key C a.inner.contact_email PersistKind.certificate name)
          (as_bytes cert)
          (P.put (new_key C a.inner.contact_email PersistKind.private_key name) pem w.store).1).0
        ≡ ok tt
      → v.store
        ≡ (P.put
            (new_key C a.inner.contact_email PersistKind.certificate name)
            (as_bytes cert)
            (P.put (new_key C a.inner.contact_email PersistKind.private_key name) pem w.store).1).1
      → (certificate a name v).0 ≡ ok (some (record { private_key = key; certificate = cert }))
  unfolding certificate get ◌>>=◌ Option.bind
  certificate_after_puts a name pem cert key w v proper utf8 put1 put2 saved = rw got_key (
      rw (lawful.get_keeps pkey v.store)
        (rw got_cert (rw utf8 (rw (from_utf8-as_bytes cert) refl))))
    where
      pkey : PersistKey
      pkey = new_key C a.inner.contact_email PersistKind.private_key name

      crt : PersistKey
      crt = new_key C a.inner.contact_email PersistKind.certificate name

      got_cert : (P.get crt v.store).0 ≡ ok (some (as_bytes cert))
      got_cert =
          rw saved (get_same P lawful crt (as_bytes cert) (P.put pkey pem w.store).1 proper put2)

      got_key : (P.get pkey v.store).0 ≡ ok (some pem)
      got_key = rw saved (
          get_other P lawful crt pkey (as_bytes cert) (P.put pkey pem w.store).1 proper proper put2
            (λ e. private_key-ne-certificate pkey crt refl refl (sym e))
          ∙ get_same P lawful pkey pem w.store proper put1)

  -- What a successful download leaves.
  saved_by_download :
      (fuel : ℕ) (o : CertOrder C) (w : World C P) (saved : Certificate)
      → (download_and_save_cert fuel o w).0 ≡ ok saved
      → (name : String) × (pem : Bytes) × (w1 : World C P) × (first_domain {C = C}
            (domains o.order.api_order)
          ≡ ok name)
        × (C.private_key_to_pem_pkcs8 o.private_key ≡ some pem)
        × (saved.private_key ≡ from_utf8_lossy pem)
        × ((P.put
              (new_key C o.order.inner.contact_email PersistKind.private_key name)
              pem
              w1.store).0
            ≡ ok tt)
        × ((P.put
              (new_key C o.order.inner.contact_email PersistKind.certificate name)
              (as_bytes saved.certificate)
              (P.put
                (new_key C o.order.inner.contact_email PersistKind.private_key name)
                pem
                w1.store).1).0
            ≡ ok tt)
        × ((download_and_save_cert fuel o w).1.store
            ≡ (P.put
                (new_key C o.order.inner.contact_email PersistKind.certificate name)
                (as_bytes saved.certificate)
                (P.put
                  (new_key C o.order.inner.contact_email PersistKind.private_key name)
                  pem
                  w1.store).1).1)
  unfolding download_and_save_cert put
  saved_by_download fuel o w saved h =
      let (name, e1, p1, h1) = lift-then-ok _ _ w h in
      let (url, e2, p2, h2) = lift-then-ok _ _ w h1 in
      let (res, e3, p3, h3) = bind-then-ok _ _ w h2 in
      let (pem, e4, p4, h4) = lift-then-ok _ _ _ h3 in
      let (u, e5, p5, h5) = bind-then-ok _ _ _ h4 in
      let (cert, e6, p6, h6) = lift-then-ok _ _ _ h5 in
      let (v, e7, p7, h7) = bind-then-ok _ _ _ h6 in
      let e = sym (pure-ok _ _ h7) in
      let w1 = (call o.order.inner.transport url empty_string_json fuel w).1 in
      (
        name,
        pem,
        w1,
        e1,
        expect-eq-ok "to_pem" (C.private_key_to_pem_pkcs8 o.private_key) e4,
        ap (λ c. c.private_key) e,
        e5,
        ap
              (λ (c : Certificate).
                (P.put (crt_of name) (as_bytes c.certificate)
                  (P.put (new_key C o.order.inner.contact_email PersistKind.private_key name) pem
                    w1.store).1).0)
              e
            ∙ e7,
        ap (λ r. r.1.store) (p1 ∙ p2 ∙ p3 ∙ p4 ∙ p5 ∙ p6 ∙ p7)
            ∙ ap (λ x. x.store) (pure-world _ _)
            ∙ ap
                (λ (c : Certificate).
                  (P.put (crt_of name) (as_bytes c.certificate)
                    (P.put (new_key C o.order.inner.contact_email PersistKind.private_key name) pem
                      w1.store).1).1)
                (sym e),
      )
    where
      crt_of : String → PersistKey
      crt_of name = new_key C o.order.inner.contact_email PersistKind.certificate name

  -- If a download ends well, the key is UTF-8 in PEM, and the name is the first of the order and of the
  -- kind that the persistence tells apart, then the
  -- account of the order's contact loads under the name the certificate that the download returned.
  pub certificate-download_and_save_cert :
      (fuel : ℕ) (o : CertOrder C) (a : Account C) (w : World C P) (saved : Certificate)
      (name key : String)
      → IsKeyText name
      → a.inner.contact_email ≡ o.order.inner.contact_email
      → first_domain {C = C} (domains o.order.api_order) ≡ ok name
      → C.private_key_to_pem_pkcs8 o.private_key ≡ some (as_bytes key)
      → (download_and_save_cert fuel o w).0 ≡ ok saved
      → (certificate a name (download_and_save_cert fuel o w).1).0 ≡ ok (some saved)
  certificate-download_and_save_cert fuel o a w saved name key proper same first utf8 h =
      let (n, pem, w1, e1, e2, e3, put1, put2, e4) = saved_by_download fuel o w saved h in
      let names : n ≡ name = ok-injective (sym e1 ∙ first) in
      let pems : pem ≡ as_bytes key = some-injective _ _ (sym e2 ∙ utf8) in
      let keys : key ≡ saved.private_key =
        sym (from_utf8_lossy-agrees (as_bytes key) key (from_utf8-as_bytes key))
        ∙ sym (ap from_utf8_lossy pems)
        ∙ sym e3 in
      certificate_after_puts a name (as_bytes key) saved.certificate key w1
        (download_and_save_cert fuel o w).1 proper (from_utf8-as_bytes key)
        (rw (sym names) (rw (sym pems) (rw same put1)))
        (rw (sym names) (rw (sym pems) (rw same put2))) (e4 ∙ rw names (rw pems (rw same refl)))
      ∙ ap (λ k. ok (some (record { private_key = k; certificate = saved.certificate }))) keys

  -- Whatever the name is, the download is loaded under the first name of the order.
  pub loads_after_download :
      (fuel : ℕ) (o : CertOrder C) (a : Account C) (w : World C P) (saved : Certificate)
      → ((name : String) → IsKeyText name)
      → PemIsText C
      → a.inner.contact_email ≡ o.order.inner.contact_email
      → (download_and_save_cert fuel o w).0 ≡ ok saved
      → (name : String) × (first_domain {C = C} (domains o.order.api_order) ≡ ok name)
        × ((certificate a name (download_and_save_cert fuel o w).1).0 ≡ ok (some saved))
  loads_after_download fuel o a w saved proper pem_is_text same h =
      let (name, pem, w1, e1, e2, e3, put1, put2, e4) = saved_by_download fuel o w saved h in
      let (key, text) = pem_is_text o.private_key pem e2 in
      (
        name,
        e1,
        certificate-download_and_save_cert fuel o a w saved name key (proper name) same e1
            (e2 ∙ ap some text) h,
      )
