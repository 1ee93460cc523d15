-- ===== src/Client/Downloaded.antt =====
-- On what `CertOrder::download_and_save_cert` of src/order/mod.rs returns.
use acme_lib.Prelude.{inl}
use acme_lib.Prelude.{◌⊎◌}
use acme_lib.Prelude.{ℕ, ◌≡◌, ap, sym, subst, ◌∙◌, String, some, Bytes, List, inr}
use acme_lib.Std.{from_utf8_lossy}
use acme_lib.Api.{empty_string_json}
use acme_lib.Crates.{Crates}
use acme_lib.Outcome.{ok, or_io, expect-eq-ok, ok-injective}
use acme_lib.Persist.{Persist}
use acme_lib.World.{World, Event, pure, put}
use acme_lib.World.Values.{bind-then-ok, lift-then-ok}
use acme_lib.Cert.{Certificate}
use acme_lib.Order.{CertOrder, download_and_save_cert}
use acme_lib.Client.Payloads.{Carried, call-Carried}

module _ {C : Crates} where
  -- The newest event is an answer from the order's URL for its certificate, to a request signed in the name of
  -- the order's account; the certificate is the text of that answer, and the private key that of the order, in
  -- PEM.
  abbrev pub Downloaded : CertOrder C → Certificate → List (Event C) → Type 0
  Downloaded o saved trace =
      (url : String) × (res : C.Response) × (pem : Bytes) × (o.order.api_order.certificate
        ≡ some url)
      × Carried o.order.inner.transport url empty_string_json res trace
      × (C.into_string res ≡ inr saved.certificate)
      × (C.private_key_to_pem_pkcs8 o.private_key ≡ some pem)
      × (saved.private_key ≡ from_utf8_lossy pem)

  or_io-eq-ok : {A : Type 0} (o : C.IoError ⊎ A) {a : A} → or_io {C = C} o ≡ ok a → o ≡ inr a
  or_io-eq-ok (inl e) h = cc
  or_io-eq-ok (inr x) h = ap inr (ok-injective {C = C} h)

module _ {C : Crates} {P : Persist C} where
  pub download_and_save_cert-Downloaded :
      (fuel : ℕ) (o : CertOrder C) (w : World C P) (saved : Certificate)
      → (download_and_save_cert fuel o w).0 ≡ ok saved
      → Downloaded o saved (download_and_save_cert fuel o w).1.trace
  unfolding download_and_save_cert pure put
  download_and_save_cert-Downloaded fuel o w saved h =
      let (name, e1, p1, h1) = lift-then-ok _ _ w h in
      let (url, e2, p2, h2) = lift-then-ok _ _ w h1 in
      let (res, e3, p3, h3) = bind-then-ok _ _ w h2 in
      let (pem, e4, p4, h4) = lift-then-ok _ _ _ h3 in
      let (u, e5, p5, h5) = bind-then-ok _ _ _ h4 in
      let (cert, e6, p6, h6) = lift-then-ok _ _ _ h5 in
      let (v, e7, p7, h7) = bind-then-ok _ _ _ h6 in
      let same : record { private_key = from_utf8_lossy pem; certificate = cert } ≡ saved =
        ok-injective {C = C} h7 in
      (
        url,
        res,
        pem,
        expect-eq-ok "certificate url" _ e2,
        subst (λ l. Carried o.order.inner.transport url empty_string_json res l)
            (sym (ap (λ r. r.1.trace) (p1 ∙ p2 ∙ p3 ∙ p4 ∙ p5 ∙ p6 ∙ p7)))
            (call-Carried o.order.inner.transport url empty_string_json fuel w res e3),
        or_io-eq-ok _ e6 ∙ ap (λ (c : Certificate). inr c.certificate) same,
        expect-eq-ok "to_pem" _ e4,
        ap (λ (c : Certificate). c.private_key) (sym same),
      )
