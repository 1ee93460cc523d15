-- ===== src/Client/Payloads.antt =====
-- On what the last request of a method says: `Transport::call` of src/trans.rs and
-- `Account::revoke_certificate` of src/acc/mod.rs.
use acme_lib.Prelude.{refl, ℕ, ◌≡◌, ap, sym, subst, ◌∙◌, String, true, List, [], ◌∷◌, ◌++◌, Bytes}
use acme_lib.Json.{Json}
use acme_lib.Crates.{Crates}
use acme_lib.Outcome.{ok}
use acme_lib.Persist.{Persist}
use acme_lib.World.{World, Event, exchange, pure}
use acme_lib.World.Values.{bind-then-ok, lift-then-ok}
use acme_lib.Req.{post_request, base64url}
use acme_lib.Trans.{Transport, call}
use acme_lib.Trans.Written.{WrittenFor}
use acme_lib.Api.{ApiRevocation, revocation_json}
use acme_lib.Cert.{Certificate, certificate_der}
use acme_lib.Acc.{Account, RevocationReason, reason_code, revoke_certificate}
use acme_lib.Client.Evidence.{call-Newest}

module _ {C : Crates} where
  -- The newest event is the response to the POST of the text.
  abbrev IsLast : String → String → C.Response → List (Event C) → Type 0
  IsLast url text res trace =
      (before : List (Event C)) × (trace ≡ exchange (post_request url text) res ∷ before)

  -- The newest event is the response to a POST, ok, whose body carries the payload in the name of the key's
  -- account.
  abbrev pub Carried : Transport C → String → Json → C.Response → List (Event C) → Type 0
  Carried t url payload res trace =
      (text : String) × WrittenFor C t.acme_key url payload text
      × IsLast url text res trace
      × (C.is_ok res ≡ true)

module _ {C : Crates} {P : Persist C} (t : Transport C) (url : String) (payload : Json) where
  pub call-Carried :
      (fuel : ℕ) (w : World C P) (res : C.Response)
      → (call t url payload fuel w).0 ≡ ok res
      → Carried t url payload res (call t url payload fuel w).1.trace
  call-Carried fuel w res e =
      let ((text, later, written, last), good) =
        (call-Newest w.trace t url payload fuel).at w res ([], refl) e in
      (text, written, (later ++ w.trace, last), good)

-- The object that a revocation sends: the certificate in DER, and the code of the reason.
abbrev pub revocation_of : (C : Crates) → Bytes → RevocationReason → ApiRevocation
revocation_of C der reason = record { certificate = base64url C der; reason = reason_code reason }

module _ {C : Crates} {P : Persist C} where
  -- A revocation that ends well has sent, as the last request of all, a POST to the directory's URL for
  -- revocations which was answered well, and whose body is signed by the account's key under a header with
  -- that URL and the account's, and carries the certificate in DER and the reason's code.
  pub revoke_certificate-Carried :
      (fuel : ℕ) (a : Account C) (cert : Certificate) (reason : RevocationReason) (w : World C P)
      → (revoke_certificate a fuel cert reason w).0 ≡ ok tt
      → (der : Bytes) × (res : C.Response) × (certificate_der C cert ≡ ok der)
        × Carried a.inner.transport a.inner.api_directory.revoke_cert
            (revocation_json (revocation_of C der reason))
            res
            (revoke_certificate a fuel cert reason w).1.trace
  unfolding revoke_certificate pure
  revoke_certificate-Carried fuel a cert reason w h =
      let (der, e1, p1, h1) = lift-then-ok _ _ w h in
      let (res, e2, p2, h2) = bind-then-ok _ _ _ h1 in
      let carried =
        call-Carried a.inner.transport a.inner.api_directory.revoke_cert
          (revocation_json (revocation_of C der reason)) fuel w res e2 in
      (
        der,
        res,
        e1,
        subst
            (λ l.
              Carried a.inner.transport a.inner.api_directory.revoke_cert
                (revocation_json (revocation_of C der reason)) res l)
            (sym (ap (λ r. r.1.trace) (p1 ∙ p2))) carried,
      )
