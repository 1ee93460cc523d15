-- ===== src/Client/Termination/Accounts.antt =====
-- Lemmas on fuel: directories and accounts (src/dir.rs, src/acc/mod.rs).
use acme_lib.Std.{as_bytes}
use acme_lib.Outcome.{expect, out_of_fuel}
use acme_lib.Prelude.{◌≢◌, ℕ, String, Bool, true, false, Option, none, some, List, Bytes}
use acme_lib.Crates.{Crates}
use acme_lib.Persist.{Persist, PersistKey}
use acme_lib.World.Ends.{Ends, Ends-lift, Ends-pure, Ends-bind}
use acme_lib.Acc.Key.{key_to_pem, generate_key}
use acme_lib.Acc.{Account, RevocationReason, certificate, new_order, revoke_certificate}
use acme_lib.Cert.{Certificate, certificate_der}
use acme_lib.Trans.{Transport, new_transport, set_key_id}
use acme_lib.Dir.{DirectoryUrl, Directory, from_url, account, key_or_new, save_if_new}
use acme_lib.Client.Patience.{IsPatient, IsTotal}
use acme_lib.Client.Termination.Calls.{
  rank_of, or_problem-settles, expect-settles, >>=ᵒ-settles, ec_group-settles, read_json-settles,
  draw-Ends, send-Ends, call-Ends, call_jwk-Ends,
}
use acme_lib.Client.Termination.Steps.{key_from_pem-settles, get-Ends, put-Ends, alloc_pool-Ends}

module _ {C : Crates} {P : Persist C} (rank : C.Net → ℕ) (patient : IsPatient C rank)
    (total : IsTotal P) (n : ℕ) where
  pub from_url-Ends : (url : DirectoryUrl) → Ends {P = P} (rank_of rank patient) n (from_url url)
  unfolding from_url
  from_url-Ends url = Ends-bind _ n (send-Ends rank patient n _) λ sent.
      Ends-bind _ n (Ends-lift _ n _ (or_problem-settles _)) λ res.
        Ends-bind _ n (Ends-lift _ n _ (read_json-settles _ res))
          λ d. Ends-bind _ n (alloc_pool-Ends rank patient total n d.new_nonce) λ p. Ends-pure _ n _

  pub generate_key-Ends : Ends {P = P} (rank_of rank patient) n generate_key
  unfolding generate_key
  generate_key-Ends = Ends-bind _ n (Ends-lift _ n _ (ec_group-settles _)) λ group.
      Ends-bind _ n (draw-Ends rank patient n (C.generate_ec group))
        λ drawn. Ends-bind _ n (Ends-lift _ n _ (expect-settles "EcKey" drawn)) λ k. Ends-pure _ n _

  pub key_or_new-Ends :
      (pem : Option Bytes) → Ends {P = P} (rank_of rank patient) n (key_or_new pem)
  key_or_new-Ends (some pem) =
      Ends-bind _ n (Ends-lift _ n _ (key_from_pem-settles pem)) λ k. Ends-pure _ n _
  key_or_new-Ends none = Ends-bind _ n generate_key-Ends λ k. Ends-pure _ n _

  pub save_if_new-Ends :
      (k : PersistKey) (t : Transport C) (b : Bool)
      → Ends {P = P} (rank_of rank patient) n (save_if_new k t b)
  unfolding key_to_pem
  save_if_new-Ends k t false = Ends-pure _ n tt
  save_if_new-Ends k t true =
      Ends-bind _ n (Ends-lift _ n _ (expect-settles _ _))
        λ pem. put-Ends rank patient total n k pem

  pub account-Ends :
      (d : Directory) (email : String) → Ends {P = P} (rank_of rank patient) n (account n d email)
  unfolding account
  account-Ends d email = Ends-bind _ n (get-Ends rank patient total n _) λ pem.
      Ends-bind _ n (key_or_new-Ends pem) λ (key, is_new).
        Ends-bind _ n (call_jwk-Ends rank patient n _ _ _) λ res.
          Ends-bind _ n (Ends-lift _ n _ (or_problem-settles _)) λ kid.
            Ends-bind _ n (Ends-lift _ n _ (read_json-settles _ res)) λ a.
              Ends-bind _ n
                (save_if_new-Ends _ (set_key_id (new_transport d.nonce_pool key) kid) is_new)
                λ _. Ends-pure _ n _

  pub certificate-Ends :
      (a : Account C) (name : String) → Ends {P = P} (rank_of rank patient) n (certificate a name)
  unfolding certificate
  certificate-Ends a name =
      Ends-bind _ n (get-Ends rank patient total n _)
        λ k. Ends-bind _ n (get-Ends rank patient total n _) λ c. Ends-pure _ n _

  pub new_order-Ends :
      (a : Account C) (name : String) (alt_names : List String)
      → Ends {P = P} (rank_of rank patient) n (new_order a n name alt_names)
  unfolding new_order
  new_order-Ends a name alt_names = Ends-bind _ n (call-Ends rank patient n _ _ _) λ res.
      Ends-bind _ n (Ends-lift _ n _ (or_problem-settles _))
        λ url. Ends-bind _ n (Ends-lift _ n _ (read_json-settles _ res)) λ o. Ends-pure _ n _

  certificate_der-settles : (cert : Certificate) → certificate_der C cert ≢ out_of_fuel
  unfolding certificate_der
  certificate_der-settles cert =
      >>=ᵒ-settles (expect "from_pem" (C.x509_from_pem (as_bytes cert.certificate))) _
        (expect-settles _ _) λ x509. expect-settles "to_der" (C.x509_to_der x509)

  pub revoke_certificate-Ends :
      (a : Account C) (cert : Certificate) (reason : RevocationReason)
      → Ends {P = P} (rank_of rank patient) n (revoke_certificate a n cert reason)
  unfolding revoke_certificate
  revoke_certificate-Ends a cert reason =
      Ends-bind _ n (Ends-lift _ n _ (certificate_der-settles cert))
        λ der. Ends-bind _ n (call-Ends rank patient n _ _ _) λ res. Ends-pure _ n tt
