-- ===== src/Example.antt =====
-- `request_cert`, the example in the documentation of src/lib.rs: every part of the library in one run.
pub mod Working
pub mod Server
pub mod Issuing
pub mod Ownership
pub mod Finality
pub mod Fuel
pub mod Completes
pub mod Request
use acme_lib.Prelude.{ℕ, zero, suc, String, Option, none, some, List, [], ◌∷◌}
use acme_lib.Crates.{Crates}
use acme_lib.Outcome.{Outcome, ok, panic, out_of_fuel}
use acme_lib.Persist.{Persist}
use acme_lib.World.{Act, lift, pure, ◌>>=◌, ◌>>◌}
use acme_lib.Dir.{DirectoryUrl, from_url, account}
use acme_lib.Acc.{new_order}
use acme_lib.Cert.Keys.{create_p384_key}
use acme_lib.Order.{
  NewOrder, CsrOrder, confirm_validations, authorizations, refresh, finalize_pkey,
  download_and_save_cert,
}
use acme_lib.Order.Auth.{Auth, http_challenge, http_proof, validate}

-- `auths[0]`
abbrev first_auth : {C : Crates} → List (Auth C) → Outcome C (Auth C)
first_auth [] = panic "index out of bounds"
first_auth (auth ∷ auths) = ok auth

module _ {C : Crates} {P : Persist C} (fuel : ℕ) where
  -- `break ord_csr`, or the rest of the round.
  abbrev pub break_or : Option (CsrOrder C) → Act C P (CsrOrder C) → Act C P (CsrOrder C)
  break_or (some ord_csr) rest = pure ord_csr
  break_or none rest = rest

  -- The loop, on fuel of its own. The proof is made, and its place is up to the user.
  unfoldable pub prove_ownership : ℕ → NewOrder C → Act C P (CsrOrder C)
  prove_ownership zero ord_new w = (out_of_fuel, w)
  prove_ownership (suc rounds) ord_new w =
      break_or (confirm_validations ord_new)
        (do
          auths ← authorizations fuel ord_new
          auth ← lift (first_auth auths)
          chall ← lift (http_challenge auth)
          proof ← lift (http_proof chall)
          validate fuel chall 5000
          refreshed ← refresh fuel ord_new
          prove_ownership rounds refreshed)
        w

  unfoldable pub request_cert : Act C P Unit
  request_cert = do
    dir ← from_url DirectoryUrl.lets_encrypt
    acc ← account fuel dir "foo@bar.com"
    ord_new ← new_order acc fuel "mydomain.io" []
    ord_csr ← prove_ownership fuel ord_new
    (pkey_pri, pkey_pub) ← create_p384_key
    ord_cert ← finalize_pkey fuel ord_csr pkey_pri pkey_pub 5000
    cert ← download_and_save_cert fuel ord_cert
    pure tt
