-- ===== src/Client.antt =====
-- A program over the library: the public methods that act on the world, and sequences of them.
pub mod Frame
pub mod Writes
pub mod Failures
pub mod Evidence
pub mod Payloads
pub mod Fetched
pub mod Downloaded
pub mod Protocol
pub mod Keeps
pub mod PoolBounds
pub mod Requests
pub mod Signatures
pub mod Patience
pub mod Termination
pub mod Responsive
pub mod Liveness
pub mod Traffic
use acme_lib.Prelude.{ℕ, String, List, [], ◌∷◌}
use acme_lib.Crates.{Crates}
use acme_lib.Persist.{Persist}
use acme_lib.World.{World, Act, pure, ◌>>=◌, ◌>>◌}
use acme_lib.Dir.{DirectoryUrl, Directory, from_url, account}
use acme_lib.Acc.{Account, RevocationReason, certificate, new_order, revoke_certificate}
use acme_lib.Cert.{Certificate}
use acme_lib.Order.{
  NewOrder, CsrOrder, CertOrder, refresh, authorizations, finalize, finalize_pkey,
  download_and_save_cert,
}
use acme_lib.Order.Auth.{Challenge, Marker, validate}

-- A call of a method, on any object and with any arguments.
pub data Op (C : Crates) : Type 0 where
  call_from_url : DirectoryUrl → Op C
  call_account : Directory → String → Op C
  call_certificate : Account C → String → Op C
  call_new_order : Account C → String → List String → Op C
  call_revoke_certificate : Account C → Certificate → RevocationReason → Op C
  call_refresh : NewOrder C → Op C
  call_authorizations : NewOrder C → Op C
  call_validate : (A : Marker) → Challenge C A → ℕ → Op C
  call_finalize : CsrOrder C → String → String → ℕ → Op C
  call_finalize_pkey : CsrOrder C → C.PrivateKey → C.PublicKey → ℕ → Op C
  call_download_and_save_cert : CertOrder C → Op C

module _ {C : Crates} {P : Persist C} (fuel : ℕ) where
  unfoldable pub run : Op C → Act C P Unit
  run (call_from_url url) = do from_url url; pure tt
  run (call_account d email) = do account fuel d email; pure tt
  run (call_certificate a name) = do certificate a name; pure tt
  run (call_new_order a name alt_names) = do new_order a fuel name alt_names; pure tt
  run (call_revoke_certificate a cert reason) = revoke_certificate a fuel cert reason
  run (call_refresh o) = do refresh fuel o; pure tt
  run (call_authorizations o) = do authorizations fuel o; pure tt
  run (call_validate A c delay_millis) = validate fuel c delay_millis
  run (call_finalize o pri pub_key delay_millis) = do
    finalize fuel o pri pub_key delay_millis
    pure tt
  run (call_finalize_pkey o pri pub_key delay_millis) = do
    finalize_pkey fuel o pri pub_key delay_millis
    pure tt
  run (call_download_and_save_cert o) = do download_and_save_cert fuel o; pure tt

  -- The program goes on after an error.
  unfoldable pub run_all : List (Op C) → World C P → World C P
  unfolding run
  run_all [] w = w
  run_all (op ∷ ops) w = run_all ops (run op w).1
