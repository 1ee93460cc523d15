-- ===== src/Client/Keeps.antt =====
-- Invariants of the primitive steps for every call and every program.
use acme_lib.Client.Writes.{account-Keeps, download_and_save_cert-Keeps}
use acme_lib.Client.Frame.{
  quiet_of, Basics, from_url-Keeps, certificate-Keeps, new_order-Keeps, revoke_certificate-Keeps,
  refresh-Keeps, authorizations-Keeps, validate-Keeps, finalize-Keeps, finalize_pkey-Keeps,
}
use acme_lib.Prelude.{ℕ, List, [], ◌∷◌}
use acme_lib.Crates.{Crates}
use acme_lib.Persist.{Persist}
use acme_lib.World.{World}
use acme_lib.World.Keeps.{Keeps, Keeps-pure, Keeps-bind}
use acme_lib.Client.{
  Op, run, run_all, call_from_url, call_account, call_certificate, call_new_order,
  call_revoke_certificate, call_refresh, call_authorizations, call_validate, call_finalize,
  call_finalize_pkey, call_download_and_save_cert,
}

module _ {C : Crates} {P : Persist C} {I : World C P → Type 0} (B : Basics I) where
  pub run-Keeps : (fuel : ℕ) (op : Op C) → Keeps I (run fuel op)
  unfolding run
  run-Keeps fuel (call_from_url url) =
      Keeps-bind (from_url-Keeps (quiet_of B) url) λ _. Keeps-pure tt
  run-Keeps fuel (call_account d email) =
      Keeps-bind (account-Keeps B fuel d email) λ _. Keeps-pure tt
  run-Keeps fuel (call_certificate a name) =
      Keeps-bind (certificate-Keeps (quiet_of B) a name) λ _. Keeps-pure tt
  run-Keeps fuel (call_new_order a name alt_names) =
      Keeps-bind (new_order-Keeps (quiet_of B) fuel a name alt_names) λ _. Keeps-pure tt
  run-Keeps fuel (call_revoke_certificate a cert reason) =
      revoke_certificate-Keeps (quiet_of B) fuel a cert reason
  run-Keeps fuel (call_refresh o) =
      Keeps-bind (refresh-Keeps (quiet_of B) fuel o) λ _. Keeps-pure tt
  run-Keeps fuel (call_authorizations o) =
      Keeps-bind (authorizations-Keeps (quiet_of B) fuel o) λ _. Keeps-pure tt
  run-Keeps fuel (call_validate A c delay_millis) = validate-Keeps (quiet_of B) fuel c delay_millis
  run-Keeps fuel (call_finalize o pri pub_key delay_millis) =
      Keeps-bind (finalize-Keeps (quiet_of B) fuel o pri pub_key delay_millis) λ _. Keeps-pure tt
  run-Keeps fuel (call_finalize_pkey o pri pub_key delay_millis) =
      Keeps-bind (finalize_pkey-Keeps (quiet_of B) fuel o pri pub_key delay_millis)
        λ _. Keeps-pure tt
  run-Keeps fuel (call_download_and_save_cert o) =
      Keeps-bind (download_and_save_cert-Keeps B fuel o) λ _. Keeps-pure tt

  pub run_all_Keeps : (fuel : ℕ) (ops : List (Op C)) (w : World C P) → I w → I (run_all fuel ops w)
  unfolding run_all
  run_all_Keeps fuel [] w i = i
  run_all_Keeps fuel (op ∷ ops) w i =
      run_all_Keeps fuel ops (run fuel op w).1 ((run-Keeps fuel op).at w i)
