-- ===== src/Client/Termination.antt =====
-- On the fuel of the loops of src/trans.rs, src/order/mod.rs and src/order/auth.rs in each method.
pub mod Calls
pub mod Polls
pub mod Steps
pub mod Accounts
pub mod Orders
use acme_lib.Prelude.{
  ℕ, suc, ◌<◌, ◌≡◌, ◌≢◌, refl, String, ◌<>◌, Bool, true, false, ◌⊎◌, inl, inr, Option, none, some,
  List, [], ◌∷◌, arith, Bytes,
}
use acme_lib.Std.{as_bytes}
use acme_lib.Api.{ApiAuth}
use acme_lib.Crates.{Crates}
use acme_lib.Outcome.{Outcome, ok, out_of_fuel, or_io, or_other, expect}
use acme_lib.Persist.{Persist, PersistKey, PersistKind, new_key}
use acme_lib.World.{World, Act, get, put, lift, ◌>>=◌}
use acme_lib.World.Ends.{Ends, Ends-lift, Ends-pure, Ends-bind}
use acme_lib.Req.{req_handle_error, req_expect_header, read_json}
use acme_lib.Acc.Key.{key_from_pem, key_to_pem, generate_key}
use acme_lib.Acc.{Account, RevocationReason, certificate, new_order, revoke_certificate}
use acme_lib.Cert.{Certificate, alt_names_text, create_csr, certificate_der}
use acme_lib.Trans.{Transport, new_transport, set_key_id}
use acme_lib.Dir.{
  DirectoryUrl, Directory, to_url, alloc_pool, from_url, account, key_or_new, save_if_new,
}
use acme_lib.Order.{
  Order, NewOrder, CsrOrder, CertOrder, first_domain, cert_order_if_valid, refresh,
  authorizations_of, authorizations_if, authorizations, finalize, finalize_pkey,
  download_and_save_cert,
}
use acme_lib.Order.Auth.{Challenge, Marker, accept_if_valid, validate}
use acme_lib.Acc.Inner.{AccountInner}
use acme_lib.Client.{
  Op, run, call_from_url, call_account, call_certificate, call_new_order, call_revoke_certificate,
  call_refresh, call_authorizations, call_validate, call_finalize, call_finalize_pkey,
  call_download_and_save_cert,
}
use acme_lib.Client.Frame.{Basics}
use acme_lib.Client.Patience.{IsPatient, IsTotal}
use Calls.{rank_of}
use Polls.{validate-Ends}
use Accounts.{
  from_url-Ends, generate_key-Ends, key_or_new-Ends, save_if_new-Ends, account-Ends,
  certificate-Ends, new_order-Ends, revoke_certificate-Ends,
}
use Orders.{
  refresh-Ends, authorizations_of-Ends, authorizations-Ends, create_csr-Ends, finalize_pkey-Ends,
  finalize-Ends, download_and_save_cert-Ends,
}

module _ {C : Crates} {P : Persist C} (rank : C.Net → ℕ) (patient : IsPatient C rank)
    (total : IsTotal P) (n : ℕ) where
  run-Ends : (op : Op C) → Ends {P = P} (rank_of rank patient) n (run n op)
  unfolding run
  run-Ends (call_from_url url) =
      Ends-bind _ n (from_url-Ends rank patient total n url) λ _. Ends-pure _ n tt
  run-Ends (call_account d email) =
      Ends-bind _ n (account-Ends rank patient total n d email) λ _. Ends-pure _ n tt
  run-Ends (call_certificate a name) =
      Ends-bind _ n (certificate-Ends rank patient total n a name) λ _. Ends-pure _ n tt
  run-Ends (call_new_order a name alt_names) =
      Ends-bind _ n (new_order-Ends rank patient total n a name alt_names) λ _. Ends-pure _ n tt
  run-Ends (call_revoke_certificate a cert reason) =
      revoke_certificate-Ends rank patient total n a cert reason
  run-Ends (call_refresh o) =
      Ends-bind _ n (refresh-Ends rank patient total n o) λ _. Ends-pure _ n tt
  run-Ends (call_authorizations o) =
      Ends-bind _ n (authorizations-Ends rank patient total n o) λ _. Ends-pure _ n tt
  run-Ends (call_validate A c delay_millis) = validate-Ends rank patient n c delay_millis
  run-Ends (call_finalize o pri pub_key delay_millis) =
      Ends-bind _ n (finalize-Ends rank patient total n o pri pub_key delay_millis)
        λ _. Ends-pure _ n tt
  run-Ends (call_finalize_pkey o pri pub_key delay_millis) =
      Ends-bind _ n (finalize_pkey-Ends rank patient total n o pri pub_key delay_millis)
        λ _. Ends-pure _ n tt
  run-Ends (call_download_and_save_cert o) =
      Ends-bind _ n (download_and_save_cert-Ends rank patient total n o) λ _. Ends-pure _ n tt

-- If the network's rank bounds how many more retriable refusals, orders in processing and pending
-- authorizations it gives, and the persistence returns, then a call of any method, with fuel above the
-- rank, comes to an end: it does not run out of fuel.
pub run_ends :
    {C : Crates} {P : Persist C} (rank : C.Net → ℕ) (n : ℕ) (op : Op C) (w : World C P)
    → IsPatient C rank
    → IsTotal P
    → rank w.net < n
    → (run n op w).0 ≢ out_of_fuel
run_ends rank n op w patient total h = (run-Ends rank patient total n op).settles w h
