-- ===== src/Client/Failures.antt =====
-- On the persistence after calls that fail: src/dir.rs, src/acc/mod.rs, src/order/mod.rs.
use acme_lib.Prelude.{ℕ, String, Bool, true, false, ◌≡◌, ◌≢◌, refl, ◌∙◌, none, some, Option, Bytes}
use acme_lib.Crates.{Crates}
use acme_lib.Outcome.{ok}
use acme_lib.Persist.{Persist, PersistKey}
use acme_lib.World.{World, get, put, draw, sleep, pure}
use acme_lib.World.Keeps.{Keeps, Keeps-lift}
use acme_lib.World.Atomic.{Atomic, Atomic-Keeps, Atomic-rest, Atomic-first}
use acme_lib.Req.{send}
use acme_lib.Trans.{Transport, set_key_id, new_transport}
use acme_lib.Trans.Pool.{add_nonce, extract_nonce}
use acme_lib.Dir.{Directory, alloc_pool, account, save_if_new}
use acme_lib.Client.{
  Op, run, call_from_url, call_account, call_certificate, call_new_order, call_revoke_certificate,
  call_refresh, call_authorizations, call_validate, call_finalize, call_finalize_pkey,
  call_download_and_save_cert,
}
use acme_lib.Client.Frame.{
  Quiet, call_jwk-Keeps, key_or_new-Keeps, from_url-Keeps, certificate-Keeps, new_order-Keeps,
  revoke_certificate-Keeps, refresh-Keeps, authorizations-Keeps, validate-Keeps, finalize-Keeps,
  finalize_pkey-Keeps,
}

-- Writing succeeds, and reading changes nothing.
pub record IsReliable {C : Crates} (P : Persist C) : Type 0 where
  pub put_succeeds : (k : PersistKey) (v : Bytes) (s : P.Store) → (P.put k v s).0 ≡ ok tt
  pub get_keeps : (k : PersistKey) (s : P.Store) → (P.get k s).1 ≡ s

-- Every method but the download.
abbrev pub IsNoDownload : {C : Crates} → Op C → Type 0
IsNoDownload (call_download_and_save_cert o) = ⊥
IsNoDownload _ = Unit

module _ {C : Crates} {P : Persist C} (reliable : IsReliable P) (s : P.Store) where
  abbrev Unwritten : World C P → Type 0
  Unwritten w = w.store ≡ s

  add_nonce-Unwritten : (p : ℕ) (o : Option String) → Keeps Unwritten (add_nonce p o)
  add_nonce-Unwritten p none = record { at = λ w h. h }
  add_nonce-Unwritten p (some n) = record { at = λ w h. h }

  Unwritten-steps : Quiet Unwritten
  unfolding send sleep get draw alloc_pool extract_nonce
  Unwritten-steps = record {
    quiet_get = λ url. record { at = λ w h. h };
    quiet_head = λ url. record { at = λ w h. h };
    quiet_post = λ url text signed. record { at = λ w h. h };
    quiet_sleep = λ millis. record { at = λ w h. h };
    quiet_load = λ k. record { at = λ w h. reliable.get_keeps k w.store ∙ h };
    quiet_draw = λ A f. record { at = λ w h. h };
    quiet_extract = λ p res. add_nonce-Unwritten p (C.header res "replay-nonce");
    quiet_pop = λ p nonce rest w e h. h;
    quiet_alloc = λ url. record { at = λ w h. h };
  }

  put-Atomic : (k : PersistKey) (v : Bytes) → Atomic Unwritten (put k v)
  unfolding put
  put-Atomic k v = record {
    at = λ w h failed. absurd (failed tt (reliable.put_succeeds k v w.store));
  }

  save_if_new-Atomic :
      (k : PersistKey) (t : Transport C) (b : Bool) → Atomic Unwritten (save_if_new k t b)
  unfolding pure
  save_if_new-Atomic k t false = record { at = λ w h failed. h }
  save_if_new-Atomic k t true = Atomic-rest (Keeps-lift _) λ pem. put-Atomic k pem

  account-Atomic :
      (fuel : ℕ) (d : Directory) (email : String) → Atomic Unwritten (account fuel d email)
  unfolding account
  account-Atomic fuel d email = Atomic-rest (Unwritten-steps.quiet_load _) λ pem.
      Atomic-rest (key_or_new-Keeps Unwritten-steps pem) λ found.
        Atomic-rest (call_jwk-Keeps Unwritten-steps _ _ _ fuel) λ res.
          Atomic-rest (Keeps-lift _) λ kid. Atomic-rest (Keeps-lift _) λ api.
            Atomic-first (λ saved. _)
              (save_if_new-Atomic _ (set_key_id (new_transport d.nonce_pool found.0) kid) _)

  run-Atomic : (fuel : ℕ) (op : Op C) → IsNoDownload op → Atomic Unwritten (run fuel op)
  unfolding run
  run-Atomic fuel (call_from_url url) h =
      Atomic-first (λ r. tt) (Atomic-Keeps (from_url-Keeps Unwritten-steps url))
  run-Atomic fuel (call_account d email) h = Atomic-first (λ r. tt) (account-Atomic fuel d email)
  run-Atomic fuel (call_certificate a name) h =
      Atomic-first (λ r. tt) (Atomic-Keeps (certificate-Keeps Unwritten-steps a name))
  run-Atomic fuel (call_new_order a name alt_names) h =
      Atomic-first (λ r. tt) (Atomic-Keeps (new_order-Keeps Unwritten-steps fuel a name alt_names))
  run-Atomic fuel (call_revoke_certificate a cert reason) h =
      Atomic-Keeps (revoke_certificate-Keeps Unwritten-steps fuel a cert reason)
  run-Atomic fuel (call_refresh o) h =
      Atomic-first (λ r. tt) (Atomic-Keeps (refresh-Keeps Unwritten-steps fuel o))
  run-Atomic fuel (call_authorizations o) h =
      Atomic-first (λ r. tt) (Atomic-Keeps (authorizations-Keeps Unwritten-steps fuel o))
  run-Atomic fuel (call_validate A c delay_millis) h =
      Atomic-Keeps (validate-Keeps Unwritten-steps fuel c delay_millis)
  run-Atomic fuel (call_finalize o pri pub_key delay_millis) h =
      Atomic-first (λ r. tt)
        (Atomic-Keeps (finalize-Keeps Unwritten-steps fuel o pri pub_key delay_millis))
  run-Atomic fuel (call_finalize_pkey o pri pub_key delay_millis) h =
      Atomic-first (λ r. tt)
        (Atomic-Keeps (finalize_pkey-Keeps Unwritten-steps fuel o pri pub_key delay_millis))
  run-Atomic fuel (call_download_and_save_cert o) h = absurd h

-- On a persistence whose writes succeed and whose reads change nothing: a call of any method but the
-- download that ends by an error or a panic, or uses up its fuel, has left the persistence as it was.
pub failures_write_nothing :
    {C : Crates} {P : Persist C} (fuel : ℕ) (op : Op C) (w : World C P)
    → IsReliable P
    → IsNoDownload op
    → (run fuel op w).0 ≢ ok tt
    → (run fuel op w).1.store ≡ w.store
failures_write_nothing fuel op w reliable no_download failed =
    (run-Atomic reliable w.store fuel op no_download).at w refl (λ u. failed)
