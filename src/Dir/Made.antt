-- ===== src/Dir/Made.antt =====
-- On the accounts that `Directory::account` of src/dir.rs makes.
use acme_lib.Prelude.{ℕ, ◌≡◌, refl, String}
use acme_lib.Crates.{Crates}
use acme_lib.Outcome.{ok}
use acme_lib.Persist.{Persist}
use acme_lib.World.{World}
use acme_lib.World.Values.{Returns, Returns-bind, Returns-pure}
use acme_lib.Acc.Key.{key_id_of}
use acme_lib.Acc.{Account}
use acme_lib.Dir.{Directory, account}

abbrev IsAccountOf : {C : Crates} → Directory → String → Account C → Type 0
IsAccountOf {C} d email a =
    (a.inner.contact_email ≡ email)
    × (a.inner.api_directory ≡ d.api_directory)
    × (a.inner.transport.nonce_pool ≡ d.nonce_pool)
    × ((kid : String) × (key_id_of a.inner.transport.acme_key ≡ ok kid))

module _ {C : Crates} {P : Persist C} (fuel : ℕ) (d : Directory) (email : String) where
  account-Returns : Returns {P = P} (IsAccountOf d email) (account fuel d email)
  unfolding account key_id_of
  account-Returns = Returns-bind _ λ pem. Returns-bind _ λ key. Returns-bind _ λ res.
      Returns-bind _ λ kid.
        Returns-bind _ λ api. Returns-bind _ λ saved. Returns-pure _ (refl, refl, refl, (kid, refl))

-- An account that is returned is for the contact that was given, has the directory's URLs, shares the
-- directory's nonce pool, and has a key id, so that signing with it does not panic for want of one.
pub account-key_id :
    {C : Crates} {P : Persist C} (fuel : ℕ) (d : Directory) (email : String) (w : World C P)
    (a : Account C)
    → (account fuel d email w).0 ≡ ok a
    → (a.inner.contact_email ≡ email)
      × (a.inner.api_directory ≡ d.api_directory)
      × (a.inner.transport.nonce_pool ≡ d.nonce_pool)
      × ((kid : String) × (key_id_of a.inner.transport.acme_key ≡ ok kid))
account-key_id fuel d email w a = (account-Returns fuel d email).at w a
