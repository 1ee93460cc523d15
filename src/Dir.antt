-- ===== src/Dir.antt =====
-- The entry point: directories and their accounts (src/dir.rs).
pub mod Resume
pub mod Made
use acme_lib.Prelude.{
  ℕ, suc, ◌+◌, String, ◌<>◌, Bool, true, false, Option, none, some, List, [], ◌∷◌, ◌=ᵇ◌,
  if◌then◌else◌, Bytes,
}
use acme_lib.Api.{ApiDirectory, ApiAccount, account_json}
use acme_lib.Crates.{Crates}
use acme_lib.Outcome.{Outcome, ok, or_problem}
use acme_lib.Persist.{Persist, PersistKey, PersistKind, new_key}
use acme_lib.World.{NoncePool, World, Act, lift, pure, get, put, ◌>>=◌, ◌>>◌}
use acme_lib.Req.{req_get, req_handle_error, req_expect_header, read_json}
use acme_lib.Acc.Key.{AcmeKey, key_from_pem, key_to_pem, generate_key}
use acme_lib.Trans.{Transport, new_transport, set_key_id, call_jwk}
use acme_lib.Trans.Pool.{new_pool}
use acme_lib.Acc.{Account}

abbrev letsencrypt : String
letsencrypt = "https://acme-v02.api.letsencrypt.org/directory"

abbrev letsencrypt_staging : String
letsencrypt_staging = "https://acme-staging-v02.api.letsencrypt.org/directory"

pub data DirectoryUrl : Type 0 where
  lets_encrypt lets_encrypt_staging : DirectoryUrl
  other : String → DirectoryUrl

unfoldable pub to_url : DirectoryUrl → String
to_url lets_encrypt = letsencrypt
to_url lets_encrypt_staging = letsencrypt_staging
to_url (other s) = s

pub record Directory : Type 0 where
  pub nonce_pool : ℕ
  pub api_directory : ApiDirectory

-- The persistence key of an account's private key.
abbrev pub account_key : Crates → String → PersistKey
account_key C contact_email = new_key C contact_email PersistKind.account_private_key "acme_account"

abbrev pub account_request : String → ApiAccount
account_request contact_email = record {
  status = none;
  contact = ("mailto:" <> contact_email) ∷ [];
  terms_of_service_agreed = some true;
  orders = none;
}

module _ {C : Crates} {P : Persist C} where
  -- `Arc::new(NoncePool::new(url))`: the next free number.
  unfoldable pub alloc_pool : String → Act C P ℕ
  alloc_pool url w =
      let p = w.next_pool in
      (
        ok p,
        record w { pools = λ q. if p =ᵇ q then new_pool url else w.pools q; next_pool = p + 1 },
      )

  -- `Directory::from_url`
  unfoldable pub from_url : DirectoryUrl → Act C P Directory
  from_url url = do
    sent ← req_get (to_url url)
    res ← lift (or_problem (req_handle_error C sent))
    api_directory ← lift (read_json C C.directory_from_str res)
    nonce_pool ← alloc_pool api_directory.new_nonce
    pure (record { nonce_pool = nonce_pool; api_directory = api_directory })

  -- The key, and whether it is new.
  abbrev pub key_or_new : Option Bytes → Act C P (AcmeKey C × Bool)
  key_or_new (some pem) = do key ← lift (key_from_pem pem); pure (key, false)
  key_or_new none = do key ← generate_key; pure (key, true)

  abbrev pub save_if_new : PersistKey → Transport C → Bool → Act C P Unit
  save_if_new pem_key transport false = pure tt
  save_if_new pem_key transport true = do
    pem ← lift (key_to_pem transport.acme_key)
    put pem_key pem

  -- `Directory::account`
  unfoldable pub account : ℕ → Directory → String → Act C P (Account C)
  account fuel d contact_email = do
    let pem_key = account_key C contact_email
    pem ← get pem_key
    (acme_key, is_new) ← key_or_new pem
    let fresh = new_transport d.nonce_pool acme_key
    res ←
        call_jwk fresh d.api_directory.new_account (account_json (account_request contact_email))
          fuel
    kid ← lift (or_problem (req_expect_header C res "location"))
    api_account ← lift (read_json C C.account_from_str res)
    let transport = set_key_id fresh kid
    save_if_new pem_key transport is_new
    pure (record {
      inner = record {
        transport = transport;
        contact_email = contact_email;
        api_account = api_account;
        api_directory = d.api_directory;
      };
    })
