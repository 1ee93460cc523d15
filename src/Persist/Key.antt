-- ===== src/Persist/Key.antt =====
-- `PersistKind` and `PersistKey` of src/persist.rs.
use acme_lib.Prelude.{ℕ, String, ◌<>◌}
use acme_lib.Std.{decimal, replace_char}
use acme_lib.Crates.{Crates}

pub data PersistKind : Type 0 where
  account_private_key private_key certificate : PersistKind

abbrev pub kind_name : PersistKind → String
kind_name certificate = "crt"
kind_name private_key = "key"
kind_name account_private_key = "key"

pub record PersistKey : Type 0 where
  pub realm : ℕ
  pub kind : PersistKind
  pub key : String

-- `PersistKey::new`
abbrev pub new_key : Crates → String → PersistKind → String → PersistKey
new_key C realm kind key = record { realm = C.default_hash realm; kind = kind; key = key }

unfoldable pub sanitize : String → String
sanitize key = replace_char "*" "STAR" (replace_char "." "_" key)

-- `PersistKey::to_string`, which is `Display` too.
unfoldable pub key_to_string : PersistKey → String
unfolding sanitize
key_to_string k = decimal k.realm <> "_" <> kind_name k.kind <> "_" <> sanitize k.key
