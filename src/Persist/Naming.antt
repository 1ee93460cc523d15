-- ===== src/Persist/Naming.antt =====
-- On the names of keys: `PersistKey::to_string` of src/persist.rs.
use acme_lib.Std.Marks.{split_at_mark}
use acme_lib.Prelude.{
  ◌^◌, ◌<◌, ◌≡◌, ◌≢◌, ◌↔◌, sym, ap, ◌∙◌, String, ◌<>◌, arith, eq_iff, true, false,
}
use acme_lib.Std.{decimal}
use acme_lib.Std.Decimal.{NoUnderscore, decimal-NoUnderscore, decimal-injective}
use acme_lib.Persist.Key.{
  PersistKind, account_private_key, private_key, certificate, kind_name, PersistKey, sanitize,
  key_to_string,
}

kind_name-NoUnderscore : (k : PersistKind) → NoUnderscore (kind_name k)
kind_name-NoUnderscore account_private_key = omega arith
kind_name-NoUnderscore private_key = omega arith
kind_name-NoUnderscore certificate = omega arith

tail_of : PersistKey → String
tail_of k = kind_name k.kind <> "_" <> sanitize k.key

-- Keys of one name agree in each of the three parts of it.
pub key_to_string-parts :
    (k l : PersistKey)
    → key_to_string k ≡ key_to_string l
    → (decimal k.realm ≡ decimal l.realm)
      × (kind_name k.kind ≡ kind_name l.kind)
      × (sanitize k.key ≡ sanitize l.key)
unfolding key_to_string tail_of
key_to_string-parts k l e =
    let (realms, rest) =
      split_at_mark "_" (decimal k.realm) (decimal l.realm) (tail_of k) (tail_of l)
        (decimal-NoUnderscore k.realm) (decimal-NoUnderscore l.realm) e in
    let (kinds, keys) =
      split_at_mark "_" (kind_name k.kind) (kind_name l.kind) (sanitize k.key) (sanitize l.key)
        (kind_name-NoUnderscore k.kind) (kind_name-NoUnderscore l.kind) rest in
    (realms, kinds, keys)

-- A certificate never shares its name with a private key.
pub private_key-ne-certificate :
    (k l : PersistKey)
    → k.kind ≡ private_key
    → l.kind ≡ certificate
    → key_to_string k ≢ key_to_string l
private_key-ne-certificate k l hk hl e =
    differ (sym (ap kind_name hk) ∙ (key_to_string-parts k l e).1 ∙ ap kind_name hl)
  where
    differ : kind_name private_key ≢ kind_name certificate
    differ d = let h : false ≡ true = (eq_iff "key" "crt").1 d in cc

-- Two keys with realms of 64 bits have the same name exactly if they agree in the realm, in the
-- extension of the kind, and in the key up to `.` for `_` and `*` for `STAR`.
pub key_to_string_iff :
    (k l : PersistKey)
    → k.realm < 2 ^ 64
    → l.realm < 2 ^ 64
    → (key_to_string k ≡ key_to_string l) ↔ (
        (k.realm ≡ l.realm)
        × (kind_name k.kind ≡ kind_name l.kind)
        × (sanitize k.key ≡ sanitize l.key))
unfolding key_to_string
key_to_string_iff k l hk hl = (
  λ e.
      let (realms, kinds, keys) = key_to_string-parts k l e in
      (decimal-injective k.realm l.realm (omega arith) (omega arith) realms, kinds, keys),
  λ (r, n, s). cc (r, n, s),
)
