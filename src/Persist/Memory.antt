-- ===== src/Persist/Memory.antt =====
-- `MemoryPersist` of src/persist.rs.
use acme_lib.Prelude.{
  String, Bool, true, false, Option, none, some, List, [], ◌∷◌, ◌==◌, eq_iff, ◌≡◌, refl, ◌∙◌, ap,
  if◌then◌else◌, Bytes, arith,
}
use acme_lib.Crates.{Crates}
use acme_lib.Outcome.{Outcome, ok}
use acme_lib.Persist.Lawful.{IsLawful}
use acme_lib.Persist.{Persist, PersistKey, key_to_string}

-- `HashMap<String, Vec<u8>>`, an entry for each key that was inserted.
abbrev pub Entries : Type 0
Entries = List (String × Bytes)

unfoldable pub insert : String → Bytes → Entries → Entries
insert k v [] = (k, v) ∷ []
insert k v ((l, u) ∷ rest) = if k == l then (k, v) ∷ rest else (l, u) ∷ insert k v rest

unfoldable pub lookup : String → Entries → Option Bytes
lookup k [] = none
lookup k ((l, u) ∷ rest) = if k == l then some u else lookup k rest

-- `MemoryPersist`; a new one is the empty list.
abbrev pub memory_persist : (C : Crates) → Persist C
memory_persist C = record {
  Store = Entries;
  put = λ key value inner. (ok tt, insert (key_to_string key) value inner);
  get = λ key inner. (ok (lookup (key_to_string key) inner), inner);
}

pub lookup-insert :
    (k l : String) (v : Bytes) (m : Entries)
    → lookup l (insert k v m) ≡ (if k == l then some v else lookup l m)
unfolding insert lookup
lookup-insert k l v [] = ground (arith, eq_iff k l, eq_iff l k)
lookup-insert k l v ((n, u) ∷ rest) =
    ground (arith, lookup-insert k l v rest, eq_iff k l, eq_iff l k, eq_iff k n, eq_iff l n)

-- Every `put` of the memory persistence succeeds, and a `get` gives the bytes of the last `put` under a
-- key of the same name, or what it would have given without that `put`, and changes nothing.
pub memory_persist-IsLawful :
    (C : Crates)
    → ((k : PersistKey) (v : Bytes) (s : Entries) → ((memory_persist C).put k v s).0 ≡ ok tt)
      × IsLawful (memory_persist C) (λ text. Unit)
memory_persist-IsLawful C = (
  λ k v s. refl,
  record {
    get_after_put = λ k l v s hk hl put.
        ap ok (lookup-insert (key_to_string k) (key_to_string l) v s)
        ∙ ok_if (key_to_string k == key_to_string l) (some v) (lookup (key_to_string l) s);
    get_keeps = λ k s. refl;
  },
)
  where
    ok_if :
        {A : Type 0} (b : Bool) (x y : A)
        → ◌≡◌ {A = Outcome C A} (ok (if b then x else y)) (if b then ok x else ok y)
    ok_if true x y = refl
    ok_if false x y = refl
