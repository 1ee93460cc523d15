-- ===== src/Persist/Lawful.antt =====
-- What the library relies on in an implementation of `Persist` of src/persist.rs.
use acme_lib.Prelude.{
  String, ◌==◌, ◌≡◌, ◌≢◌, refl, ◌∙◌, some, if◌then◌else◌, Bytes, eq_refl, ne-eq_false,
}
use acme_lib.Crates.{Crates}
use acme_lib.Outcome.{ok}
use acme_lib.Persist.{Persist}
use acme_lib.Persist.Key.{PersistKey, key_to_string}

-- A persistence that, for keys whose text is of a kind, gives back what it stored under the name of a
-- key.
pub record IsLawful {C : Crates} (P : Persist C) (IsKeyText : String → Type 0) : Type 0 where
  pub get_after_put :
      (k l : PersistKey) (v : Bytes) (s : P.Store)
      → IsKeyText k.key
      → IsKeyText l.key
      → (P.put k v s).0 ≡ ok tt
      → (P.get l (P.put k v s).1).0
        ≡ (if key_to_string k == key_to_string l then ok (some v) else (P.get l s).0)
  pub get_keeps : (k : PersistKey) (s : P.Store) → (P.get k s).1 ≡ s

module _ {C : Crates} (P : Persist C) {IsKeyText : String → Type 0}
    (lawful : IsLawful P IsKeyText) where
  pub get_same :
      (k : PersistKey) (v : Bytes) (s : P.Store)
      → IsKeyText k.key
      → (P.put k v s).0 ≡ ok tt
      → (P.get k (P.put k v s).1).0 ≡ ok (some v)
  get_same k v s hk put =
      lawful.get_after_put k k v s hk hk put ∙ rw (eq_refl (key_to_string k)) refl

  pub get_other :
      (k l : PersistKey) (v : Bytes) (s : P.Store)
      → IsKeyText k.key
      → IsKeyText l.key
      → (P.put k v s).0 ≡ ok tt
      → key_to_string k ≢ key_to_string l
      → (P.get l (P.put k v s).1).0 ≡ (P.get l s).0
  get_other k l v s hk hl put h =
      lawful.get_after_put k l v s hk hl put
      ∙ rw (ne-eq_false (key_to_string k) (key_to_string l) h) refl
