-- ===== src/Json.antt =====
-- The data model of serde, as far as the sources write to it: `Serialize` makes such a tree of a value.
use acme_lib.Prelude.{ℕ, String, Bool, Option, none, some, List, [], ◌∷◌}

mutual
  pub data Json : Type 0 where
    null : Json
    bool : Bool → Json
    number : ℕ → Json
    string : String → Json
    array : Items → Json
    object : Fields → Json

  pub data Items : Type 0 where
    nil : Items
    item : Json → Items → Items

  pub data Fields : Type 0 where
    end : Fields
    field : String → Json → Fields → Fields

abbrev pub optional {ℓ} : {A : Type ℓ} → (A → Json) → Option A → Json
optional f none = null
optional f (some a) = f a

-- `#[serde(skip_serializing_if = "Option::is_none")]`
abbrev pub field_if_some {ℓ} : {A : Type ℓ} → String → (A → Json) → Option A → Fields → Fields
field_if_some name f none rest = rest
field_if_some name f (some a) rest = field name (f a) rest

abbrev pub items {ℓ} : {A : Type ℓ} → (A → Json) → List A → Items
items f [] = nil
items f (a ∷ l) = item (f a) (items f l)

abbrev pub strings : List String → Json
strings l = array (items string l)
