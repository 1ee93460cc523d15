-- ===== src/World.antt =====
-- The state that the methods share and change, and the actions on it. A `Mutex` that is never held
-- across a panic never poisons, so `lock().unwrap()` leaves no trace; `Arc` is a reference.
pub mod Keeps
pub mod Values
pub mod Ends
pub mod Settles
pub mod Leads
pub mod Fine
pub mod Pays
pub mod Atomic
use acme_lib.Prelude.{ℕ, zero, suc, String, Bool, true, false, List, ◌∷◌, Bytes, Option, none, some}
use acme_lib.Crates.{Crates, Request}
use acme_lib.Outcome.{Outcome, ok, err, panic, out_of_fuel}
use acme_lib.Persist.{Persist, PersistKey}

-- `NoncePool` of src/trans.rs.
pub record NoncePool : Type 0 where
  pub nonce_url : String
  pub pool : List String

-- What an observer sees, kept for the statements: requests with their responses, and waits.
pub data Event (C : Crates) : Type 0 where
  exchange : Request → C.Response → Event C
  slept : ℕ → Event C

-- Pools are reached by number, as an `Arc<NoncePool>` is by address. The newest event is first.
pub record World (C : Crates) (P : Persist C) : Type 0 where
  pub net : C.Net
  pub entropy : C.Entropy
  pub pools : ℕ → NoncePool
  pub next_pool : ℕ
  pub store : P.Store
  pub trace : List (Event C)

abbrev pub Act : (C : Crates) → Persist C → Type 0 → Type 0
Act C P A = World C P → Outcome C A × World C P

module _ {C : Crates} {P : Persist C} {A : Type 0} where
  -- The effects before an error or a panic stay.
  unfoldable pub lift : Outcome C A → Act C P A
  lift r w = (r, w)

  unfoldable pub pure : A → Act C P A
  pure a w = (ok a, w)

module _ {C : Crates} {P : Persist C} {A B : Type 0} where
  abbrev pub continue : Outcome C A → (A → Act C P B) → Act C P B
  continue (ok a) f w = f a w
  continue (err e) f w = (err e, w)
  continue (panic s) f w = (panic s, w)
  continue out_of_fuel f w = (out_of_fuel, w)

  infixl 5 ◌>>=◌ ◌>>◌
  -- Opening this opens `lift` and `pure` too.
  unfoldable pub ◌>>=◌ : Act C P A → (A → Act C P B) → Act C P B
  unfolding lift pure
  ◌>>=◌ m f w = let (r, w') = m w in continue r f w'

  abbrev pub ◌>>◌ : Act C P A → Act C P B → Act C P B
  m >> n = m >>= λ _. n

module _ {C : Crates} {P : Persist C} where
  unfoldable pub put : PersistKey → Bytes → Act C P Unit
  put k v w = let (r, s) = P.put k v w.store in (r, record w { store = s })

  unfoldable pub get : PersistKey → Act C P (Option Bytes)
  get k w = let (r, s) = P.get k w.store in (r, record w { store = s })

  -- A step of a crate that draws random numbers.
  unfoldable pub draw : {A : Type 0} → (C.Entropy → A × C.Entropy) → Act C P A
  draw f w = let (a, e) = f w.entropy in (ok a, record w { entropy = e })

module _ {C : Crates} {P : Persist C} {A : Type 0} where
  abbrev pub again : Option A → Act C P A → Act C P A
  again (some a) k w = (ok a, w)
  again none k w = k w

  -- A loop whose body goes on by `none` and ends by `some`, by an error or by a panic.
  unfoldable pub repeat : ℕ → Act C P (Option A) → Act C P A
  repeat zero body w = (out_of_fuel, w)
  repeat (suc fuel) body w = (body >>= λ o. again o (repeat fuel body)) w

-- `thread::sleep(Duration::from_millis(…))`
unfoldable pub sleep : {C : Crates} {P : Persist C} → ℕ → Act C P Unit
sleep millis w = (ok tt, record w { trace = slept millis ∷ w.trace })

module _ {C : Crates} {P : Persist C} {A : Type 0} where
  -- The end of a round of polling: wait and go on, or break with the value.
  abbrev pub wait_if : Bool → ℕ → A → Act C P (Option A)
  wait_if true delay_millis a = do sleep delay_millis; pure none
  wait_if false delay_millis a = pure (some a)
