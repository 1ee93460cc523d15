-- ===== src/Outcome.antt =====
-- `Error` and `Result` of src/error.rs. An outcome is also a panic (`expect`, `unwrap`, an index out
-- of bounds), or that the fuel of a loop ran out, which stands for a loop that goes on.
use acme_lib.Prelude.{refl, String, ◌≡◌, ◌⊎◌, inl, inr, Option, none, some}
use acme_lib.Api.{ApiProblem, problem_display}
use acme_lib.Crates.{Crates}

pub data Error (C : Crates) : Type 0 where
  api_problem : ApiProblem → Error C
  call : String → Error C
  base64_decode : C.DecodeError → Error C
  json : C.JsonError → Error C
  io : C.IoError → Error C
  other : String → Error C

pub data Outcome (C : Crates) (A : Type 0) : Type 0 where
  ok : A → Outcome C A
  err : Error C → Outcome C A
  panic : String → Outcome C A
  out_of_fuel : Outcome C A

module _ {C : Crates} {A : Type 0} where
  -- `?` on the results of the crates, by the `From` of each error
  abbrev pub or_json : C.JsonError ⊎ A → Outcome C A
  or_json (inl e) = err (json e)
  or_json (inr a) = ok a

  abbrev pub or_io : C.IoError ⊎ A → Outcome C A
  or_io (inl e) = err (io e)
  or_io (inr a) = ok a

  abbrev pub or_problem : ApiProblem ⊎ A → Outcome C A
  or_problem (inl p) = err (api_problem p)
  or_problem (inr a) = ok a

  -- `map_err(|e| format!(…))?`, a string that becomes `Error::Other`
  abbrev pub or_other : (C.SslError → String) → C.SslError ⊎ A → Outcome C A
  or_other f (inl e) = err (other (f e))
  or_other f (inr a) = ok a

  abbrev pub expect : String → Option A → Outcome C A
  expect message none = panic message
  expect message (some a) = ok a

  -- `expect` on a result
  abbrev pub expect_ok : {E : Type 0} → String → E ⊎ A → Outcome C A
  expect_ok message (inl e) = panic message
  expect_ok message (inr a) = ok a

module _ {C : Crates} {A : Type 0} where
  pub ok-injective : {x y : A} → ◌≡◌ {A = Outcome C A} (ok x) (ok y) → x ≡ y
  ok-injective e = cc

  pub expect-eq-ok :
      (message : String) (o : Option A) {a : A} → expect {C = C} message o ≡ ok a → o ≡ some a
  expect-eq-ok message none e = cc
  expect-eq-ok message (some b) e = cc

infixl 5 ◌>>=ᵒ◌
abbrev pub ◌>>=ᵒ◌ : {C : Crates} {A B : Type 0} → Outcome C A → (A → Outcome C B) → Outcome C B
ok a >>=ᵒ f = f a
err e >>=ᵒ f = err e
panic s >>=ᵒ f = panic s
out_of_fuel >>=ᵒ f = out_of_fuel

pub >>=ᵒ-eq-ok :
    {C : Crates} {A B : Type 0} (o : Outcome C A) (f : A → Outcome C B) {b : B}
    → (o >>=ᵒ f) ≡ ok b
    → (a : A) × (o ≡ ok a) × (f a ≡ ok b)
>>=ᵒ-eq-ok (ok a) f h = (a, refl, h)
>>=ᵒ-eq-ok (err e) f h = cc
>>=ᵒ-eq-ok (panic s) f h = cc
>>=ᵒ-eq-ok out_of_fuel f h = cc

abbrev pub map_ok : {C : Crates} {A B : Type 0} → (A → B) → Outcome C A → Outcome C B
map_ok f (ok a) = ok (f a)
map_ok f (err e) = err e
map_ok f (panic s) = panic s
map_ok f out_of_fuel = out_of_fuel

-- The `Display` of an error.
unfoldable pub error_display :
    {C : Crates} → (C.DecodeError → String) → (C.IoError → String) → Error C → String
unfolding problem_display
error_display {C} decode_display io_display e = elim e [
  | api_problem p ↦ problem_display p
  | call s ↦ s
  | base64_decode d ↦ decode_display d
  | json j ↦ C.json_error_display j
  | io i ↦ io_display i
  | other s ↦ s
]
