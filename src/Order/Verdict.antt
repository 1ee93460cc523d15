-- ===== src/Order/Verdict.antt =====
-- On the end of `Challenge::validate` in src/order/auth.rs.
use acme_lib.Prelude.{
  ◌≡◌, refl, ap, ◌<>◌, true, false, none, some, List, [], ◌∷◌, ◌++◌, ◌⊎◌, inl, inr, unwrap_or,
  Option-cases, Bool-cases,
}
use acme_lib.Api.{ApiProblem, ApiAuth, ApiChallenge, is_auth_valid}
use acme_lib.Crates.{Crates}
use acme_lib.Outcome.{ok, err, other}
use acme_lib.Order.Auth.{first_error, accept_if_valid}

abbrev pub HasNoError : List ApiChallenge → Type 0
HasNoError [] = Unit
HasNoError (c ∷ cs) = (c.error ≡ none) × HasNoError cs

-- The problem of the first challenge that has one.
abbrev pub IsFirstError : List ApiChallenge → ApiProblem → Type 0
IsFirstError cs e =
    (before : List ApiChallenge) × (c : ApiChallenge) × (after : List ApiChallenge) × (cs
      ≡ before ++ c ∷ after)
    × HasNoError before
    × (c.error ≡ some e)

first_error-cases :
    (cs : List ApiChallenge)
    → ((first_error cs ≡ none) × HasNoError cs)
      ⊎ ((e : ApiProblem) × (first_error cs ≡ some e) × IsFirstError cs e)
first_error-cases [] = inl (refl, tt)
first_error-cases (c ∷ cs) = elim (Option-cases c.error) [
  | inr (e, has) ↦ inr (e, rw has refl, ([], c, cs, refl, tt, has))
  | inl lacks ↦ elim (first_error-cases cs) [
    | inl (p, q) ↦ inl (rw lacks p, (lacks, q))
    | inr (e, p, (before, d, after, q, r, has)) ↦
        inr (e, rw lacks p, (c ∷ before, d, after, ap (λ l. c ∷ l) q, (lacks, r), has))
  ]
]

-- A valid authorization ends the validation well. Any other ends it by an error, which has the detail,
-- or else the type, of the problem of the first challenge that has a problem, or says that there is none.
pub accept_if_valid-cases :
    {C : Crates} (a : ApiAuth)
    → ((is_auth_valid a ≡ true) × (accept_if_valid {C = C} a ≡ ok tt))
      ⊎ ((is_auth_valid a ≡ false)
          × (e : ApiProblem) × IsFirstError a.challenges e
          × (accept_if_valid {C = C} a ≡ err (other ("Failed: " <> unwrap_or e.detail e.type))))
      ⊎ ((is_auth_valid a ≡ false)
          × HasNoError a.challenges
          × (accept_if_valid {C = C} a ≡ err (other "Validation failed and no error found")))
unfolding accept_if_valid
accept_if_valid-cases a = elim (Bool-cases (is_auth_valid a)) [
  | inl valid ↦ inl (valid, rw valid refl)
  | inr refused ↦ elim (first_error-cases a.challenges) [
    | inl (p, q) ↦ inr (inr (refused, q, rw refused (rw p refl)))
    | inr (e, p, first) ↦ inr (inl (refused, e, first, rw refused (rw p refl)))
  ]
]
