-- ===== src/Order/Typed.antt =====
-- On the marker types of challenges in src/order/auth.rs.
use acme_lib.Prelude.{
  ne-eq_false, ◌≡◌, refl, sym, ap, ◌∙◌, ◌≢◌, ◌↔◌, inl, inr, String, ◌==◌, eq_iff, true, false,
  Bool-cases, Option, none, some, List, [], ◌∷◌, ◌++◌, find,
}
use mathlib.Core.Option.{some-injective}
use acme_lib.Api.{ApiChallenge, find_http_challenge, find_dns_challenge}
use acme_lib.Crates.{Crates}
use acme_lib.Outcome.{Outcome, ok, expect, map_ok, ok-injective}
use acme_lib.Order.Auth.{Auth, Challenge, Marker, challenge_of, http_challenge, dns_challenge}

-- The type, in the protocol, of the challenges of a marker.
abbrev pub marker_type : Marker → String
marker_type Marker.http = "http-01"
marker_type Marker.dns = "dns-01"

-- The method that gives challenges of the marker.
abbrev pub challenge_for : {C : Crates} (A : Marker) → Auth C → Outcome C (Challenge C A)
challenge_for Marker.http a = http_challenge a
challenge_for Marker.dns a = dns_challenge a

abbrev NoneOf : String → List ApiChallenge → Type 0
NoneOf type [] = Unit
NoneOf type (c ∷ cs) = (c.type ≢ type) × NoneOf type cs

-- The first challenge of the type.
abbrev pub IsFirst : String → ApiChallenge → List ApiChallenge → Type 0
IsFirst type c cs =
    (before : List ApiChallenge) × (after : List ApiChallenge) × (cs ≡ before ++ (c ∷ after))
    × NoneOf type before
    × (c.type ≡ type)

find-IsFirst :
    (type : String) (cs : List ApiChallenge) (c : ApiChallenge)
    → find (λ (x : ApiChallenge). x.type == type) cs ≡ some c
    → IsFirst type c cs
find-IsFirst type [] c h = cc
find-IsFirst type (x ∷ xs) c h = elim (Bool-cases (x.type == type)) [
  | inl same ↦ at_front ((eq_iff x.type type).0 same) (some-injective x c (rw same at h))
  | inr other ↦
      further (λ e. differ other ((eq_iff x.type type).1 e))
        (find-IsFirst type xs c (rw other at h))
]
  where
    differ : (x.type == type) ≡ false → (x.type == type) ≡ true → ⊥
    differ p q = cc

    at_front : x.type ≡ type → x ≡ c → IsFirst type c (x ∷ xs)
    at_front t e = ([], xs, ap (λ y. y ∷ xs) e, tt, ap (λ (y : ApiChallenge). y.type) (sym e) ∙ t)

    further : x.type ≢ type → IsFirst type c xs → IsFirst type c (x ∷ xs)
    further ne (before, after, e, none_before, t) =
        (x ∷ before, after, ap (λ l. x ∷ l) e, (ne, none_before), t)

IsFirst-find :
    (type : String) (before after : List ApiChallenge) (c : ApiChallenge)
    → NoneOf type before
    → c.type ≡ type
    → find (λ (x : ApiChallenge). x.type == type) (before ++ (c ∷ after)) ≡ some c
IsFirst-find type [] after c h e = rw ((eq_iff c.type type).1 e) refl
IsFirst-find type (x ∷ before) after c (ne, h) e =
    rw (ne-eq_false x.type type ne) (IsFirst-find type before after c h e)

module _ {C : Crates} {A : Marker} (a : Auth C) (c : Challenge C A) where
  abbrev IsOf : Type 0
  IsOf = (c.inner ≡ a.inner) × (c.auth_url ≡ a.auth_url)

  found_iff :
      (message : String) (o : Option ApiChallenge)
      → (map_ok {C = C} (challenge_of a) (expect message o) ≡ ok c)
        ↔ ((o ≡ some c.api_challenge) × IsOf)
  found_iff message none = (λ h. cc, λ (h, k). cc)
  found_iff message (some x) = (
    λ h. taken (ok-injective {C = C} h),
    λ (h, k). ap ok (rebuilt (some-injective x c.api_challenge h) k),
  )
    where
      taken : ◌≡◌ {A = Challenge C A} (challenge_of a x) c → (some x ≡ some c.api_challenge) × IsOf
      taken e = (
        ap (λ (y : Challenge C A). some y.api_challenge) e,
        (
          ap (λ (y : Challenge C A). y.inner) (sym e),
          ap (λ (y : Challenge C A). y.auth_url) (sym e),
        ),
      )

      rebuilt : x ≡ c.api_challenge → IsOf → ◌≡◌ {A = Challenge C A} (challenge_of a x) c
      rebuilt e (f, g) = cc

  of_IsFirst :
      (type message : String) (o : Option ApiChallenge)
      → o ≡ find (λ (x : ApiChallenge). x.type == type) a.api_auth.challenges
      → (map_ok {C = C} (challenge_of a) (expect message o) ≡ ok c)
        ↔ (IsFirst type c.api_challenge a.api_auth.challenges × IsOf)
  of_IsFirst type message o e = (
    λ h.
        let (found, is_of) = (found_iff message o).0 h in
        (find-IsFirst type a.api_auth.challenges c.api_challenge (sym e ∙ found), is_of),
    λ ((before, after, split, none_before, t), is_of). (found_iff message o).1 (
      e
          ∙ ap (find (λ (x : ApiChallenge). x.type == type)) split
          ∙ IsFirst-find type before after c.api_challenge none_before t,
      is_of,
    ),
  )

-- The method for a marker gives a challenge exactly if it is the first of the marker's type in the
-- authorization, with the account and the URL of the authorization.
pub challenge_for_iff :
    {C : Crates} (A : Marker) (a : Auth C) (c : Challenge C A)
    → (challenge_for A a ≡ ok c) ↔ (
        IsFirst (marker_type A) c.api_challenge a.api_auth.challenges
        × (c.inner ≡ a.inner)
        × (c.auth_url ≡ a.auth_url))
unfolding http_challenge dns_challenge find_http_challenge find_dns_challenge
challenge_for_iff Marker.http a c =
    let (there, back) =
      of_IsFirst a c "http-01" "http-challenge" (find_http_challenge a.api_auth) refl in
    (λ h. let (first, of) = there h in (first, of.0, of.1), λ (first, f, g). back (first, (f, g)))
challenge_for_iff Marker.dns a c =
    let (there, back) =
      of_IsFirst a c "dns-01" "dns-challenge" (find_dns_challenge a.api_auth) refl in
    (λ h. let (first, of) = there h in (first, of.0, of.1), λ (first, f, g). back (first, (f, g)))
