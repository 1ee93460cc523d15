-- ===== src/Trans/Retry.antt =====
-- On the loop of `do_call` in src/trans.rs: what it returns and what it retries.
use acme_lib.Outcome.{
  out_of_fuel, panic, Error, Outcome, ok, err, api_problem, or_json, or_problem, expect, map_ok,
  ◌>>=ᵒ◌,
}
use acme_lib.Prelude.{
  ℕ, ◌≡◌, ◌↔◌, refl, ap, subst, if◌then◌else◌, String, Bool, true, false, ◌||◌, eq_iff, ◌⊎◌, inl,
  inr, Option, none, some, List, [], ◌∷◌, arith,
}
use mathlib.Core.Option.{some-injective}
use acme_lib.Json.{Json}
use acme_lib.Api.{ApiProblem, detail_is, is_bad_nonce, is_jwt_verification_error}
use acme_lib.Crates.{Crates, Request}
use acme_lib.Persist.{Persist}
use acme_lib.World.{World, Act, draw}
use acme_lib.World.Values.{
  Returns, Raises, Found, Returns-bind, Returns-lift, Returns-repeat, Raises-bind, Raises-lift,
  Raises-repeat,
}
use acme_lib.Req.{send, problem_of, req_handle_error, req_expect_header, header_or_problem}
use acme_lib.Acc.Key.{AcmeKey, key_id_of}
use acme_lib.Cert.Curve.{ec_group}
use acme_lib.Jwt.{JwsProtected, jwk_of}
use acme_lib.Trans.{
  Transport, judge, jws_with, jws_with_kid, jws_with_jwk, attempt, do_call, call, call_jwk,
}
use acme_lib.Trans.Pool.{take_nonce, fetch_nonce, get_nonce, add_nonce, extract_nonce}

-- The test of the loop.
abbrev pub is_retried : ApiProblem → Bool
is_retried p = is_bad_nonce p || is_jwt_verification_error p

-- A problem that the loop would have retried does not come out as the error.
abbrev pub IsFinal : {C : Crates} → Error C → Type 0
IsFinal (api_problem p) = is_retried p ≡ false
IsFinal _ = Unit

err-injective :
    {C : Crates} {A : Type 0} {x y : Error C} → ◌≡◌ {A = Outcome C A} (err x) (err y) → x ≡ y
err-injective h = cc

-- What `do_call` hands on is the response that came.
pub judge-eq-some :
    {C : Crates} (res : C.Response) {found : C.Response}
    → judge C (req_handle_error C res) ≡ ok (some found)
    → found ≡ res
unfolding judge req_handle_error
judge-eq-some res h = ground arith

pub judge-eq-ok :
    {C : Crates} (res : C.Response) {found : C.Response}
    → judge C (req_handle_error C res) ≡ ok (some found)
    → C.is_ok found ≡ true
unfolding judge req_handle_error
judge-eq-ok res h = ground arith

judge-eq-err :
    {C : Crates} (r : ApiProblem ⊎ C.Response) (e : Error C) → judge C r ≡ err e → IsFinal e
unfolding judge
judge-eq-err (inr res) e h = cc
judge-eq-err (inl p) (api_problem q) h = ground arith
judge-eq-err (inl p) _ h = tt

or_json-IsFinal :
    {C : Crates} {A : Type 0} (r : C.JsonError ⊎ A) (e : Error C)
    → ◌≡◌ {A = Outcome C A} (or_json r) (err e)
    → IsFinal e
or_json-IsFinal (inr a) e h = absurd (ground arith)
or_json-IsFinal (inl j) e h = subst IsFinal (err-injective h) tt

expect-IsFinal :
    {C : Crates} {A : Type 0} (s : String) (o : Option A) (e : Error C)
    → ◌≡◌ {A = Outcome C A} (expect s o) (err e)
    → IsFinal e
expect-IsFinal s none e h = cc
expect-IsFinal s (some a) e h = cc

-- A header that is missing makes no problem that is retried: its type begins with `M`.
header-IsFinal :
    {C : Crates} (res : C.Response) (e : Error C)
    → ◌≡◌ {A = Outcome C String} (or_problem (req_expect_header C res "replay-nonce")) (err e)
    → IsFinal e
unfolding req_expect_header is_bad_nonce is_jwt_verification_error
header-IsFinal {C} res e h = of_header (C.header res "replay-nonce") h
  where
    of_header :
        (o : Option String)
        → ◌≡◌ {A = Outcome C String} (or_problem (header_or_problem C "replay-nonce" o)) (err e)
        → IsFinal e
    of_header (some v) h = cc
    of_header none h = subst IsFinal (err-injective h) refl

>>=ᵒ-IsFinal :
    {C : Crates} {A B : Type 0} (o : Outcome C A) (f : A → Outcome C B)
    → ((e : Error C) → o ≡ err e → IsFinal e)
    → ((a : A) (e : Error C) → f a ≡ err e → IsFinal e)
    → (e : Error C) → (o >>=ᵒ f) ≡ err e
    → IsFinal e
>>=ᵒ-IsFinal (ok a) f h k e p = k a e p
>>=ᵒ-IsFinal (err x) f h k e p = subst IsFinal (err-injective p) (h x refl)
>>=ᵒ-IsFinal (panic s) f h k e p = cc
>>=ᵒ-IsFinal out_of_fuel f h k e p = cc

map_ok-IsFinal :
    {C : Crates} {A B : Type 0} (f : A → B) (o : Outcome C A)
    → ((e : Error C) → o ≡ err e → IsFinal e)
    → (e : Error C) → map_ok f o ≡ err e
    → IsFinal e
map_ok-IsFinal f (ok a) h e p = cc
map_ok-IsFinal f (err x) h e p = subst IsFinal (err-injective p) (h x refl)
map_ok-IsFinal f (panic s) h e p = cc
map_ok-IsFinal f out_of_fuel h e p = cc

jwk-IsFinal : {C : Crates} (k : AcmeKey C) (e : Error C) → jwk_of C k ≡ err e → IsFinal e
unfolding jwk_of ec_group
jwk-IsFinal {C} k =
    >>=ᵒ-IsFinal (ec_group C C.x9_62_prime256v1) _
      (map_ok-IsFinal C.set_named_curve _ (expect-IsFinal "EcGroup" (C.from_curve_name _)))
      λ group. map_ok-IsFinal _ _ (
        expect-IsFinal "affine_coordinates_gfp"
          (C.affine_coordinates (C.public_key k.private_key) group))

module _ {C : Crates} {P : Persist C} where
  draw-Raises : {A : Type 0} (f : C.Entropy → A × C.Entropy) → Raises {P = P} IsFinal (draw f)
  unfolding draw
  draw-Raises f = record { at = λ w e p. cc }

  send-Raises : (req : Request) → Raises {P = P} IsFinal (send req)
  unfolding send
  send-Raises req = record { at = λ w e p. cc }

  extract_nonce-Raises : (p : ℕ) (res : C.Response) → Raises {P = P} IsFinal (extract_nonce p res)
  unfolding extract_nonce
  extract_nonce-Raises p res = record { at = λ w. adds w (C.header res "replay-nonce") }
    where
      adds :
          (w : World C P) (o : Option String) (e : Error C)
          → (add_nonce p o w).0 ≡ err e
          → IsFinal e
      adds w none e h = cc
      adds w (some n) e h = cc

  get_nonce-Raises : (p : ℕ) → Raises {P = P} IsFinal (get_nonce p)
  unfolding get_nonce fetch_nonce
  get_nonce-Raises p = record { at = λ w. take w (w.pools p).pool }
    where
      take :
          (w : World C P) (pool : List String) (e : Error C)
          → (take_nonce p pool w).0 ≡ err e
          → IsFinal e
      take w (n ∷ rest) e h = cc
      take w [] e h =
          (Raises-bind (send-Raises _) (λ res. Raises-lift _ (header-IsFinal res))).at w e h

  jws_with-Raises :
      (h : JwsProtected) (k : AcmeKey C) (b : Json) → Raises {P = P} IsFinal (jws_with h k b)
  unfolding jws_with
  jws_with-Raises h k b = Raises-bind (Raises-lift _ (or_json-IsFinal _)) λ pro_json.
      Raises-bind (Raises-lift _ (or_json-IsFinal _)) λ pay_json.
        Raises-bind (draw-Raises _) λ signed.
          Raises-bind (Raises-lift _ (expect-IsFinal _ signed))
            λ (r, s). Raises-lift _ (or_json-IsFinal _)

  jws_with_kid-Raises :
      (url nonce : String) (k : AcmeKey C) (b : Json)
      → Raises {P = P} IsFinal (jws_with_kid url nonce k b)
  unfolding jws_with_kid key_id_of
  jws_with_kid-Raises url nonce k b =
      Raises-bind (Raises-lift _ (expect-IsFinal _ k.key_id)) λ kid. jws_with-Raises _ k b

  jws_with_jwk-Raises :
      (url nonce : String) (k : AcmeKey C) (b : Json)
      → Raises {P = P} IsFinal (jws_with_jwk url nonce k b)
  unfolding jws_with_jwk
  jws_with_jwk-Raises url nonce k b =
      Raises-bind (Raises-lift _ (jwk-IsFinal k)) λ jwk. jws_with-Raises _ k b

  module _ (t : Transport C) (url : String) (b : Json) (fuel : ℕ)
      (make_body : String → String → AcmeKey C → Json → Act C P String) where
    do_call-Raises :
        ((nonce : String) → Raises IsFinal (make_body url nonce t.acme_key b))
        → Raises IsFinal (do_call t url b fuel make_body)
    unfolding do_call attempt
    do_call-Raises h = Raises-repeat fuel _ (
        Raises-bind (get_nonce-Raises t.nonce_pool) λ nonce. Raises-bind (h nonce) λ signed.
          Raises-bind (send-Raises _) λ res.
            Raises-bind (extract_nonce-Raises t.nonce_pool res)
              λ _. Raises-lift _ (judge-eq-err (req_handle_error C res)))

    do_call-Returns : Returns (λ res. C.is_ok res ≡ true) (do_call t url b fuel make_body)
    unfolding do_call attempt
    do_call-Returns = Returns-repeat fuel _ (
        Returns-bind _ λ nonce.
          Returns-bind _
            λ signed. Returns-bind _ λ res. Returns-bind _ λ _. Returns-lift _ (judge_found res))
      where
        judge_found :
            (res : C.Response) (o : Option C.Response)
            → judge C (req_handle_error C res) ≡ ok o
            → Found (λ r. C.is_ok r ≡ true) o
        judge_found res none h = tt
        judge_found res (some found) h = judge-eq-ok res h

-- Of a signed request, with the key id or with the whole key and with any fuel: a response that is
-- returned is ok, and an error that is returned is no problem that the loop retries.
pub call_outcomes :
    {C : Crates} {P : Persist C} (t : Transport C) (url : String) (b : Json) (fuel : ℕ)
    (w : World C P)
    → ((res : C.Response) → (call t url b fuel w).0 ≡ ok res → C.is_ok res ≡ true)
      × ((e : Error C) → (call t url b fuel w).0 ≡ err e → IsFinal e)
      × ((res : C.Response) → (call_jwk t url b fuel w).0 ≡ ok res → C.is_ok res ≡ true)
      × ((e : Error C) → (call_jwk t url b fuel w).0 ≡ err e → IsFinal e)
unfolding call call_jwk
call_outcomes t url b fuel w = (
  (do_call-Returns t url b fuel jws_with_kid).at w,
  (do_call-Raises t url b fuel jws_with_kid
        (λ nonce. jws_with_kid-Raises url nonce t.acme_key b)).at
      w,
  (do_call-Returns t url b fuel jws_with_jwk).at w,
  (do_call-Raises t url b fuel jws_with_jwk
        (λ nonce. jws_with_jwk-Raises url nonce t.acme_key b)).at
      w,
)

detail_iff :
    (o : Option String)
    → (detail_is "JWS verification error" o ≡ true) ↔ (o ≡ some "JWS verification error")
detail_iff none = (λ h. absurd (ground arith), λ h. absurd (ground arith))
detail_iff (some s) = (
  λ h. ap some ((eq_iff s "JWS verification error").0 h),
  λ h. (eq_iff s "JWS verification error").1 (some-injective s "JWS verification error" h),
)

-- A response leads to another round exactly if it is not ok and its problem has the type `badNonce`,
-- or the type `urn:acme:error:malformed` with the detail `JWS verification error`.
pub retries_exactly :
    {C : Crates} (res : C.Response)
    → (judge C (req_handle_error C res) ≡ ok none) ↔ (
        (C.is_ok res ≡ false)
        × (((problem_of C res).type ≡ "badNonce")
            ⊎ (((problem_of C res).type ≡ "urn:acme:error:malformed")
                × ((problem_of C res).detail ≡ some "JWS verification error"))))
unfolding judge req_handle_error is_bad_nonce is_jwt_verification_error
retries_exactly {C} res = by_cases (problem_of C res)
  where
    by_cases :
        (p : ApiProblem)
        → (judge C (if C.is_ok res then inr res else inl p) ≡ ok none) ↔ (
            (C.is_ok res ≡ false)
            × ((p.type ≡ "badNonce")
                ⊎ ((p.type ≡ "urn:acme:error:malformed")
                    × (p.detail ≡ some "JWS verification error"))))
    by_cases p = (
      ground (
        arith,
        eq_iff p.type "badNonce",
        eq_iff p.type "urn:acme:error:malformed",
        detail_iff p.detail,
      ),
      ground (
        arith,
        eq_iff p.type "badNonce",
        eq_iff p.type "urn:acme:error:malformed",
        detail_iff p.detail,
      ),
    )
