-- ===== src/Client/Termination/Calls.antt =====
-- Lemmas on fuel: nonces and signed requests (src/trans.rs).
use acme_lib.Client.Frame.{quiet_of, Basics, get_nonce-Keeps}
use acme_lib.Outcome.{
  panic, Outcome, ok, out_of_fuel, or_json, or_problem, expect, err, map_ok, ◌>>=ᵒ◌,
}
use acme_lib.Prelude.{
  ℕ, ◌<◌, ◌≡◌, ◌≢◌, refl, subst, String, ◌⊎◌, Option, none, some, List, [], ◌∷◌, arith,
}
use acme_lib.Json.{Json}
use acme_lib.Api.{ApiProblem}
use acme_lib.Crates.{Crates, Request}
use acme_lib.Persist.{Persist}
use acme_lib.World.{World, Act, get, put, draw, sleep}
use acme_lib.World.Keeps.{Keeps, Keeps-bind, Keeps-lift}
use acme_lib.World.Values.{Found, Returns-bind, Returns-lift}
use acme_lib.World.Ends.{
  Under, Ends, Spends, Ends-lift, Ends-bind, Ends-repeat, Spends-first, Spends-rest, Spends-repeat,
}
use acme_lib.Req.{send, post_request, req_post, req_expect_header, req_handle_error, read_json}
use acme_lib.Acc.Key.{AcmeKey, key_id_of}
use acme_lib.Jwt.{JwsProtected, jwk_of}
use acme_lib.Trans.{
  Transport, judge, jws_with, jws_with_kid, jws_with_jwk, attempt, do_call, call, call_jwk,
}
use acme_lib.Cert.Curve.{ec_group}
use acme_lib.Trans.Retry.{judge-eq-some}
use acme_lib.Trans.Pool.{add_nonce, take_nonce, fetch_nonce, get_nonce, extract_nonce}
use acme_lib.Dir.{alloc_pool}
use acme_lib.Client.Patience.{IsPatient}

-- A conversion of a crate's result does not run out of fuel.
module _ {C : Crates} {A : Type 0} where
  pub or_json-settles : (r : C.JsonError ⊎ A) → ◌≢◌ {A = Outcome C A} (or_json r) out_of_fuel
  or_json-settles r = ground arith

  pub or_problem-settles : (r : ApiProblem ⊎ A) → ◌≢◌ {A = Outcome C A} (or_problem r) out_of_fuel
  or_problem-settles r = ground arith

  pub expect-settles : (s : String) (o : Option A) → ◌≢◌ {A = Outcome C A} (expect s o) out_of_fuel
  expect-settles s o = ground arith

pub >>=ᵒ-settles :
    {C : Crates} {A B : Type 0} (o : Outcome C A) (f : A → Outcome C B)
    → o ≢ out_of_fuel
    → ((a : A) → f a ≢ out_of_fuel)
    → (o >>=ᵒ f) ≢ out_of_fuel
>>=ᵒ-settles (ok a) f h k e = k a e
>>=ᵒ-settles (err x) f h k e = cc
>>=ᵒ-settles (panic s) f h k e = cc
>>=ᵒ-settles out_of_fuel f h k e = h refl

pub map_ok-settles :
    {C : Crates} {A B : Type 0} (f : A → B) (o : Outcome C A)
    → o ≢ out_of_fuel
    → map_ok f o ≢ out_of_fuel
map_ok-settles f (ok a) h e = cc
map_ok-settles f (err x) h e = cc
map_ok-settles f (panic s) h e = cc
map_ok-settles f out_of_fuel h e = h refl

pub ec_group-settles : {C : Crates} (nid : C.Nid) → ec_group C nid ≢ out_of_fuel
unfolding ec_group
ec_group-settles {C} nid =
    map_ok-settles C.set_named_curve _ (expect-settles "EcGroup" (C.from_curve_name nid))

pub read_json-settles :
    {C : Crates} {A : Type 0} (from_str : String → C.JsonError ⊎ A) (res : C.Response)
    → read_json C from_str res ≢ out_of_fuel
unfolding read_json
read_json-settles from_str res = ground arith

pub jwk_of-settles : {C : Crates} (k : AcmeKey C) → jwk_of C k ≢ out_of_fuel
unfolding jwk_of
jwk_of-settles k =
    >>=ᵒ-settles _ _ (ec_group-settles _) λ group. map_ok-settles _ _ (expect-settles _ _)

judge-settles : {C : Crates} (r : ApiProblem ⊎ C.Response) → judge C r ≢ out_of_fuel
unfolding judge
judge-settles r = ground arith

module _ {C : Crates} {P : Persist C} (rank : C.Net → ℕ) (patient : IsPatient C rank) where
  -- The rank of a world is that of its network.
  abbrev pub rank_of : World C P → ℕ
  rank_of w = rank w.net

  add_nonce-level : (k p : ℕ) (o : Option String) → Keeps {P = P} (Under rank_of k) (add_nonce p o)
  add_nonce-level k p none = record { at = λ w h. h }
  add_nonce-level k p (some n) = record { at = λ w h. h }

  send-level : (k : ℕ) (req : Request) → Keeps {P = P} (Under rank_of k) (send req)
  unfolding send
  send-level k req = record { at = λ w h. omega (arith, patient.never_rises req w.net) }

  pub level_basics : (k : ℕ) → Basics {P = P} (Under rank_of k)
  unfolding sleep get put draw alloc_pool extract_nonce
  level_basics k = record {
    basic_get = λ url. send-level k _;
    basic_head = λ url. send-level k _;
    basic_post = λ url text signed. send-level k _;
    basic_sleep = λ millis. record { at = λ w h. h };
    basic_load = λ key. record { at = λ w h. h };
    basic_store = λ key v. record { at = λ w h. h };
    basic_draw = λ A f. record { at = λ w h. h };
    basic_extract = λ p res. add_nonce-level k p (C.header res "replay-nonce");
    basic_pop = λ p nonce rest w e h. h;
    basic_alloc = λ url. record { at = λ w h. h };
  }

  pub draw-Ends : (n : ℕ) {A : Type 0} (f : C.Entropy → A × C.Entropy) → Ends rank_of n (draw f)
  unfolding draw
  draw-Ends n {A} f = record { settles = λ w h p. cc; level = λ k. (level_basics k).basic_draw A f }

  pub send-Ends : (n : ℕ) (req : Request) → Ends rank_of n (send req)
  unfolding send
  send-Ends n req = record { settles = λ w h p. cc; level = λ k. send-level k req }

  get_nonce-Ends : (n p : ℕ) → Ends rank_of n (get_nonce p)
  unfolding get_nonce fetch_nonce
  get_nonce-Ends n p = record {
    settles = λ w h. take (w.pools p).pool w h;
    level = λ k. get_nonce-Keeps (quiet_of (level_basics k)) p;
  }
    where
      take :
          (pool : List String) (w : World C P)
          → rank_of w < n
          → (take_nonce p pool w).0 ≢ out_of_fuel
      take (nonce ∷ rest) w h = λ q. cc
      take [] w h =
          (Ends-bind rank_of n (send-Ends n _) (λ res.
              Ends-lift rank_of n _
                (or_problem-settles (req_expect_header C res "replay-nonce")))).settles
            w h

  jws_with-Ends :
      (n : ℕ) (h : JwsProtected) (k : AcmeKey C) (b : Json) → Ends rank_of n (jws_with h k b)
  unfolding jws_with
  jws_with-Ends n h k b =
      search (Ends-bind, Ends-lift, draw-Ends, or_json-settles, expect-settles) depth 14

  pub jws_with_kid-Ends :
      (n : ℕ) (url nonce : String) (k : AcmeKey C) (b : Json)
      → Ends rank_of n (jws_with_kid url nonce k b)
  unfolding jws_with_kid key_id_of
  jws_with_kid-Ends n url nonce k b =
      search (Ends-bind, Ends-lift, jws_with-Ends, expect-settles) depth 14

  jws_with_jwk-Ends :
      (n : ℕ) (url nonce : String) (k : AcmeKey C) (b : Json)
      → Ends rank_of n (jws_with_jwk url nonce k b)
  unfolding jws_with_jwk
  jws_with_jwk-Ends n url nonce k b =
      search (Ends-bind, Ends-lift, jws_with-Ends, jwk_of-settles) depth 14

  pub extract_nonce-Ends : (n p : ℕ) (res : C.Response) → Ends rank_of n (extract_nonce p res)
  unfolding extract_nonce
  extract_nonce-Ends n p res = record {
    settles = λ w h. adds (C.header res "replay-nonce") w;
    level = λ k. add_nonce-level k p (C.header res "replay-nonce");
  }
    where
      adds : (o : Option String) (w : World C P) → (add_nonce p o w).0 ≢ out_of_fuel
      adds none w = λ q. cc
      adds (some m) w = λ q. cc

  module _ (t : Transport C) (url : String) (b : Json)
      (make_body : String → String → AcmeKey C → Json → Act C P String)
      (ends : (n : ℕ) (nonce : String) → Ends rank_of n (make_body url nonce t.acme_key b)) where
    attempt-Ends : (n : ℕ) → Ends rank_of n (attempt t url b make_body)
    unfolding attempt
    attempt-Ends n = Ends-bind rank_of n (get_nonce-Ends n t.nonce_pool) λ nonce.
        Ends-bind rank_of n (ends n nonce) λ signed.
          Ends-bind rank_of n (send-Ends n (post_request url signed)) λ res.
            Ends-bind rank_of n (extract_nonce-Ends n t.nonce_pool res)
              λ _. Ends-lift rank_of n _ (judge-settles (req_handle_error C res))

    module _ (D : C.Response → Type 0)
        (costs : (text : String) (net : C.Net)
          → D (C.call_request (post_request url text) net).0
          → rank (C.call_request (post_request url text) net).1 < rank net) where
      -- The round goes on, or ends with a response in `D`.
      abbrev Unwanted : C.Response → Type 0
      Unwanted res = (o : Option C.Response) × (judge C (req_handle_error C res) ≡ ok o) × Found D o

      Unwanted-costs :
          (text : String) (net : C.Net)
          → Unwanted (C.call_request (post_request url text) net).0
          → rank (C.call_request (post_request url text) net).1 < rank net
      Unwanted-costs text net (none, j, d) = patient.retry_costs url text net j
      Unwanted-costs text net (some found, j, d) = costs text net (subst D (judge-eq-some _ j) d)

      send-Spends : (text : String) → Spends rank_of Unwanted (req_post url text)
      unfolding send
      send-Spends text = record {
        cost = λ w res e u. Unwanted-costs text w.net (subst Unwanted (same e) u);
      }
        where
          same : {x y : C.Response} → ◌≡◌ {A = Outcome C C.Response} (ok x) (ok y) → y ≡ x
          same e = cc

      pub attempt-Spends : Spends rank_of (Found D) (attempt t url b make_body)
      unfolding attempt
      attempt-Spends =
          Spends-rest rank_of (Found D) (λ k. (get_nonce-Ends 0 t.nonce_pool).level k)
            λ nonce.
              Spends-rest rank_of (Found D) (λ k. (ends 0 nonce).level k)
                λ signed.
                  Spends-first rank_of Unwanted (Found D) (send-Spends signed)
                    (λ k res.
                      Keeps-bind ((extract_nonce-Ends 0 t.nonce_pool res).level k)
                        λ _. Keeps-lift _)
                    (λ res.
                      Returns-bind (extract_nonce t.nonce_pool res)
                        λ _. Returns-lift _ (λ o j d. (o, j, d)))

    do_call-Ends : (n : ℕ) → Ends rank_of n (do_call t url b n make_body)
    unfolding do_call
    do_call-Ends n = Ends-repeat rank_of n n refl (attempt-Ends n) (record { cost = again_costs })
      where
        none_found : (o : Option C.Response) → o ≡ none → Found (λ _. ⊥) o
        none_found none e = tt
        none_found (some a) e = cc

        again_costs :
            (w : World C P) (o : Option C.Response)
            → (attempt t url b make_body w).0 ≡ ok o
            → o ≡ none
            → rank_of (attempt t url b make_body w).1 < rank_of w
        again_costs w o e q =
            (attempt-Spends (λ _. ⊥) (λ text net d. absurd d)).cost w o e (none_found o q)

    do_call-Spends :
        (n : ℕ) (D : C.Response → Type 0)
        → ((text : String) (net : C.Net)
            → D (C.call_request (post_request url text) net).0
            → rank (C.call_request (post_request url text) net).1 < rank net)
        → Spends rank_of D (do_call t url b n make_body)
    unfolding do_call
    do_call-Spends n D costs =
        Spends-repeat rank_of D n (λ k. (attempt-Ends 0).level k) (attempt-Spends D costs)

  pub call-Ends :
      (n : ℕ) (t : Transport C) (url : String) (b : Json) → Ends rank_of n (call t url b n)
  unfolding call
  call-Ends n t url b =
      do_call-Ends t url b jws_with_kid (λ k nonce. jws_with_kid-Ends k url nonce t.acme_key b) n

  pub call_jwk-Ends :
      (n : ℕ) (t : Transport C) (url : String) (b : Json) → Ends rank_of n (call_jwk t url b n)
  unfolding call_jwk
  call_jwk-Ends n t url b =
      do_call-Ends t url b jws_with_jwk (λ k nonce. jws_with_jwk-Ends k url nonce t.acme_key b) n

  -- A response in `D` has cost the network some of its rank.
  pub call-Spends :
      (n : ℕ) (t : Transport C) (url : String) (b : Json) (D : C.Response → Type 0)
      → ((text : String) (net : C.Net)
          → D (C.call_request (post_request url text) net).0
          → rank (C.call_request (post_request url text) net).1 < rank net)
      → Spends rank_of D (call t url b n)
  unfolding call
  call-Spends n t url b D costs =
      do_call-Spends t url b jws_with_kid (λ k nonce. jws_with_kid-Ends k url nonce t.acme_key b) n
        D costs
