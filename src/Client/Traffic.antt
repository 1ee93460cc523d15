-- ===== src/Client/Traffic.antt =====
-- On how many requests src/trans.rs and `validate` of src/order/auth.rs send.
use acme_lib.Prelude.{
  ℕ, ◌+◌, ◌*◌, ◌≤◌, ◌<◌, ◌≡◌, refl, String, Bool, true, false, Option, none, some, List, [], ◌∷◌,
  arith,
}
use acme_lib.Json.{Json}
use acme_lib.Api.{ApiAuth, is_auth_pending, empty_string_json, empty_object_json}
use acme_lib.Crates.{Crates, Request}
use acme_lib.Outcome.{ok}
use acme_lib.Persist.{Persist}
use acme_lib.World.{World, Event, exchange, slept, draw, sleep, wait_if, ◌>>=◌}
use acme_lib.World.Values.{Returns, Found, Returns-bind_of, Returns-lift}
use acme_lib.World.Pays.{
  Costs, Refunds, Costs-lift, Costs-bind, Costs-repeat, Refunds-first, Refunds-repeat,
}
use acme_lib.Req.{send, post_request, read_json}
use acme_lib.Acc.Key.{AcmeKey}
use acme_lib.Acc.Inner.{AccountInner}
use acme_lib.Jwt.{JwsProtected}
use acme_lib.Trans.{Transport, attempt, do_call, call, jws_with, jws_with_kid}
use acme_lib.Trans.Pool.{add_nonce, extract_nonce, take_nonce, fetch_nonce, get_nonce}
use acme_lib.Order.Auth.{Challenge, Marker, poll_auth, wait_for_auth_status, validate}
use acme_lib.Client.Patience.{IsPatient}
use acme_lib.Client.Termination.Calls.{jws_with_kid-Ends, attempt-Spends}
use acme_lib.Client.Termination.Polls.{DecodesPending, wait_if-Returns}

-- The requests in a trace.
abbrev pub exchanges : {C : Crates} → List (Event C) → ℕ
exchanges [] = 0
exchanges (exchange req res ∷ es) = exchanges es + 1
exchanges (slept millis ∷ es) = exchanges es

module _ {C : Crates} {P : Persist C} (rank : C.Net → ℕ)
    (never_rises : (req : Request) (net : C.Net) → rank (C.call_request req net).1 ≤ rank net) where
  -- The requests sent, and two for each answer that may still ask for more.
  abbrev spent : World C P → ℕ
  spent w = exchanges w.trace + 2 * rank w.net

  send-Costs : (req : Request) → Costs spent 1 (send req)
  unfolding send
  send-Costs req = record { at = λ w. omega (arith, never_rises req w.net) }

  get_nonce-Costs : (p : ℕ) → Costs spent 1 (get_nonce p)
  unfolding get_nonce fetch_nonce
  get_nonce-Costs p = record { at = λ w. take w (w.pools p).pool }
    where
      take : (w : World C P) (ns : List String) → spent (take_nonce p ns w).1 ≤ spent w + 1
      take w [] = (Costs-bind spent 1 0 (send-Costs _) (λ res. Costs-lift spent 0 _)).at w
      take w (n ∷ rest) = omega arith

  draw-Costs : {A : Type 0} (f : C.Entropy → A × C.Entropy) → Costs spent 0 (draw f)
  unfolding draw
  draw-Costs f = record { at = λ w. omega arith }

  jws_with-Costs : (h : JwsProtected) (k : AcmeKey C) (b : Json) → Costs spent 0 (jws_with h k b)
  unfolding jws_with
  jws_with-Costs h k b = Costs-bind spent 0 0 (Costs-lift spent 0 _) λ pro_json.
      Costs-bind spent 0 0 (Costs-lift spent 0 _) λ pay_json.
        Costs-bind spent 0 0 (draw-Costs _)
          λ signed. Costs-bind spent 0 0 (Costs-lift spent 0 _) λ (r, s). Costs-lift spent 0 _

  jws_with_kid-Costs :
      (url nonce : String) (k : AcmeKey C) (b : Json) → Costs spent 0 (jws_with_kid url nonce k b)
  unfolding jws_with_kid
  jws_with_kid-Costs url nonce k b =
      Costs-bind spent 0 0 (Costs-lift spent 0 _) λ kid. jws_with-Costs _ k b

  extract_nonce-Costs : (p : ℕ) (res : C.Response) → Costs spent 0 (extract_nonce p res)
  unfolding extract_nonce
  extract_nonce-Costs p res = record { at = λ w. adds w (C.header res "replay-nonce") }
    where
      adds : (w : World C P) (o : Option String) → spent (add_nonce p o w).1 ≤ spent w + 0
      adds w none = omega arith
      adds w (some n) = omega arith

  module _ (t : Transport C) (url : String) (b : Json) where
    attempt-Costs : Costs spent 2 (attempt t url b jws_with_kid)
    unfolding attempt
    attempt-Costs = Costs-bind spent 1 1 (get_nonce-Costs t.nonce_pool) λ nonce.
        Costs-bind spent 0 1 (jws_with_kid-Costs url nonce t.acme_key b) λ signed.
          Costs-bind spent 1 0 (send-Costs _) λ res.
            Costs-bind spent 0 0 (extract_nonce-Costs t.nonce_pool res) λ _. Costs-lift spent 0 _

module _ {C : Crates} {P : Persist C} (rank : C.Net → ℕ) (patient : IsPatient C rank) where
  abbrev used : World C P → ℕ
  used = spent rank patient.never_rises

  module _ (t : Transport C) (url : String) (b : Json) (D : C.Response → Type 0)
      (costs : (text : String) (net : C.Net)
        → D (C.call_request (post_request url text) net).0
        → rank (C.call_request (post_request url text) net).1 < rank net) where
    attempt-Refunds : Refunds used (Found D) (attempt t url b jws_with_kid)
    attempt-Refunds = record {
      at = λ w o e q. omega (
        arith,
        (attempt-Costs (λ net. 0) (λ req net. omega arith) t url b).at w,
        (attempt-Spends rank patient t url b jws_with_kid
              (λ k nonce. jws_with_kid-Ends rank patient k url nonce t.acme_key b) D costs).cost
            w o e q,
      );
    }

    call-Costs : (fuel : ℕ) → Costs used 2 (call t url b fuel)
    unfolding call do_call
    call-Costs fuel =
        Costs-repeat used 2 D fuel (attempt-Costs rank patient.never_rises t url b) attempt-Refunds

    call-Refunds : (fuel : ℕ) → Refunds used D (call t url b fuel)
    unfolding call do_call
    call-Refunds fuel = Refunds-repeat used D fuel attempt-Refunds

  wait_if-Costs :
      {A : Type 0} (b : Bool) (delay_millis : ℕ) (a : A) → Costs used 0 (wait_if b delay_millis a)
  unfolding sleep ◌>>=◌
  wait_if-Costs true delay_millis a = record { at = λ w. omega arith }
  wait_if-Costs false delay_millis a = record { at = λ w. omega arith }

  module _ (fuel : ℕ) (inner : AccountInner C) (url : String) (delay_millis : ℕ) where
    poll_auth-Costs : Costs used 2 (poll_auth fuel inner url delay_millis)
    unfolding poll_auth
    poll_auth-Costs =
        Costs-bind used 2 0
          (call-Costs inner.transport url empty_string_json (DecodesPending C)
            (λ text net (a, r, q). patient.pending_costs url text net a r q) fuel)
          λ res. Costs-bind used 0 0 (Costs-lift used 0 _) λ auth. wait_if-Costs _ delay_millis auth

    poll_auth-Refunds : Refunds used (Found (λ _. ⊥)) (poll_auth fuel inner url delay_millis)
    unfolding poll_auth
    poll_auth-Refunds =
        Refunds-first used (DecodesPending C) (Found (λ _. ⊥))
          (call-Refunds inner.transport url empty_string_json (DecodesPending C)
            (λ text net (a, r, q). patient.pending_costs url text net a r q) fuel)
          (λ res.
            Costs-bind used 0 0 (Costs-lift used 0 _) λ auth. wait_if-Costs _ delay_millis auth)
          (λ res.
            Returns-bind_of (λ a. read_json C C.auth_from_str res ≡ ok a)
              (Returns-lift _ (λ a e. e)) λ auth e. goes_on res auth e)
      where
        none_only : (o : Option ApiAuth) → Found (λ _. ⊥) o → o ≡ none
        none_only none f = refl
        none_only (some a) f = absurd f

        goes_on :
            (res : C.Response) (auth : ApiAuth)
            → read_json C C.auth_from_str res ≡ ok auth
            → Returns {P = P}
                (λ o. Found (λ _. ⊥) o → DecodesPending C res)
                (wait_if (is_auth_pending auth) delay_millis auth)
        goes_on res auth e = record {
          at = λ w o p f.
              (wait_if-Returns rank patient (λ _. DecodesPending C res) (is_auth_pending auth)
                  delay_millis auth (λ q. (auth, e, q))).at
                w o p (none_only o f);
        }

    wait_for_auth_status-Costs : Costs used 2 (wait_for_auth_status fuel inner url delay_millis)
    unfolding wait_for_auth_status
    wait_for_auth_status-Costs = Costs-repeat used 2 (λ _. ⊥) fuel poll_auth-Costs poll_auth-Refunds

  validate-Costs :
      {A : Marker} (fuel : ℕ) (c : Challenge C A) (delay_millis : ℕ)
      → Costs used 4 (validate fuel c delay_millis)
  unfolding validate
  validate-Costs fuel c delay_millis =
      Costs-bind used 2 2
        (call-Costs c.inner.transport c.api_challenge.url empty_object_json (λ _. ⊥)
          (λ text net d. absurd d) fuel)
        λ res. Costs-bind used 0 2 (Costs-lift used 0 _) λ read.
          Costs-bind used 2 0 (wait_for_auth_status-Costs fuel c.inner c.auth_url delay_millis)
            λ auth. Costs-lift used 0 _

  -- If the network's rank bounds how many more retriable refusals and pending answers it gives, then a
  -- signed request sends at most two requests, and a validation at most four, and two more for each that
  -- the rank has fallen by; with any fuel, and whether it ends well or not.
  pub requests-are-bounded :
      {A : Marker} (fuel : ℕ) (t : Transport C) (url : String) (b : Json) (c : Challenge C A)
      (delay_millis : ℕ) (w : World C P)
      → (exchanges (call t url b fuel w).1.trace + 2 * rank (call t url b fuel w).1.net
          ≤ exchanges w.trace + 2 * rank w.net + 2)
        × (exchanges (validate fuel c delay_millis w).1.trace
              + 2 * rank (validate fuel c delay_millis w).1.net
            ≤ exchanges w.trace + 2 * rank w.net + 4)
  requests-are-bounded fuel t url b c delay_millis w = (
    (call-Costs t url b (λ _. ⊥) (λ text net d. absurd d) fuel).at w,
    (validate-Costs fuel c delay_millis).at w,
  )
