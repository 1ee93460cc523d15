-- ===== src/Client/Requests.antt =====
-- On programs and their requests: `req_configure` and its callers in src/req.rs.
use acme_lib.Prelude.{ℕ, String, ◌≡◌, refl, Option, none, some, List, [], ◌∷◌}
use acme_lib.Crates.{Crates, Method, Request}
use acme_lib.Persist.{Persist}
use acme_lib.World.{World, Event, exchange, slept, get, put, draw, sleep}
use acme_lib.World.Keeps.{Keeps}
use acme_lib.Req.{send}
use acme_lib.Trans.Pool.{add_nonce, extract_nonce}
use acme_lib.Dir.{alloc_pool}
use acme_lib.Client.{Op, run_all}
use acme_lib.Client.Frame.{Basics}
use acme_lib.Client.Keeps.{run_all_Keeps}

-- The content type and the payload that a method wants.
abbrev HasBody : Method → Option String → Option String → Type 0
HasBody Method.post content_type payload =
    (content_type ≡ some "application/jose+json") × ((s : String) × (payload ≡ some s))
HasBody _ content_type payload = (content_type ≡ none) × (payload ≡ none)

-- All three timeouts are thirty seconds; a POST has a body of JOSE type, no other request has any.
pub record IsConfigured (r : Request) : Type 0 where
  pub connect : r.timeout_connect ≡ some 30000
  pub read : r.timeout_read ≡ some 30000
  pub write : r.timeout_write ≡ some 30000
  pub body : HasBody r.method r.content_type r.payload

abbrev AllConfigured : {C : Crates} → List (Event C) → Type 0
AllConfigured [] = Unit
AllConfigured (exchange req res ∷ es) = IsConfigured req × AllConfigured es
AllConfigured (slept n ∷ es) = AllConfigured es

abbrev pub ConfiguredTrace : {C : Crates} {P : Persist C} → World C P → Type 0
ConfiguredTrace w = AllConfigured w.trace

module _ {C : Crates} {P : Persist C} where
  add_nonce-ConfiguredTrace :
      (p : ℕ) (o : Option String) → Keeps {P = P} ConfiguredTrace (add_nonce p o)
  add_nonce-ConfiguredTrace p none = record { at = λ w h. h }
  add_nonce-ConfiguredTrace p (some n) = record { at = λ w h. h }

  configured_basics : Basics {P = P} ConfiguredTrace
  unfolding send sleep get put draw alloc_pool extract_nonce
  configured_basics = record {
    basic_get = λ url. record {
      at = λ w h. (record { connect = refl; read = refl; write = refl; body = (refl, refl) }, h);
    };
    basic_head = λ url. record {
      at = λ w h. (record { connect = refl; read = refl; write = refl; body = (refl, refl) }, h);
    };
    basic_post = λ url text signed. record {
      at = λ w h.
          (record { connect = refl; read = refl; write = refl; body = (refl, (text, refl)) }, h);
    };
    basic_sleep = λ millis. record { at = λ w h. h };
    basic_load = λ k. record { at = λ w h. h };
    basic_store = λ k v. record { at = λ w h. h };
    basic_draw = λ A f. record { at = λ w h. h };
    basic_extract = λ p res. add_nonce-ConfiguredTrace p (C.header res "replay-nonce");
    basic_pop = λ p nonce rest w e h. h;
    basic_alloc = λ url. record { at = λ w h. h };
  }

  -- If every request sent so far has the three timeouts of thirty seconds, and a body with the JOSE
  -- content type exactly when it is a POST, then so has every request after any sequence of calls.
  pub run_all-ConfiguredTrace :
      (fuel : ℕ) (ops : List (Op C)) (w : World C P)
      → ConfiguredTrace w
      → ConfiguredTrace (run_all fuel ops w)
  run_all-ConfiguredTrace = run_all_Keeps configured_basics
