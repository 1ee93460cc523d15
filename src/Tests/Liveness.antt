-- ===== src/Tests/Liveness.antt =====
-- A validation against a server that leaves the authorization pending for a number of rounds.
use acme_lib.Prelude.{
  ◌+◌, ◌*◌, ℕ, zero, suc, ◌≤◌, ◌<◌, ◌≡◌, ap, ◌∙◌, some, none, true, false, [], ◌∷◌, arith,
}
use acme_lib.Trans.{call, judge}
use acme_lib.Api.{
  empty_string_json, ApiOrder, ApiAuth, is_status, is_auth_pending, is_status_processing,
}
use acme_lib.Client.Traffic.{exchanges, requests-are-bounded}
use acme_lib.Json.{Json}
use acme_lib.Crates.{Crates, Request}
use acme_lib.Outcome.{ok, ok-injective}
use acme_lib.Persist.Memory.{memory_persist}
use acme_lib.World.{World}
use acme_lib.Req.{post_request, req_handle_error, read_json}
use acme_lib.Order.Auth.{Challenge, Marker, validate}
use acme_lib.Client.Patience.{IsPatient}
use acme_lib.Tests.Fixtures.{test_crates, Answer, answer, a_challenge, an_account, a_directory}

-- The network is the number of pending answers that are left.
abbrev reply : Request → ℕ → Answer × ℕ
reply req zero = (answer "n" "valid", zero)
reply req (suc n) = (answer "n" "pending", n)

abbrev slow_crates : Crates
slow_crates = record test_crates { Net = ℕ; call_request = reply }

reply-never_rises : (req : Request) (n : ℕ) → (reply req n).1 ≤ n
reply-never_rises req zero = omega arith
reply-never_rises req (suc n) = omega arith

retry_never :
    (req : Request) (n : ℕ)
    → judge slow_crates (req_handle_error slow_crates (reply req n).0) ≡ ok none
    → (reply req n).1 < n
unfolding judge req_handle_error
retry_never req zero h = cc
retry_never req (suc n) h = omega arith

processing_never :
    (req : Request) (n : ℕ) (o : ApiOrder)
    → read_json slow_crates slow_crates.order_from_str (reply req n).0 ≡ ok o
    → is_status_processing o ≡ true
    → (reply req n).1 < n
unfolding read_json is_status_processing is_status
processing_never req zero o h k =
    let e : false ≡ true = ap is_status_processing (ok-injective {C = slow_crates} h) ∙ k in cc
processing_never req (suc n) o h k = omega arith

pending_falls :
    (req : Request) (n : ℕ) (a : ApiAuth)
    → read_json slow_crates slow_crates.auth_from_str (reply req n).0 ≡ ok a
    → is_auth_pending a ≡ true
    → (reply req n).1 < n
unfolding read_json is_auth_pending is_status
pending_falls req zero a h k =
    let e : false ≡ true = ap is_auth_pending (ok-injective {C = slow_crates} h) ∙ k in cc
pending_falls req (suc n) a h k = omega arith

slow_crates-IsPatient : IsPatient slow_crates (λ n. n)
slow_crates-IsPatient = record {
  never_rises = reply-never_rises;
  retry_costs = λ url body. retry_never (post_request url body);
  processing_costs = λ url body. processing_never (post_request url body);
  pending_costs = λ url body. pending_falls (post_request url body);
}

abbrev slow_challenge : Challenge slow_crates Marker.http
slow_challenge = record {
  inner = record {
    transport = record {
      acme_key = record { private_key = 75 ∷ []; key_id = some "https://ca/account/1" };
      nonce_pool = 0;
    };
    contact_email = "me@a.se";
    api_account = an_account;
    api_directory = a_directory;
  };
  api_challenge = a_challenge;
  auth_url = "https://ca/auth/1";
}

abbrev three_pending : World slow_crates (memory_persist slow_crates)
three_pending = record {
  net = 3;
  entropy = 0;
  pools = λ p. record { nonce_url = "https://ca/nonce"; pool = [] };
  next_pool = 1;
  store = [];
  trace = [];
}

requests-are-bounded_example :
    (exchanges
          (call slow_challenge.inner.transport "https://ca/x" empty_string_json 4
            three_pending).1.trace
        + 2
          * (call slow_challenge.inner.transport "https://ca/x" empty_string_json 4
              three_pending).1.net
      ≤ 8)
    × (exchanges (validate 4 slow_challenge 5000 three_pending).1.trace
          + 2 * (validate 4 slow_challenge 5000 three_pending).1.net
        ≤ 10)
requests-are-bounded_example =
    requests-are-bounded (λ n. n) slow_crates-IsPatient 4 slow_challenge.inner.transport
      "https://ca/x" empty_string_json slow_challenge 5000 three_pending
