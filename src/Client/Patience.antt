-- ===== src/Client/Patience.antt =====
-- What the ends of the loops rest on: servers that do not forever refuse nonces, process an order or
-- leave an authorization pending, and a persistence that returns.
use acme_lib.Prelude.{ℕ, ◌≤◌, ◌<◌, ◌≡◌, ◌≢◌, String, true, none, Bytes}
use acme_lib.Api.{ApiOrder, ApiAuth, is_status_processing, is_auth_pending}
use acme_lib.Crates.{Crates, Request}
use acme_lib.Outcome.{ok, out_of_fuel}
use acme_lib.Persist.{Persist, PersistKey}
use acme_lib.Req.{post_request, req_handle_error, read_json}
use acme_lib.Trans.{judge}

-- `rank` bounds how many more such answers the network gives.
pub record IsPatient (C : Crates) (rank : C.Net → ℕ) : Type 0 where
  pub never_rises : (req : Request) (net : C.Net) → rank (C.call_request req net).1 ≤ rank net
  pub retry_costs :
      (url body : String) (net : C.Net)
      → judge C (req_handle_error C (C.call_request (post_request url body) net).0) ≡ ok none
      → rank (C.call_request (post_request url body) net).1 < rank net
  pub processing_costs :
      (url body : String) (net : C.Net) (o : ApiOrder)
      → read_json C C.order_from_str (C.call_request (post_request url body) net).0 ≡ ok o
      → is_status_processing o ≡ true
      → rank (C.call_request (post_request url body) net).1 < rank net
  pub pending_costs :
      (url body : String) (net : C.Net) (a : ApiAuth)
      → read_json C C.auth_from_str (C.call_request (post_request url body) net).0 ≡ ok a
      → is_auth_pending a ≡ true
      → rank (C.call_request (post_request url body) net).1 < rank net

-- The methods of the persistence come to an end.
pub record IsTotal {C : Crates} (P : Persist C) : Type 0 where
  pub put_returns : (k : PersistKey) (v : Bytes) (s : P.Store) → (P.put k v s).0 ≢ out_of_fuel
  pub get_returns : (k : PersistKey) (s : P.Store) → (P.get k s).0 ≢ out_of_fuel
