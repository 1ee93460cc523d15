-- ===== src/Tests/Programs.antt =====
-- Examples of the statements on whole programs and on signed requests.
use acme_lib.Prelude.{
  ◌≡◌, ◌≢◌, ◌⊎◌, inl, ◌≤◌, ◌<◌, ◌↔◌, refl, String, true, false, none, some, List, [], ◌∷◌, arith,
  length, ◌+◌,
}
use acme_lib.Api.{
  empty_string_json, empty_object_json, is_status, is_auth_pending, is_auth_valid, is_bad_nonce,
  is_jwt_verification_error,
}
use acme_lib.Crates.{Request}
use acme_lib.Outcome.{ok, err, out_of_fuel, Error}
use acme_lib.World.{World, ◌>>=◌, repeat, draw, sleep}
use acme_lib.Acc.Key.{key_id_of}
use acme_lib.Jwt.{protected_json, jws_json}
use acme_lib.Trans.{judge, attempt, do_call, call, call_jwk, jws_with, jws_with_kid, payload_text}
use acme_lib.Trans.Pool.{get_nonce, fetch_nonce, extract_nonce, push_nonce}
use acme_lib.Trans.Pool.Queue.{keep_last, extract_all, extract_all-keep_last}
use acme_lib.Trans.Pool.Once.{
  PoolStep, post, take, count, received, handed_out, after_steps, post_and_keep, handed_out-count,
}
use acme_lib.Trans.Retry.{IsFinal, call_outcomes, retries_exactly}
use acme_lib.Client.{Op, run, run_all, call_from_url, call_refresh, call_validate}
use acme_lib.Client.PoolBounds.{IsBounded, run_all-IsBounded}
use acme_lib.Client.Requests.{ConfiguredTrace, run_all-ConfiguredTrace}
use acme_lib.Client.Patience.{IsPatient, IsTotal}
use acme_lib.Client.Termination.{run_ends}
use acme_lib.Dir.{DirectoryUrl}
use acme_lib.Order.Auth.{Marker, validate, wait_for_auth_status, poll_auth, accept_if_valid}
use acme_lib.Req.{
  post_request, req_handle_error, problem_of, read_json, send, req_expect_header, base64url,
}
use acme_lib.Std.{as_bytes, from_utf8_lossy, decode_char, from_u32}
use acme_lib.Tests.Fixtures.{
  Answer, test_crates, test_persist, world_with, answer, refusal, answer_next, a_transport,
  a_new_order, an_http_challenge,
}

-- A nonce, a refusal that is retried, and the authorization: pending, then valid.
abbrev busy_answers : List Answer
busy_answers =
    answer "n1" ""
    ∷ refusal "n2" "badNonce"
    ∷ answer "n3" "{}"
    ∷ answer "n4" "pending"
    ∷ answer "n5" "valid"
    ∷ []

abbrev pub busy : World test_crates test_persist
busy = world_with busy_answers

abbrev program : List (Op test_crates)
program =
    call_validate Marker.http an_http_challenge 5000
    ∷ call_from_url DirectoryUrl.lets_encrypt
    ∷ call_refresh a_new_order
    ∷ []

extract_all-keep_last_example :
    ((extract_all {P = test_persist} 0
        (answer "n1" "" ∷ refusal "n2" "x" ∷ [])
        (world_with [])).pools
      0).pool
    ≡ keep_last 10 ("n1" ∷ "n2" ∷ [])
extract_all-keep_last_example =
    extract_all-keep_last 0 (answer "n1" "" ∷ refusal "n2" "x" ∷ []) (world_with []) (omega arith)

run_all-IsBounded_example : IsBounded (run_all 10 program busy)
run_all-IsBounded_example =
    run_all-IsBounded 10 program busy (record { at_pool = λ p. omega arith })

run_all-ConfiguredTrace_example : ConfiguredTrace (run_all 10 program busy)
run_all-ConfiguredTrace_example = run_all-ConfiguredTrace 10 program busy tt

validated : (run 10 (call_validate Marker.http an_http_challenge 5000) busy).0 ≡ ok tt
unfolding run validate wait_for_auth_status poll_auth accept_if_valid is_auth_pending is_auth_valid
    is_status ◌>>=◌ repeat draw sleep call do_call attempt judge get_nonce fetch_nonce extract_nonce
    push_nonce send req_expect_header req_handle_error problem_of read_json base64url jws_with_kid
    jws_with payload_text key_id_of protected_json jws_json empty_string_json empty_object_json
    is_bad_nonce is_jwt_verification_error as_bytes from_utf8_lossy decode_char from_u32
validated = refl

call_outcomes_example :
    ((res : Answer)
      → (call a_transport "https://ca/x" empty_string_json 9 busy).0 ≡ ok res
      → test_crates.is_ok res ≡ true)
    × ((e : Error test_crates)
        → (call a_transport "https://ca/x" empty_string_json 9 busy).0 ≡ err e
        → IsFinal e)
    × ((res : Answer)
        → (call_jwk a_transport "https://ca/x" empty_string_json 9 busy).0 ≡ ok res
        → test_crates.is_ok res ≡ true)
    × ((e : Error test_crates)
        → (call_jwk a_transport "https://ca/x" empty_string_json 9 busy).0 ≡ err e
        → IsFinal e)
call_outcomes_example = call_outcomes a_transport "https://ca/x" empty_string_json 9 busy

retries_exactly_example :
    (judge test_crates (req_handle_error test_crates (refusal "n2" "badNonce")) ≡ ok none) ↔ (
      (test_crates.is_ok (refusal "n2" "badNonce") ≡ false)
      × (((problem_of test_crates (refusal "n2" "badNonce")).type ≡ "badNonce")
          ⊎ (((problem_of test_crates (refusal "n2" "badNonce")).type ≡ "urn:acme:error:malformed")
              × ((problem_of test_crates (refusal "n2" "badNonce")).detail
                  ≡ some "JWS verification error"))))
retries_exactly_example = retries_exactly {C = test_crates} (refusal "n2" "badNonce")

never_rises : (req : Request) (net : List Answer) → length (answer_next req net).1 ≤ length net
never_rises req [] = omega arith
never_rises req (a ∷ rest) = omega arith

retry_costs :
    (req : Request) (net : List Answer)
    → judge test_crates (req_handle_error test_crates (answer_next req net).0) ≡ ok none
    → length (answer_next req net).1 < length net
unfolding judge req_handle_error
retry_costs req [] h = cc
retry_costs req (a ∷ rest) h = omega arith

-- A text that is read was not empty, so it is not what comes past the end.
reading_costs :
    {A : Type 0} (from_str : String → String ⊎ A) (o : A) (req : Request) (net : List Answer)
    → from_str "" ≡ inl "EOF"
    → read_json test_crates from_str (answer_next req net).0 ≡ ok o
    → length (answer_next req net).1 < length net
unfolding read_json
reading_costs from_str o req [] e h = cc
reading_costs from_str o req (a ∷ rest) e h = omega arith

test_crates-IsPatient : IsPatient test_crates length
test_crates-IsPatient = record {
  never_rises = never_rises;
  retry_costs = λ url body. retry_costs (post_request url body);
  processing_costs = λ url body net o h k.
      reading_costs test_crates.order_from_str o (post_request url body) net refl h;
  pending_costs = λ url body net a h k.
      reading_costs test_crates.auth_from_str a (post_request url body) net refl h;
}

test_persist-IsTotal : IsTotal test_persist
test_persist-IsTotal = record { put_returns = λ k v s e. cc; get_returns = λ k s e. cc }

run_ends_example : (run 6 (call_validate Marker.http an_http_challenge 5000) busy).0 ≢ out_of_fuel
run_ends_example =
    run_ends length 6 (call_validate Marker.http an_http_challenge 5000) busy test_crates-IsPatient
      test_persist-IsTotal (omega arith)

abbrev pool_steps : List PoolStep
pool_steps = take ∷ post "https://ca/x" "" ∷ take ∷ []

handed_out-count_example :
    count "n2" (handed_out 0 pool_steps busy)
      + count "n2" ((after_steps 0 pool_steps busy).pools 0).pool
      + count "n2" (received busy)
    ≤ count "n2" (busy.pools 0).pool + count "n2" (received (after_steps 0 pool_steps busy))
handed_out-count_example = handed_out-count 0 "n2" pool_steps busy

-- The first nonce is fetched, the second is the one that the refusal brought.
two_nonces : handed_out 0 pool_steps busy ≡ "n1" ∷ "n2" ∷ []
unfolding handed_out get_nonce fetch_nonce post_and_keep extract_nonce push_nonce send ◌>>=◌
    req_expect_header
two_nonces = refl
