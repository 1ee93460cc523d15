-- ===== src/Tests/Failures.antt =====
-- A new account whose registration the server refuses.
use acme_lib.Prelude.{none, ◌≡◌, ◌≢◌, refl, [], ◌∷◌}
use acme_lib.Outcome.{Outcome, ok, err, Error}
use acme_lib.Std.{as_bytes, from_utf8_lossy, decode_char, from_u32, encode_char}
use acme_lib.Api.{
  empty_string_json, empty_object_json, is_status, is_bad_nonce, is_jwt_verification_error,
  account_json,
}
use acme_lib.Persist.Memory.{lookup}
use acme_lib.World.{World, repeat, draw, sleep, put, get, ◌>>=◌}
use acme_lib.Req.{problem_of, req_handle_error, req_expect_header, read_json, send, base64url}
use acme_lib.Acc.Key.{key_id_of, generate_key, key_to_pem}
use acme_lib.Cert.Curve.{ec_group}
use acme_lib.Jwt.{protected_json, jws_json, jwk_json, jwk_of}
use acme_lib.Trans.{
  judge, attempt, do_call, call, call_jwk, jws_with, jws_with_kid, jws_with_jwk, payload_text,
}
use acme_lib.Trans.Pool.{get_nonce, fetch_nonce, extract_nonce, push_nonce}
use acme_lib.Dir.{account}
use acme_lib.Client.{run, call_account}
use acme_lib.Client.Failures.{IsReliable, failures_write_nothing}
use acme_lib.Tests.Fixtures.{test_crates, test_persist, world_with, answer, refusal}
use acme_lib.Tests.Accounts.{directory}

abbrev refusing : World test_crates test_persist
refusing = world_with (answer "n1" "" ∷ refusal "n2" "rateLimited" ∷ [])

refused :
    (run 3 (call_account directory "me@a.se") refusing).0
    ≡ err (Error.api_problem (record { type = "rateLimited"; detail = none; subproblems = none }))
unfolding run ◌>>=◌ repeat draw sleep put get call call_jwk do_call attempt judge get_nonce
    fetch_nonce extract_nonce push_nonce send req_expect_header req_handle_error problem_of
    read_json base64url jws_with_kid jws_with_jwk jws_with payload_text key_id_of protected_json
    jws_json empty_string_json empty_object_json is_bad_nonce is_jwt_verification_error is_status
    as_bytes from_utf8_lossy decode_char from_u32 encode_char account generate_key key_to_pem
    account_json jwk_of jwk_json ec_group lookup
refused = refl

not_ok : {r : Outcome test_crates (Unit {0})} {e : Error test_crates} → r ≡ err e → r ≢ ok tt
not_ok p q = cc

test_persist-IsReliable : IsReliable test_persist
test_persist-IsReliable = record { put_succeeds = λ k v s. refl; get_keeps = λ k s. refl }

failures_write_nothing_example :
    (run 3 (call_account directory "me@a.se") refusing).1.store ≡ refusing.store
failures_write_nothing_example =
    failures_write_nothing 3 (call_account directory "me@a.se") refusing test_persist-IsReliable tt
      (not_ok refused)
