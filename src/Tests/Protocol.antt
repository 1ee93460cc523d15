-- ===== src/Tests/Protocol.antt =====
-- Runs of validations, finalizations and downloads that end well, with what the servers said.
use acme_lib.Tests.Fixtures.{
  answer, world_with, test_persist, test_crates, Answer, an_http_challenge, an_order, an_inner,
}
use acme_lib.Trans.{
  jws_with_jwk, call_jwk, judge, attempt, do_call, call, jws_with, jws_with_kid, payload_text,
}
use acme_lib.Prelude.{Bytes, ◌≡◌, refl, some, [], ◌∷◌}
use acme_lib.World.{World, ◌>>=◌, repeat, draw, sleep, put, get}
use acme_lib.Api.{
  ApiAuth, empty_string_json, empty_object_json, is_status, is_auth_valid, is_auth_pending,
  is_bad_nonce, is_jwt_verification_error, revocation_json,
}
use acme_lib.Outcome.{ok}
use acme_lib.Std.{as_bytes, from_utf8_lossy, decode_char, from_u32, encode_char}
use acme_lib.Acc.Key.{key_id_of}
use acme_lib.Jwt.{protected_json, jws_json}
use acme_lib.Trans.Pool.{get_nonce, fetch_nonce, extract_nonce, push_nonce}
use acme_lib.Req.{req_handle_error, problem_of, read_json, send, req_expect_header, base64url}
use acme_lib.Order.{finalize_pkey}
use acme_lib.Order.Auth.{validate, wait_for_auth_status, poll_auth, accept_if_valid}
use acme_lib.Client.Protocol.{Exchanges, validate-Exchanges, finalize_pkey-Exchanges}
use acme_lib.Api.{finalize_json, domains}
use acme_lib.Cert.{create_csr}
use acme_lib.Tests.Programs.{busy}
use acme_lib.Acc.{Account, superseded, reason_code, revoke_certificate}
use acme_lib.Cert.{Certificate, certificate_der}
use acme_lib.Client.Payloads.{Carried, revocation_of, revoke_certificate-Carried}
use acme_lib.Tests.Orders.{a_csr_order, processing, certified, finalized}

validated : (validate 6 an_http_challenge 5000 busy).0 ≡ ok tt
unfolding ◌>>=◌ validate wait_for_auth_status poll_auth accept_if_valid is_auth_valid
    is_auth_pending repeat draw sleep put get call do_call attempt judge get_nonce fetch_nonce
    extract_nonce push_nonce send req_expect_header req_handle_error problem_of read_json base64url
    jws_with_kid jws_with payload_text key_id_of protected_json jws_json empty_string_json
    empty_object_json is_bad_nonce is_jwt_verification_error is_status as_bytes from_utf8_lossy
    decode_char from_u32 encode_char
validated = refl

validate-Exchanges_example :
    (res : Answer) × (auth : ApiAuth) × Exchanges an_http_challenge.inner.transport
      an_http_challenge.api_challenge.url empty_object_json an_http_challenge.auth_url res []
      (validate 6 an_http_challenge 5000 busy).1
    × (read_json test_crates test_crates.auth_from_str res ≡ ok auth)
    × (auth.status ≡ some "valid")
validate-Exchanges_example = validate-Exchanges 6 an_http_challenge 5000 busy validated

finalize_pkey-Exchanges_example :
    (csr : test_crates.X509Req) × (der : Bytes) × (res : Answer) × ((create_csr {P = test_persist}
        (1 ∷ [])
        (2 ∷ [])
        (domains a_csr_order.order.api_order)
        processing).0
      ≡ ok csr)
    × (test_crates.req_to_der csr ≡ some der)
    × Exchanges a_csr_order.order.inner.transport a_csr_order.order.api_order.finalize
        (finalize_json (record { csr = base64url test_crates der }))
        a_csr_order.order.url
        res
        []
        (finalize_pkey 5 a_csr_order (1 ∷ []) (2 ∷ []) 100 processing).1
    × (read_json test_crates test_crates.order_from_str res ≡ ok (an_order "valid"))
    × (certified.order.api_order.status ≡ some "valid")
finalize_pkey-Exchanges_example =
    finalize_pkey-Exchanges 5 a_csr_order (1 ∷ []) (2 ∷ []) 100 processing certified finalized

abbrev the_holder : Account test_crates
the_holder = record { inner = an_inner }

abbrev withdrawn : Certificate
withdrawn = record { private_key = "KEY"; certificate = "CERT" }

abbrev revoking : World test_crates test_persist
revoking = world_with (answer "n1" "" ∷ answer "n2" "" ∷ [])

revoked : (revoke_certificate the_holder 3 withdrawn superseded revoking).0 ≡ ok tt
unfolding ◌>>=◌ repeat draw sleep put get call call_jwk do_call attempt judge get_nonce fetch_nonce
    extract_nonce push_nonce send req_expect_header req_handle_error problem_of read_json base64url
    jws_with_kid jws_with_jwk jws_with payload_text key_id_of protected_json jws_json is_bad_nonce
    is_jwt_verification_error as_bytes revoke_certificate certificate_der revocation_json
    reason_code
revoked = refl

revoke_certificate-Carried_example :
    (der : Bytes) × (res : Answer) × (certificate_der test_crates withdrawn ≡ ok der)
    × Carried the_holder.inner.transport the_holder.inner.api_directory.revoke_cert
        (revocation_json (revocation_of test_crates der superseded))
        res
        (revoke_certificate the_holder 3 withdrawn superseded revoking).1.trace
revoke_certificate-Carried_example =
    revoke_certificate-Carried 3 the_holder withdrawn superseded revoking revoked
