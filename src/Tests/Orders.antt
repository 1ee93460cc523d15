-- ===== src/Tests/Orders.antt =====
-- Examples of the statements on orders and challenges.
use acme_lib.Api.{
  ApiOrder, order_json, ApiProblem, ApiAuth, empty_string_json, empty_object_json, is_status,
  is_auth_valid, is_bad_nonce, is_jwt_verification_error, is_status_valid, is_status_processing,
  domains, finalize_json, is_auth_valid,
}
use acme_lib.Prelude.{
  ◌≡◌, ◌≢◌, ◌↔◌, ◌⊎◌, refl, ◌<>◌, true, false, none, some, List, [], ◌∷◌, unwrap_or,
}
use acme_lib.Std.{
  as_bytes, from_utf8_lossy, from_utf8_lossy_fuel, join, decode_char, from_u32, encode_char,
}
use acme_lib.Outcome.{ok, err, other, ◌>>=ᵒ◌}
use acme_lib.Persist.Memory.{memory_persist-IsLawful}
use acme_lib.World.{World, repeat, draw, sleep, put, get, ◌>>=◌}
use acme_lib.Req.{problem_of, req_handle_error, req_expect_header, read_json, send, base64url}
use acme_lib.Acc.{certificate}
use acme_lib.Acc.Key.{key_id_of}
use acme_lib.Jwt.{protected_json, jws_json}
use acme_lib.Trans.{
  judge, attempt, do_call, call, call_jwk, jws_with, jws_with_kid, jws_with_jwk, payload_text,
}
use acme_lib.Trans.Pool.{get_nonce, fetch_nonce, extract_nonce, push_nonce}
use acme_lib.Cert.{Certificate, create_csr, alt_names_text}
use acme_lib.Order.{
  CsrOrder, CertOrder, confirm_validations, finalize_pkey, authorizations, authorizations_of,
  refresh_order, poll_order, wait_for_order_status, cert_order_if_valid, first_domain,
  download_and_save_cert,
}
use acme_lib.Order.Auth.{Auth, accept_if_valid, Challenge, Marker, dns_proof, http_proof}
use acme_lib.Order.Proofs.{dns_proof-http_proof}
use acme_lib.Order.Typed.{challenge_for, IsFirst, challenge_for_iff}
use acme_lib.Tests.Fixtures.{
  an_http_challenge, test_crates, test_persist, world_with, answer, an_order, an_auth, an_inner,
  a_new_order, a_challenge,
}
use acme_lib.Client.Fetched.{Fetched, authorizations-Fetched}
use acme_lib.Order.Saved.{certificate-download_and_save_cert}
use acme_lib.Order.Results.{finalize_pkey-is-valid, confirm_validations_iff}
use acme_lib.Api.Reading.{read_order, read_order-order_json}
use acme_lib.Order.Verdict.{IsFirstError, HasNoError, accept_if_valid-cases}

abbrev valid_order : CertOrder test_crates
valid_order = record {
  private_key = 75 ∷ 69 ∷ 89 ∷ [];
  order = record { inner = an_inner; api_order = an_order "valid"; url = "https://ca/order/1" };
}

abbrev an_issue : World test_crates test_persist
an_issue = world_with (answer "n1" "" ∷ answer "n2" "CERT" ∷ [])

abbrev an_issued : Certificate
an_issued = record { private_key = "KEY"; certificate = "CERT" }

downloaded : (download_and_save_cert 3 valid_order an_issue).0 ≡ ok an_issued
unfolding ◌>>=◌ repeat draw sleep put get call call_jwk do_call attempt judge get_nonce fetch_nonce
    extract_nonce push_nonce send req_expect_header req_handle_error problem_of read_json base64url
    jws_with_kid jws_with_jwk jws_with payload_text key_id_of protected_json jws_json
    empty_string_json empty_object_json is_bad_nonce is_jwt_verification_error is_status as_bytes
    from_utf8_lossy decode_char from_u32 encode_char download_and_save_cert domains
    from_utf8_lossy_fuel
downloaded = refl

key_utf8 : some (75 ∷ 69 ∷ 89 ∷ []) ≡ some (as_bytes "KEY")
unfolding as_bytes encode_char
key_utf8 = refl

first_name : first_domain {C = test_crates} (domains (an_order "valid")) ≡ ok "a.se"
unfolding domains
first_name = refl

certificate-download_and_save_cert_example :
    (certificate
      (record { inner = an_inner })
      "a.se"
      (download_and_save_cert 3 valid_order an_issue).1).0
    ≡ ok (some an_issued)
certificate-download_and_save_cert_example =
    certificate-download_and_save_cert test_persist (memory_persist-IsLawful test_crates).1 3
      valid_order (record { inner = an_inner }) an_issue an_issued "a.se" "KEY" tt refl first_name
      key_utf8 downloaded

abbrev pub a_csr_order : CsrOrder test_crates
a_csr_order = record { order = a_new_order.order }

abbrev pub processing : World test_crates test_persist
processing = world_with (
    answer "n1" "" ∷ answer "n2" "processing" ∷ answer "n3" "processing" ∷ answer "n4" "valid" ∷ [])

abbrev pub certified : CertOrder test_crates
certified = record {
  private_key = 1 ∷ [];
  order = record { inner = an_inner; api_order = an_order "valid"; url = "https://ca/order/1" };
}

pub finalized : (finalize_pkey 5 a_csr_order (1 ∷ []) (2 ∷ []) 100 processing).0 ≡ ok certified
unfolding ◌>>=◌ repeat draw sleep put get call call_jwk do_call attempt judge get_nonce fetch_nonce
    extract_nonce push_nonce send req_expect_header req_handle_error problem_of read_json base64url
    jws_with_kid jws_with_jwk jws_with payload_text key_id_of protected_json jws_json
    empty_string_json empty_object_json is_bad_nonce is_jwt_verification_error is_status as_bytes
    from_utf8_lossy decode_char from_u32 encode_char finalize_pkey domains create_csr alt_names_text
    join wait_for_order_status poll_order refresh_order cert_order_if_valid is_status_valid
    is_status_processing finalize_json
finalized = refl

finalize_pkey-is-valid_example :
    (certified.order.api_order.status ≡ some "valid")
    × (certified.private_key ≡ 1 ∷ [])
    × (certified.order.inner ≡ a_csr_order.order.inner)
    × (certified.order.url ≡ a_csr_order.order.url)
finalize_pkey-is-valid_example =
    finalize_pkey-is-valid 5 a_csr_order (1 ∷ []) (2 ∷ []) 100 processing certified finalized

confirm_validations_iff_example :
    ((confirm_validations a_new_order ≡ some (record { order = a_new_order.order })) ↔ (
      (a_new_order.order.api_order.status ≡ some "ready")
      ⊎ (a_new_order.order.api_order.status ≡ some "valid")))
    × ((confirm_validations a_new_order ≡ none) ↔ (
        (a_new_order.order.api_order.status ≢ some "ready")
        × (a_new_order.order.api_order.status ≢ some "valid")))
confirm_validations_iff_example = confirm_validations_iff a_new_order

abbrev listed : World test_crates test_persist
listed = world_with (answer "n1" "" ∷ answer "n2" "pending" ∷ [])

abbrev auths : List (Auth test_crates)
auths =
    record { inner = an_inner; api_auth = an_auth "pending"; auth_url = "https://ca/auth/1" } ∷ []

fetched : (authorizations 5 a_new_order listed).0 ≡ ok auths
unfolding ◌>>=◌ repeat draw sleep put get call call_jwk do_call attempt judge get_nonce fetch_nonce
    extract_nonce push_nonce send req_expect_header req_handle_error problem_of read_json base64url
    jws_with_kid jws_with_jwk jws_with payload_text key_id_of protected_json jws_json
    empty_string_json empty_object_json is_bad_nonce is_jwt_verification_error is_status as_bytes
    from_utf8_lossy decode_char from_u32 encode_char authorizations authorizations_of
fetched = refl

authorizations-Fetched_example :
    Fetched an_inner ("https://ca/auth/1" ∷ []) auths [] (authorizations 5 a_new_order listed).1
authorizations-Fetched_example = authorizations-Fetched 5 a_new_order listed auths fetched

-- The failed authorization has a challenge without a problem, and then one with.
abbrev failed : ApiAuth
failed = record (an_auth "invalid") {
  challenges =
      a_challenge
      ∷ record a_challenge {
        error = some (record { type = "dns"; detail = some "no record"; subproblems = none });
      }
      ∷ [];
}

accept_if_valid-cases_example :
    ((is_auth_valid failed ≡ true) × (accept_if_valid {C = test_crates} failed ≡ ok tt))
    ⊎ ((is_auth_valid failed ≡ false)
        × (e : ApiProblem) × IsFirstError failed.challenges e
        × (accept_if_valid {C = test_crates} failed
            ≡ err (other ("Failed: " <> unwrap_or e.detail e.type))))
    ⊎ ((is_auth_valid failed ≡ false)
        × HasNoError failed.challenges
        × (accept_if_valid {C = test_crates} failed
            ≡ err (other "Validation failed and no error found")))
accept_if_valid-cases_example = accept_if_valid-cases {C = test_crates} failed

refused : accept_if_valid {C = test_crates} failed ≡ err (other "Failed: no record")
unfolding accept_if_valid is_auth_valid is_status
refused = refl

abbrev a_dns_challenge : Challenge test_crates Marker.dns
a_dns_challenge = record {
  inner = an_inner;
  api_challenge = record a_challenge { type = "dns-01" };
  auth_url = "https://ca/auth/1";
}

dns_proof-http_proof_example : dns_proof a_dns_challenge ≡ (
    http_proof an_http_challenge >>=ᵒ λ p.
    ok (base64url test_crates (test_crates.sha256 (as_bytes p))))
dns_proof-http_proof_example = dns_proof-http_proof a_dns_challenge an_http_challenge refl refl

-- An authorization with a challenge over DNS, and after it one over HTTP.
abbrev an_auth_with_both : Auth test_crates
an_auth_with_both = record {
  inner = an_inner;
  api_auth = record (an_auth "pending") {
    challenges = record a_challenge { type = "dns-01" } ∷ a_challenge ∷ [];
  };
  auth_url = "https://ca/auth/1";
}

challenge_for_iff_example : (challenge_for Marker.http an_auth_with_both ≡ ok an_http_challenge) ↔ (
    IsFirst "http-01" a_challenge an_auth_with_both.api_auth.challenges
    × (an_inner ≡ an_inner)
    × ("https://ca/auth/1" ≡ an_auth_with_both.auth_url))
challenge_for_iff_example = challenge_for_iff Marker.http an_auth_with_both an_http_challenge

abbrev a_refused_order : ApiOrder
a_refused_order = record {
  status = some "invalid";
  expires = none;
  identifiers =
      record { type = "dns"; value = "a.se" } ∷ record { type = "dns"; value = "b.se" } ∷ [];
  not_before = none;
  not_after = some "2021-01-01T00:00:00Z";
  error = some (record {
    type = "urn:ietf:params:acme:error:caa";
    detail = some "CAA record";
    subproblems = some (
        record {
          type = "urn:ietf:params:acme:error:caa";
          detail = none;
          identifier = some (record { type = "dns"; value = "b.se" });
        }
        ∷ []);
  });
  authorizations = some ("https://ca/auth/1" ∷ "https://ca/auth/2" ∷ []);
  finalize = "https://ca/finalize/1";
  certificate = none;
}

read_order-order_json_example : read_order (order_json a_refused_order) ≡ some a_refused_order
read_order-order_json_example = read_order-order_json a_refused_order
