-- ===== src/Tests/Threads.antt =====
-- Runs of threads on one nonce pool.
use acme_lib.Api.{
  empty_object_json, is_status, is_bad_nonce, is_jwt_verification_error, empty_string_json,
}
use acme_lib.World.{◌>>=◌, repeat, draw, sleep, put, get}
use acme_lib.Std.{as_bytes, from_utf8_lossy, decode_char, from_u32, encode_char}
use acme_lib.Acc.Key.{key_id_of}
use acme_lib.Jwt.{protected_json, jws_json}
use acme_lib.Trans.{judge, attempt, do_call, jws_with, jws_with_kid, payload_text, call}
use acme_lib.Trans.Pool.{get_nonce, fetch_nonce, extract_nonce, push_nonce}
use acme_lib.Req.{req_handle_error, problem_of, read_json, send, req_expect_header, base64url}
use acme_lib.Tests.Programs.{busy}
use acme_lib.Prelude.{◌≡◌, ◌+◌, ◌≤◌, refl, String, List, [], ◌∷◌, ◌++◌, length}
use acme_lib.Outcome.{ok}
use acme_lib.Trans.Pool.Once.{count}
use acme_lib.Trans.Pool.Threads.{
  System, idle, holding, missed, Reach, start, later, pick, reuse, miss, fetch, post, keep,
}
use acme_lib.Trans.Pool.Safety.{held_by_all, Reach-counts, Reach-length}
use acme_lib.Trans.Written.{WrittenWith}
use acme_lib.Trans.Pool.Sequential.{Rounds, Runs, shared, call-Reach}
use acme_lib.Tests.Fixtures.{test_crates, answer, a_transport}

-- Two threads find the pool empty, one gets a nonce, posts it, and keeps the nonce of the response, which
-- it takes again.
abbrev interleaved : System test_crates
interleaved = record {
  shared = record { pool = []; issued = "n2" ∷ "n1" ∷ []; sent = "n1" ∷ [] };
  threads = holding "n2" ∷ missed ∷ [];
}

interleaved-Reach : Reach test_crates 2 interleaved
unfolding push_nonce
interleaved-Reach =
    later
      (later
        (later
          (later
            (later (later start (pick [] (idle ∷ []) refl (miss refl)))
              (pick (missed ∷ []) [] refl (miss refl)))
            (pick [] (missed ∷ []) refl (fetch (answer "n1" "") refl)))
          (pick [] (missed ∷ []) refl (post (answer "n2" ""))))
        (pick [] (missed ∷ []) refl keep))
      (pick [] (missed ∷ []) refl (reuse refl))

Reach-counts_example :
    count "n2" interleaved.shared.sent
      + count "n2" interleaved.shared.pool
      + held_by_all test_crates "n2" interleaved.threads
    ≤ count "n2" interleaved.shared.issued
Reach-counts_example = Reach-counts test_crates "n2" 2 interleaved interleaved-Reach

Reach-length_example : length interleaved.shared.pool ≤ 10
Reach-length_example = Reach-length 2 interleaved interleaved-Reach

retried : (call a_transport "https://ca/x" empty_string_json 9 busy).0 ≡ ok (answer "n3" "{}")
unfolding ◌>>=◌ repeat draw sleep put get call do_call attempt judge get_nonce fetch_nonce
    extract_nonce push_nonce send req_expect_header req_handle_error problem_of read_json base64url
    jws_with_kid jws_with payload_text key_id_of protected_json jws_json empty_string_json
    empty_object_json is_bad_nonce is_jwt_verification_error is_status as_bytes from_utf8_lossy
    decode_char from_u32 encode_char
retried = refl

call-Reach_example :
    (used : List String) × Rounds
      (WrittenWith test_crates a_transport.acme_key "https://ca/x" empty_string_json)
      "https://ca/x"
      used
      []
      (call a_transport "https://ca/x" empty_string_json 9 busy).1.trace
    × Runs test_crates
        (shared 0 [] busy)
        idle
        (shared 0 (used ++ []) (call a_transport "https://ca/x" empty_string_json 9 busy).1)
        idle
    × Reach test_crates 1 (record {
      shared = shared 0 (used ++ []) (call a_transport "https://ca/x" empty_string_json 9 busy).1;
      threads = idle ∷ [];
    })
call-Reach_example =
    call-Reach 1 9 [] [] a_transport "https://ca/x" empty_string_json [] busy (answer "n3" "{}")
      start retried
