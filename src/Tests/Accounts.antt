-- ===== src/Tests/Accounts.antt =====
-- Examples of the statements on accounts and on the persistence.
use acme_lib.Persist.Lawful.{IsLawful}
use acme_lib.Prelude.{Bytes, String, ◌≡◌, ◌↔◌, inr, refl, sym, ap, none, some, [], ◌∷◌, arith}
use mathlib.Core.Option.{some-injective}
use acme_lib.Std.{
  as_bytes, from_utf8_lossy, decode_char, from_u32, encode_char, decimal, replace_char, digits,
}
use acme_lib.Api.{
  empty_string_json, empty_object_json, is_status, is_bad_nonce, is_jwt_verification_error,
  account_json,
}
use acme_lib.Outcome.{ok}
use acme_lib.Persist.{PersistKey, PersistKind, key_to_string, sanitize, kind_name}
use acme_lib.Persist.Naming.{key_to_string_iff}
use acme_lib.Persist.Memory.{memory_persist-IsLawful, insert, lookup}
use acme_lib.World.{World, repeat, draw, sleep, put, get, ◌>>=◌}
use acme_lib.Req.{problem_of, req_handle_error, req_expect_header, read_json, send, base64url}
use acme_lib.Acc.{Account, reason_code, remove_from_crl}
use acme_lib.Acc.Key.{key_id_of, generate_key, key_to_pem, key_from_pem}
use acme_lib.Cert.Curve.{ec_group}
use acme_lib.Jwt.{protected_json, jws_json, jwk_json, jwk_of}
use acme_lib.Trans.{
  judge, attempt, do_call, call, call_jwk, jws_with, jws_with_kid, jws_with_jwk, payload_text,
}
use acme_lib.Trans.Pool.{get_nonce, fetch_nonce, extract_nonce, push_nonce}
use acme_lib.Dir.{Directory, account, account_key}
use acme_lib.Dir.Made.{account-key_id}
use acme_lib.Dir.Resume.{PemRoundTrip, account-resumes}
use acme_lib.Acc.Revocation.{rfc_reason, rfc_reason-reason_code}
use acme_lib.Tests.Fixtures.{test_crates, test_persist, world_with, answer, a_directory, an_account}

abbrev mail_key : PersistKey
mail_key = record { realm = 7; kind = PersistKind.private_key; key = "a.b" }

abbrev mark_key : PersistKey
mark_key = record { realm = 7; kind = PersistKind.account_private_key; key = "a_b" }

key_to_string_iff_example : (key_to_string mail_key ≡ key_to_string mark_key) ↔ (
    (mail_key.realm ≡ mark_key.realm)
    × (kind_name mail_key.kind ≡ kind_name mark_key.kind)
    × (sanitize mail_key.key ≡ sanitize mark_key.key))
key_to_string_iff_example = key_to_string_iff mail_key mark_key (omega arith) (omega arith)

-- The name of a key of each kind.
names :
    (key_to_string mail_key ≡ "7_key_a_b")
    × (key_to_string mark_key ≡ "7_key_a_b")
    × (key_to_string (record { realm = 7; kind = PersistKind.certificate; key = "*.a" })
        ≡ "7_crt_STAR_a")
unfolding key_to_string sanitize decimal digits replace_char
names = (refl, refl, refl)

memory_persist-IsLawful_example :
    ((k : PersistKey) (v : Bytes) (s : test_persist.Store) → (test_persist.put k v s).0 ≡ ok tt)
    × IsLawful test_persist (λ text. Unit)
memory_persist-IsLawful_example = memory_persist-IsLawful test_crates

abbrev pub directory : Directory
directory = record { nonce_pool = 0; api_directory = a_directory }

abbrev first_account : Account test_crates
first_account = record {
  inner = record {
    transport = record {
      acme_key = record { private_key = 65 ∷ []; key_id = some "https://ca/location" };
      nonce_pool = 0;
    };
    contact_email = "me@a.se";
    api_account = an_account;
    api_directory = a_directory;
  };
}

abbrev registering : World test_crates test_persist
registering = world_with (answer "n1" "" ∷ answer "n2" "{}" ∷ [])

abbrev registered : World test_crates test_persist
registered = (account 3 directory "me@a.se" registering).1

-- Later, other servers.
abbrev later : World test_crates test_persist
later = record (world_with (answer "m1" "" ∷ answer "m2" "{}" ∷ [])) {
  entropy = 9;
  store = registered.store;
}

registers : (account 3 directory "me@a.se" registering).0 ≡ ok first_account
unfolding ◌>>=◌ repeat draw sleep put get call call_jwk do_call attempt judge get_nonce fetch_nonce
    extract_nonce push_nonce send req_expect_header req_handle_error problem_of read_json base64url
    jws_with_kid jws_with_jwk jws_with payload_text key_id_of protected_json jws_json
    empty_string_json empty_object_json is_bad_nonce is_jwt_verification_error is_status as_bytes
    from_utf8_lossy decode_char from_u32 encode_char account generate_key key_to_pem account_json
    jwk_of jwk_json ec_group lookup
registers = refl

returns_later : (account 4 directory "me@a.se" later).0 ≡ ok first_account
unfolding ◌>>=◌ repeat draw sleep put get call call_jwk do_call attempt judge get_nonce fetch_nonce
    extract_nonce push_nonce send req_expect_header req_handle_error problem_of read_json base64url
    jws_with_kid jws_with_jwk jws_with payload_text key_id_of protected_json jws_json
    empty_string_json empty_object_json is_bad_nonce is_jwt_verification_error is_status as_bytes
    from_utf8_lossy decode_char from_u32 encode_char account generate_key key_to_pem key_from_pem
    account_json jwk_of jwk_json ec_group lookup insert key_to_string sanitize decimal digits
    replace_char
returns_later = refl

pem_round_trip : PemRoundTrip test_crates
pem_round_trip k pem e = ap inr (sym (some-injective k pem e))

no_key : (test_persist.get (account_key test_crates "me@a.se") registering.store).0 ≡ ok none
unfolding lookup
no_key = refl

account-resumes_example :
    first_account.inner.transport.acme_key.private_key
    ≡ first_account.inner.transport.acme_key.private_key
account-resumes_example =
    account-resumes (memory_persist-IsLawful test_crates).1 3 4 directory directory "me@a.se"
      registering later first_account first_account pem_round_trip tt no_key registers refl
      returns_later

rfc_reason-reason_code_example : rfc_reason (reason_code remove_from_crl) ≡ some remove_from_crl
rfc_reason-reason_code_example = rfc_reason-reason_code remove_from_crl

account-key_id_example :
    (first_account.inner.contact_email ≡ "me@a.se")
    × (first_account.inner.api_directory ≡ a_directory)
    × (first_account.inner.transport.nonce_pool ≡ 0)
    × ((kid : String) × (key_id_of first_account.inner.transport.acme_key ≡ ok kid))
account-key_id_example = account-key_id 3 directory "me@a.se" registering first_account registers
