-- ===== src/Trans.antt =====
-- Signed requests and nonces (src/trans.rs).
pub mod Pool
pub mod Retry
pub mod Written
pub mod Signed
use acme_lib.Prelude.{
  ℕ, zero, suc, String, ◌<>◌, true, false, ◌||◌, List, [], ◌∷◌, ◌++◌, ◌⊎◌, inl, inr, Option, none,
  some, ◌==◌, if◌then◌else◌, Bytes,
}
use acme_lib.Std.{as_bytes}
use acme_lib.Json.{Json}
use acme_lib.Api.{ApiProblem, is_bad_nonce, is_jwt_verification_error}
use acme_lib.Crates.{Crates}
use acme_lib.Outcome.{
  Outcome, ok, err, panic, out_of_fuel, api_problem, or_json, or_problem, expect,
}
use acme_lib.Persist.{Persist}
use acme_lib.World.{Act, lift, pure, draw, repeat, ◌>>=◌, ◌>>◌}
use acme_lib.Req.{req_post, req_handle_error, base64url}
use acme_lib.Acc.Key.{AcmeKey, key_id_of}
use acme_lib.Acc.Key
use acme_lib.Jwt.{JwsProtected, Jws, new_kid, new_jwk, jwk_of, protected_json, jws_json}
use Pool.{get_nonce, extract_nonce}

-- `nonce_pool` is the number of the shared pool.
pub record Transport (C : Crates) : Type 0 where
  pub acme_key : AcmeKey C
  pub nonce_pool : ℕ

-- `Transport::new`
abbrev pub new_transport : {C : Crates} → ℕ → AcmeKey C → Transport C
new_transport nonce_pool acme_key = record { acme_key = acme_key; nonce_pool = nonce_pool }

-- `Transport::set_key_id`
abbrev pub set_key_id : {C : Crates} → Transport C → String → Transport C
set_key_id t kid = record t { acme_key = Key.set_key_id t.acme_key kid }

module _ (C : Crates) where
  -- The text of a payload: `ApiEmptyString` is not encoded any further.
  unfoldable pub payload_text : String → String
  payload_text pay_json = if pay_json == "\"\"" then "" else base64url C (as_bytes pay_json)

module _ {C : Crates} {P : Persist C} where
  -- `jws_with`
  unfoldable pub jws_with : JwsProtected → AcmeKey C → Json → Act C P String
  jws_with protected key payload = do
    pro_json ← lift (or_json (C.to_string (protected_json protected)))
    pay_json ← lift (or_json (C.to_string payload))
    let head = base64url C (as_bytes pro_json)
    let text = payload_text C pay_json
    signed ← draw (C.ecdsa_sign (C.sha256 (as_bytes (head <> "." <> text))) key.private_key)
    (r, s) ← lift (expect "EcdsaSig::sign" signed)
    let jws : Jws = record { protected = head; payload = text; signature = base64url C (r ++ s) }
    lift (or_json (C.to_string (jws_json jws)))

  -- `jws_with_kid`
  unfoldable pub jws_with_kid : String → String → AcmeKey C → Json → Act C P String
  jws_with_kid url nonce key payload = do
    kid ← lift (key_id_of key)
    jws_with (new_kid kid url nonce) key payload

  -- `jws_with_jwk`
  unfoldable pub jws_with_jwk : String → String → AcmeKey C → Json → Act C P String
  jws_with_jwk url nonce key payload = do
    jwk ← lift (jwk_of C key)
    jws_with (new_jwk jwk url nonce) key payload

module _ (C : Crates) where
  -- `problem.is_bad_nonce()` and `problem.is_jwt_verification_error()` lead to another round.
  unfoldable pub judge : ApiProblem ⊎ C.Response → Outcome C (Option C.Response)
  judge (inr res) = ok (some res)
  judge (inl problem) =
      if is_bad_nonce problem || is_jwt_verification_error problem
      then ok none
      else err (api_problem problem)

module _ {C : Crates} {P : Persist C} (t : Transport C) (url : String) (body : Json) where
  -- One round of the loop in `do_call`; `none` is `continue`.
  unfoldable pub attempt :
      (String → String → AcmeKey C → Json → Act C P String) → Act C P (Option C.Response)
  attempt make_body = do
    nonce ← get_nonce t.nonce_pool
    signed ← make_body url nonce t.acme_key body
    response ← req_post url signed
    extract_nonce t.nonce_pool response
    lift (judge C (req_handle_error C response))

  -- `Transport::do_call`
  unfoldable pub do_call :
      ℕ → (String → String → AcmeKey C → Json → Act C P String) → Act C P C.Response
  do_call fuel make_body = repeat fuel (attempt make_body)

  -- `Transport::call_jwk`
  unfoldable pub call_jwk : ℕ → Act C P C.Response
  call_jwk fuel = do_call fuel jws_with_jwk

  -- `Transport::call`
  unfoldable pub call : ℕ → Act C P C.Response
  call fuel = do_call fuel jws_with_kid
