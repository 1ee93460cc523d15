-- ===== src/Trans/Signed.antt =====
-- On the signed bodies that src/trans.rs sends, read as a server reads them (RFC 7515, RFC 7518).
use acme_lib.Prelude.{
  [], ◌≡◌, refl, sym, ◌∙◌, String, ◌<>◌, Bool, true, false, ◌&&◌, ◌==◌, ◌=ᵇ◌, if◌then◌else◌, Option,
  none, some, Bool-cases, ◌++◌, inl, inr, Bytes, length, length-append, take, drop, take-append,
  drop_all-append, arith,
}
use mathlib.Core.Option
use acme_lib.Std.{as_bytes, from_utf8}
use acme_lib.Std.RoundTrip.{from_utf8-as_bytes}
use acme_lib.Json.{Json, Fields, object, field, end, string}
use acme_lib.Crates.{Crates}
use acme_lib.Outcome.{ok, or_json}
use acme_lib.Persist.{Persist}
use acme_lib.World.{World, draw, ◌>>=◌}
use acme_lib.Req.{base64url}
use acme_lib.Acc.Key.{AcmeKey}
use acme_lib.Jwt.{JwsProtected, protected_json, jws_json}
use acme_lib.Trans.{payload_text, jws_with}
use acme_lib.Trans.Written.{signing_digest, body_of, or_json-eq-ok}

-- The other ends of serde_json, base64 and the signatures of openssl.
pub record Reader (C : Crates) : Type 0 where
  pub parse : String → Option Json
  pub decode : String → Option Bytes
  pub verify : C.EcPoint → Bytes → Bytes → Bytes → Bool
  pub parse_written : (j : Json) (s : String) → C.to_string j ≡ inr s → parse s ≡ some j
  pub decode_encoded : (b : Bytes) → decode (C.encode_config b C.url_safe false) ≡ some b
  pub decode_empty : decode "" ≡ some []
  pub verify_signed :
      (digest : Bytes) (k : C.EcKey) (e : C.Entropy) (r s : Bytes)
      → (C.ecdsa_sign digest k e).0 ≡ some (r, s)
      → verify (C.public_key k) digest r s ≡ true

abbrev member : String → Fields → Option String
member name end = none
member name (field key (string s) rest) = if name == key then some s else member name rest
member name (field key _ rest) = if name == key then none else member name rest

abbrev text_at : String → Json → Option String
text_at name (object fields) = member name fields
text_at name _ = none

module _ {C : Crates} (reader : Reader C) where
  -- The protected header and the payload of a JWS in JSON, if its ES256 signature, which is 32 bytes for
  -- each of the two numbers, is one of the key.
  unfoldable pub server_reads : C.EcPoint → String → Option (Json × Bytes)
  unfolding Option.bind
  server_reads point text = Option.bind (reader.parse text) λ jws.
      Option.bind (text_at "protected" jws) λ head. Option.bind (text_at "payload" jws) λ payload.
        Option.bind (text_at "signature" jws) λ signature.
          Option.bind (reader.decode signature) λ rs.
            if (length rs =ᵇ 64)
              && reader.verify point (C.sha256 (as_bytes (head <> "." <> payload))) (take 32 rs)
                  (drop 32 rs)
            then (Option.bind (reader.decode head) λ head_bytes.
                Option.bind (from_utf8 head_bytes) λ head_text.
                  Option.bind (reader.parse head_text)
                    λ header. Option.bind (reader.decode payload) λ body. some (header, body))
            else none

-- The bytes of a payload; `""` in JSON stands for none.
abbrev pub payload_bytes : String → Bytes
payload_bytes pay_json = if pay_json == "\"\"" then [] else as_bytes pay_json

decode-payload_text :
    {C : Crates} (reader : Reader C) (pay_json : String)
    → reader.decode (payload_text C pay_json) ≡ some (payload_bytes pay_json)
unfolding payload_text base64url
decode-payload_text reader pay_json = elim (Bool-cases (pay_json == "\"\"")) [
  | inl empty ↦ rw empty reader.decode_empty
  | inr other ↦ rw other (reader.decode_encoded (as_bytes pay_json))
]

module _ {C : Crates} (reader : Reader C) (header : JwsProtected) (key : AcmeKey C)
    (pro_json pay_json text : String) (r s : Bytes) (entropy : C.Entropy) where
  read_signature :
      (C.ecdsa_sign (signing_digest C pro_json pay_json) key.private_key entropy).0 ≡ some (r, s)
      → length r ≡ 32
      → length s ≡ 32
      → ((length (r ++ s) =ᵇ 64)
          && reader.verify
              (C.public_key key.private_key)
              (signing_digest C pro_json pay_json)
              (take 32 (r ++ s))
              (drop 32 (r ++ s)))
        ≡ true
  read_signature e hr hs =
      let both : (length (r ++ s) =ᵇ 64) ≡ true = ground (arith, length-append r s) in
      rw both (
        rw (take-append 32 r s hr)
          (rw (drop_all-append 32 r s hr) (reader.verify_signed _ _ entropy r s e)))

  -- A body that is written and signed is read.
  pub server_reads-written :
      C.to_string (protected_json header) ≡ inr pro_json
      → (C.ecdsa_sign (signing_digest C pro_json pay_json) key.private_key entropy).0 ≡ some (r, s)
      → C.to_string (jws_json (body_of C pro_json pay_json r s)) ≡ inr text
      → length r ≡ 32
      → length s ≡ 32
      → server_reads reader (C.public_key key.private_key) text
        ≡ some (protected_json header, payload_bytes pay_json)
  unfolding server_reads jws_json Option.bind base64url
  server_reads-written e1 e3 written hr hs =
      rw (reader.parse_written (jws_json (body_of C pro_json pay_json r s)) text written) (
        rw (reader.decode_encoded (r ++ s)) (
          rw (read_signature e3 hr hs) (
            rw (reader.decode_encoded (as_bytes pro_json)) (
              rw (from_utf8-as_bytes pro_json) (
                rw (reader.parse_written (protected_json header) pro_json e1)
                  (rw (decode-payload_text reader pay_json) refl))))))

module _ {C : Crates} {P : Persist C} (reader : Reader C) (h : JwsProtected) (k : AcmeKey C)
    (payload : Json) (w : World C P) (pro_json pay_json text : String) (r s : Bytes) where
  jws_with-made :
      C.to_string (protected_json h) ≡ inr pro_json
      → C.to_string payload ≡ inr pay_json
      → (C.ecdsa_sign (signing_digest C pro_json pay_json) k.private_key w.entropy).0 ≡ some (r, s)
      → (jws_with h k payload w).0
        ≡ or_json (C.to_string (jws_json (body_of C pro_json pay_json r s)))
  unfolding jws_with ◌>>=◌ draw
  jws_with-made e1 e2 e3 = rw e1 (rw e2 (rw e3 refl))

  -- If the two numbers of a signature that is drawn have 32 bytes each, then a server that has the public
  -- key reads the body that is made as signed by the key, with the header and the payload that were given.
  pub server_reads-jws_with :
      C.to_string (protected_json h) ≡ inr pro_json
      → C.to_string payload ≡ inr pay_json
      → (C.ecdsa_sign (signing_digest C pro_json pay_json) k.private_key w.entropy).0 ≡ some (r, s)
      → length r ≡ 32
      → length s ≡ 32
      → (jws_with h k payload w).0 ≡ ok text
      → server_reads reader (C.public_key k.private_key) text
        ≡ some (protected_json h, payload_bytes pay_json)
  server_reads-jws_with e1 e2 e3 hr hs e4 =
      server_reads-written reader h k pro_json pay_json text r s w.entropy e1 e3
        (or_json-eq-ok {C = C} _ (sym (jws_with-made e1 e2 e3) ∙ e4)) hr hs
