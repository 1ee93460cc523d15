-- ===== src/Trans/Written.antt =====
-- What `jws_with_kid` and `jws_with_jwk` of src/trans.rs write for a URL.
use acme_lib.World.Values.{Returns-weaken, Returns, Returns-bind_of, Returns-lift}
use acme_lib.Prelude.{◌≡◌, refl, ap, ◌∙◌, String, ◌<>◌, ◌++◌, ◌⊎◌, inl, inr, some, Bytes}
use acme_lib.Std.{as_bytes}
use acme_lib.Json.{Json}
use acme_lib.Crates.{Crates}
use acme_lib.Outcome.{ok, or_json, ok-injective, expect-eq-ok}
use acme_lib.Persist.{Persist}
use acme_lib.World.{draw}
use acme_lib.Req.{base64url}
use acme_lib.Acc.Key.{AcmeKey, key_id_of}
use acme_lib.Jwt.{Jwk, Jws, JwsProtected, new_kid, new_jwk, jwk_of, protected_json, jws_json}
use acme_lib.Trans.{payload_text, jws_with, jws_with_kid, jws_with_jwk}

-- What is signed for a header and a payload in JSON.
abbrev pub signing_digest : (C : Crates) → String → String → Bytes
signing_digest C pro_json pay_json =
    C.sha256 (as_bytes (base64url C (as_bytes pro_json) <> "." <> payload_text C pay_json))

-- The body of a header and a payload in JSON, with the two numbers of a signature.
abbrev pub body_of : (C : Crates) → String → String → Bytes → Bytes → Jws
body_of C pro_json pay_json r s = record {
  protected = base64url C (as_bytes pro_json);
  payload = payload_text C pay_json;
  signature = base64url C (r ++ s);
}

-- The text is a body with the header and the payload, signed by the key.
pub record Written (C : Crates) (header : JwsProtected) (key : AcmeKey C) (payload : Json)
    (text : String) : Type 0 where
  pub pro_json : String
  pub pay_json : String
  pub r : Bytes
  pub s : Bytes
  pub entropy : C.Entropy
  pub writes_header : C.to_string (protected_json header) ≡ inr pro_json
  pub writes_payload : C.to_string payload ≡ inr pay_json
  pub signs :
      (C.ecdsa_sign (signing_digest C pro_json pay_json) key.private_key entropy).0 ≡ some (r, s)
  pub writes_body : C.to_string (jws_json (body_of C pro_json pay_json r s)) ≡ inr text

-- The header is for the URL, and says whose key it is: by the account's URL, or by the key itself.
abbrev pub Names : (C : Crates) → AcmeKey C → String → JwsProtected → Type 0
Names C key url header =
    (nonce : String) × (((kid : String) × (key.key_id ≡ some kid)
        × (header ≡ new_kid kid url nonce))
      ⊎ ((jwk : Jwk) × (jwk_of C key ≡ ok jwk) × (header ≡ new_jwk jwk url nonce)))

-- A body with the payload that is signed by the key for the URL.
abbrev pub SignedBy : (C : Crates) → AcmeKey C → String → Json → String → Type 0
SignedBy C key url payload text =
    (header : JwsProtected) × Names C key url header × Written C header key payload text

-- A body that is signed for the URL.
abbrev pub SignedFor : (C : Crates) → String → String → Type 0
SignedFor C url text =
    (key : AcmeKey C) × (header : JwsProtected) × (payload : Json) × Names C key url header
    × Written C header key payload text

-- A body with the payload that is signed for the URL and the nonce in the name of an account.
abbrev pub WrittenWith : (C : Crates) → AcmeKey C → String → Json → String → String → Type 0
WrittenWith C key url payload nonce text =
    (kid : String) × (key.key_id ≡ some kid) × Written C (new_kid kid url nonce) key payload text

-- So with some nonce.
abbrev pub WrittenFor : (C : Crates) → AcmeKey C → String → Json → String → Type 0
WrittenFor C key url payload text = (nonce : String) × WrittenWith C key url payload nonce text

pub or_json-eq-ok :
    {C : Crates} {A : Type 0} (o : C.JsonError ⊎ A) {a : A} → or_json {C = C} o ≡ ok a → o ≡ inr a
or_json-eq-ok {C} (inl e) h = cc
or_json-eq-ok {C} (inr x) h = ap inr (ok-injective {C = C} h)

module _ {C : Crates} {P : Persist C} where
  Returns-draw :
      {A : Type 0} (f : C.Entropy → A × C.Entropy)
      → Returns {P = P} (λ a. (e : C.Entropy) × ((f e).0 ≡ a)) (draw f)
  unfolding draw
  Returns-draw f = record { at = λ w a h. (w.entropy, ok-injective {C = C} h) }

  pub jws_with-Written :
      (header : JwsProtected) (key : AcmeKey C) (payload : Json)
      → Returns {P = P} (Written C header key payload) (jws_with header key payload)
  unfolding jws_with
  jws_with-Written header key payload =
      Returns-bind_of (λ pro. C.to_string (protected_json header) ≡ inr pro)
        (Returns-lift _ (λ pro e. or_json-eq-ok {C = C} _ e))
        λ pro_json written.
          Returns-bind_of (λ pay. C.to_string payload ≡ inr pay)
            (Returns-lift _ (λ pay e. or_json-eq-ok {C = C} _ e))
            λ pay_json pay_written. Returns-bind_of _ (Returns-draw _) λ signed (entropy, drawn).
              Returns-bind_of (λ rs. signed ≡ some rs)
                (Returns-lift _ (λ rs e. expect-eq-ok {C = C} "EcdsaSig::sign" signed e))
                λ (r, s) made. Returns-lift _ (λ text e. record {
                  pro_json = pro_json;
                  pay_json = pay_json;
                  r = r;
                  s = s;
                  entropy = entropy;
                  writes_header = written;
                  writes_payload = pay_written;
                  signs = drawn ∙ made;
                  writes_body = or_json-eq-ok {C = C} _ e;
                })

  pub jws_with_kid-WrittenWith :
      (url nonce : String) (key : AcmeKey C) (payload : Json)
      → Returns {P = P} (WrittenWith C key url payload nonce) (jws_with_kid url nonce key payload)
  unfolding jws_with_kid key_id_of
  jws_with_kid-WrittenWith url nonce key payload =
      Returns-bind_of (λ kid. key.key_id ≡ some kid)
        (Returns-lift _ (λ kid e. expect-eq-ok {C = C} "key_id" key.key_id e))
        λ kid has_kid.
          Returns-weaken (jws_with-Written (new_kid kid url nonce) key payload)
            λ text written. (kid, has_kid, written)

  pub jws_with_kid-WrittenFor :
      (url nonce : String) (key : AcmeKey C) (payload : Json)
      → Returns {P = P} (WrittenFor C key url payload) (jws_with_kid url nonce key payload)
  jws_with_kid-WrittenFor url nonce key payload =
      Returns-weaken (jws_with_kid-WrittenWith url nonce key payload)
        λ text written. (nonce, written)

  pub jws_with_kid-SignedBy :
      (url nonce : String) (key : AcmeKey C) (payload : Json)
      → Returns {P = P} (SignedBy C key url payload) (jws_with_kid url nonce key payload)
  jws_with_kid-SignedBy url nonce key payload =
      Returns-weaken (jws_with_kid-WrittenWith url nonce key payload)
        λ text (kid, has_kid, written).
          (new_kid kid url nonce, (nonce, inl (kid, has_kid, refl)), written)

  pub jws_with_kid-SignedFor :
      (url nonce : String) (key : AcmeKey C) (payload : Json)
      → Returns {P = P} (SignedFor C url) (jws_with_kid url nonce key payload)
  jws_with_kid-SignedFor url nonce key payload =
      Returns-weaken (jws_with_kid-SignedBy url nonce key payload)
        λ text (header, names, written). (key, header, payload, names, written)

  pub jws_with_jwk-SignedBy :
      (url nonce : String) (key : AcmeKey C) (payload : Json)
      → Returns {P = P} (SignedBy C key url payload) (jws_with_jwk url nonce key payload)
  unfolding jws_with_jwk
  jws_with_jwk-SignedBy url nonce key payload =
      Returns-bind_of (λ jwk. jwk_of C key ≡ ok jwk) (Returns-lift _ (λ jwk e. e))
        λ jwk made.
          Returns-weaken (jws_with-Written (new_jwk jwk url nonce) key payload)
            λ text written. (new_jwk jwk url nonce, (nonce, inr (jwk, made, refl)), written)

  pub jws_with_jwk-SignedFor :
      (url nonce : String) (key : AcmeKey C) (payload : Json)
      → Returns {P = P} (SignedFor C url) (jws_with_jwk url nonce key payload)
  jws_with_jwk-SignedFor url nonce key payload =
      Returns-weaken (jws_with_jwk-SignedBy url nonce key payload)
        λ text (header, names, written). (key, header, payload, names, written)
