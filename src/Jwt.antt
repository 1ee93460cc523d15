-- ===== src/Jwt.antt =====
-- The signed envelope of a request (src/jwt.rs), and its serialization.
use acme_lib.Prelude.{String, Option, none, some, Bytes}
use acme_lib.Json.{Json, string, object, field, end, field_if_some}
use acme_lib.Crates.{Crates}
use acme_lib.Outcome.{Outcome, expect, map_ok, ◌>>=ᵒ◌}
use acme_lib.Req.{base64url}
use acme_lib.Cert.Curve.{ec_group_p256}
use acme_lib.Acc.Key.{AcmeKey}

pub record Jwk : Type 0 where
  pub alg : String
  pub crv : String
  pub kty : String
  pub use_ : String
  pub x : String
  pub y : String

pub record JwsProtected : Type 0 where
  pub alg : String
  pub url : String
  pub nonce : String
  pub jwk : Option Jwk
  pub kid : Option String

-- `JwsProtected::new_jwk`
abbrev pub new_jwk : Jwk → String → String → JwsProtected
new_jwk jwk url nonce = record {
  alg = "ES256";
  url = url;
  nonce = nonce;
  jwk = some jwk;
  kid = none;
}

-- `JwsProtected::new_kid`
abbrev pub new_kid : String → String → String → JwsProtected
new_kid kid url nonce = record {
  alg = "ES256";
  url = url;
  nonce = nonce;
  jwk = none;
  kid = some kid;
}

pub record JwkThumb : Type 0 where
  pub crv : String
  pub kty : String
  pub x : String
  pub y : String

-- `From<&Jwk> for JwkThumb`
abbrev pub thumb_of : Jwk → JwkThumb
thumb_of a = record { crv = a.crv; kty = a.kty; x = a.x; y = a.y }

pub record Jws : Type 0 where
  pub protected : String
  pub payload : String
  pub signature : String

unfoldable pub jwk_json : Jwk → Json
jwk_json k = object (
    field "alg" (string k.alg) (
      field "crv" (string k.crv) (
        field "kty" (string k.kty)
          (field "use" (string k.use_) (field "x" (string k.x) (field "y" (string k.y) end))))))

unfoldable pub protected_json : JwsProtected → Json
unfolding jwk_json
protected_json p = object (
    field "alg" (string p.alg) (
      field "url" (string p.url) (
        field "nonce" (string p.nonce)
          (field_if_some "jwk" jwk_json p.jwk (field_if_some "kid" string p.kid end)))))

unfoldable pub thumb_json : JwkThumb → Json
thumb_json t = object (
    field "crv" (string t.crv)
      (field "kty" (string t.kty) (field "x" (string t.x) (field "y" (string t.y) end))))

unfoldable pub jws_json : Jws → Json
jws_json j = object (
    field "protected" (string j.protected)
      (field "payload" (string j.payload) (field "signature" (string j.signature) end)))

module _ (C : Crates) where
  abbrev jwk_at : Bytes × Bytes → Jwk
  jwk_at (x, y) = record {
    alg = "ES256";
    kty = "EC";
    crv = "P-256";
    use_ = "sig";
    x = base64url C x;
    y = base64url C y;
  }

  -- `From<&AcmeKey> for Jwk`
  unfoldable pub jwk_of : AcmeKey C → Outcome C Jwk
  jwk_of a = ec_group_p256 C >>=ᵒ λ group.
      map_ok jwk_at
        (expect "affine_coordinates_gfp" (C.affine_coordinates (C.public_key a.private_key) group))
