-- ===== src/Crates.antt =====
-- What the library takes from other crates and from the machine: ureq with the network behind it,
-- openssl with its random numbers, serde_json, base64, and `DefaultHasher`, whose algorithm the
-- standard library leaves open. Their values are opaque and their functions are parameters.
use acme_lib.Prelude.{ℕ, ℤ, String, Bool, Option, ◌⊎◌, Bytes}
use acme_lib.Json.{Json}
use acme_lib.Api.{ApiProblem, ApiDirectory, ApiAccount, ApiOrder, ApiAuth, ApiChallenge}

pub data Method : Type 0 where
  get head post : Method

-- A `ureq::Request` as src/req.rs builds it: method, URL, headers set, timeouts in milliseconds, and
-- the text that is sent.
pub record Request : Type 0 where
  pub method : Method
  pub url : String
  pub content_type : Option String
  pub timeout_connect : Option ℕ
  pub timeout_read : Option ℕ
  pub timeout_write : Option ℕ
  pub payload : Option String

pub record Crates : Type 1 where
  -- ureq. `call_request` takes the state of the network and of its servers; a failure to connect is
  -- a response too. `read_to_string` is the text read up to the end or to the first error.
  pub Net : Type 0
  pub Response : Type 0
  pub call_request : Request → Net → Response × Net
  pub is_ok : Response → Bool
  pub status : Response → ℕ
  pub status_text : Response → String
  pub content_type : Response → String
  pub header : Response → String → Option String
  pub read_to_string : Response → String
  pub IoError : Type 0
  pub into_string : Response → IoError ⊎ String
  -- serde_json, with the `Deserialize` that serde derives
  pub JsonError : Type 0
  pub json_error_display : JsonError → String
  pub to_string : Json → JsonError ⊎ String
  pub problem_from_str : String → JsonError ⊎ ApiProblem
  pub directory_from_str : String → JsonError ⊎ ApiDirectory
  pub account_from_str : String → JsonError ⊎ ApiAccount
  pub order_from_str : String → JsonError ⊎ ApiOrder
  pub auth_from_str : String → JsonError ⊎ ApiAuth
  pub challenge_from_str : String → JsonError ⊎ ApiChallenge
  -- base64, for a character set and a padding
  pub DecodeError : Type 0
  pub CharacterSet : Type 0
  pub url_safe : CharacterSet
  pub encode_config : Bytes → CharacterSet → Bool → String
  -- The `Debug` of a string, whose escapes follow the tables of Unicode.
  pub debug_str : String → String
  -- std::collections::hash_map::DefaultHasher, over one string
  pub default_hash : String → ℕ
  -- openssl: elliptic curves, with the account's keys on them. Allocation does not fail.
  pub Entropy : Type 0
  pub SslError : Type 0
  pub ssl_error_display : SslError → String
  pub Nid : Type 0
  pub x9_62_prime256v1 : Nid
  pub secp384r1 : Nid
  pub EcGroup : Type 0
  pub from_curve_name : Nid → Option EcGroup
  pub set_named_curve : EcGroup → EcGroup
  pub EcKey : Type 0
  pub EcPoint : Type 0
  pub generate_ec : EcGroup → Entropy → Option EcKey × Entropy
  pub public_key : EcKey → EcPoint
  pub ec_key_from_pem : Bytes → SslError ⊎ EcKey
  pub ec_key_to_pem : EcKey → Option Bytes
  pub affine_coordinates : EcPoint → EcGroup → Option (Bytes × Bytes)
  pub sha256 : Bytes → Bytes
  pub ecdsa_sign : Bytes → EcKey → Entropy → Option (Bytes × Bytes) × Entropy
  -- openssl: RSA and public keys, and how they become keys of certificates.
  pub EcPublic : Type 0
  pub from_public_key : EcGroup → EcPoint → Option EcPublic
  pub Rsa : Type 0
  pub RsaPublic : Type 0
  pub BigNum : Type 0
  pub generate_rsa : ℕ → Entropy → Option Rsa × Entropy
  pub rsa_n : Rsa → Option BigNum
  pub rsa_e : Rsa → Option BigNum
  pub from_public_components : BigNum → BigNum → Option RsaPublic
  pub PrivateKey : Type 0
  pub PublicKey : Type 0
  pub from_rsa : Rsa → Option PrivateKey
  pub from_rsa_public : RsaPublic → Option PublicKey
  pub from_ec_key : EcKey → Option PrivateKey
  pub from_ec_public : EcPublic → Option PublicKey
  -- openssl: certificates, requests for them, and their keys as text. `san_build` is
  -- `SubjectAlternativeName::new().dns(text).build(context)`; `add_extensions` makes the stack with the
  -- one extension too.
  pub private_key_from_pem : Bytes → SslError ⊎ PrivateKey
  pub public_key_from_pem : Bytes → SslError ⊎ PublicKey
  pub private_key_to_pem_pkcs8 : PrivateKey → Option Bytes
  pub private_key_to_der : PrivateKey → Option Bytes
  pub ReqBuilder : Type 0
  pub Extension : Type 0
  pub X509Req : Type 0
  pub req_builder : Option ReqBuilder
  pub set_pubkey : ReqBuilder → PublicKey → Option ReqBuilder
  pub san_build : ReqBuilder → String → Option Extension
  pub add_extensions : ReqBuilder → Extension → Option ReqBuilder
  pub sign_sha256 : ReqBuilder → PrivateKey → Entropy → Option ReqBuilder × Entropy
  pub build : ReqBuilder → X509Req
  pub req_to_der : X509Req → Option Bytes
  pub X509 : Type 0
  pub x509_from_pem : Bytes → Option X509
  pub x509_to_der : X509 → Option Bytes
  -- `format!("{}", x509.not_after())`
  pub not_after : X509 → String
  -- time: points in time, the parser of a format, and the time between two points.
  pub Tm : Type 0
  pub strptime : String → String → Option Tm
  pub Duration : Type 0
  pub minus_tm : Tm → Tm → Duration
  pub num_days : Duration → ℤ
