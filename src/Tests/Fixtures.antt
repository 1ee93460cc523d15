-- ===== src/Tests/Fixtures.antt =====
-- The crates made concrete for the tests: servers that answer from a list, JSON as plain text,
-- keys that are bytes.
use acme_lib.Prelude.{
  ◌=ᵇ◌, ℤ, pos, negsuc, ◌-◌, ◌/◌, ℕ, suc, ◌+◌, String, ◌<>◌, true, false, ◌&&◌, Option, none, some,
  List, [], ◌∷◌, ◌==◌, ◌⊎◌, inl, inr, if◌then◌else◌, ltb, leb, Bytes, length,
}
use acme_lib.Std.{decimal, as_bytes, from_utf8_lossy}
use acme_lib.Json.{
  Json, null, bool, number, string, array, object, Items, nil, item, Fields, end, field,
}
use acme_lib.Api.{ApiDirectory, ApiAccount, ApiOrder, ApiAuth, ApiChallenge}
use acme_lib.Crates.{Crates, Request}
use acme_lib.Persist.{Persist}
use acme_lib.Persist.Memory.{memory_persist}
use acme_lib.World.{World}
use acme_lib.Acc.Inner.{AccountInner}
use acme_lib.Trans.{Transport}
use acme_lib.Order.{NewOrder, new_order_of}
use acme_lib.Order.Auth.{Challenge, Marker}

pub record Answer : Type 0 where
  pub code : ℕ
  pub media : String
  pub headers : List (String × String)
  pub text : String

abbrev pub header_of : List (String × String) → String → Option String
header_of [] name = none
header_of ((n, v) ∷ rest) name = if n == name then some v else header_of rest name

abbrev mutual
  pub print : Json → String
  print null = "null"
  print (bool true) = "true"
  print (bool false) = "false"
  print (number n) = decimal n
  print (string s) = "\"" <> s <> "\""
  print (array l) = "[" <> print_items l <> "]"
  print (object o) = "{" <> print_fields o <> "}"

  print_items : Items → String
  print_items nil = ""
  print_items (item j l) = print j <> "," <> print_items l

  print_fields : Fields → String
  print_fields end = ""
  print_fields (field name j o) = name <> ":" <> print j <> "," <> print_fields o

abbrev pub an_order : String → ApiOrder
an_order status = record {
  status = some status;
  expires = none;
  identifiers = record { type = "dns"; value = "a.se" } ∷ [];
  not_before = none;
  not_after = none;
  error = none;
  authorizations = some ("https://ca/auth/1" ∷ []);
  finalize = "https://ca/finalize";
  certificate = some "https://ca/cert";
}

abbrev pub a_challenge : ApiChallenge
a_challenge = record {
  url = "https://ca/challenge";
  type = "http-01";
  status = "pending";
  token = "token";
  validated = none;
  error = none;
}

abbrev pub an_auth : String → ApiAuth
an_auth status = record {
  identifier = record { type = "dns"; value = "a.se" };
  status = some status;
  expires = none;
  challenges = a_challenge ∷ [];
  wildcard = none;
}

abbrev pub a_directory : ApiDirectory
a_directory = record {
  new_nonce = "https://ca/nonce";
  new_account = "https://ca/account";
  new_order = "https://ca/order";
  new_authz = none;
  revoke_cert = "https://ca/revoke";
  key_change = "https://ca/change";
  meta = none;
}

abbrev pub an_account : ApiAccount
an_account = record {
  status = some "valid";
  contact = [];
  terms_of_service_agreed = none;
  orders = none;
}

-- Past the end of the list the server says nothing.
abbrev pub answer_next : Request → List Answer → Answer × List Answer
answer_next req [] = (record { code = 200; media = ""; headers = []; text = "" }, [])
answer_next req (a ∷ rest) = (a, rest)

abbrev unless_empty : {A : Type 0} → (String → A) → String → String ⊎ A
unless_empty f text = if text == "" then inl "EOF" else inr (f text)

abbrev pub negated : ℕ → ℤ
negated n = if n =ᵇ 0 then pos 0 else negsuc (n - 1)

-- The text of an answer is the status of the object, or the type of the problem.
abbrev pub test_crates : Crates
test_crates = record {
  Net = List Answer;
  Response = Answer;
  call_request = answer_next;
  is_ok = λ a. leb 200 a.code && ltb a.code 300;
  status = λ a. a.code;
  status_text = λ a. "status";
  content_type = λ a. a.media;
  header = λ a. header_of a.headers;
  read_to_string = λ a. a.text;
  IoError = String;
  into_string = λ a. if a.text == "" then inl "EOF" else inr a.text;
  JsonError = String;
  json_error_display = λ e. e;
  to_string = λ j. inr (print j);
  problem_from_str = unless_empty (λ t. record { type = t; detail = none; subproblems = none });
  directory_from_str = unless_empty (λ t. a_directory);
  account_from_str = unless_empty (λ t. an_account);
  order_from_str = unless_empty an_order;
  auth_from_str = unless_empty an_auth;
  challenge_from_str = unless_empty (λ t. a_challenge);
  DecodeError = String;
  CharacterSet = Unit;
  url_safe = tt;
  encode_config = λ bs set pad. from_utf8_lossy bs;
  debug_str = λ s. "\"" <> s <> "\"";
  default_hash = λ s. length (as_bytes s);
  Entropy = ℕ;
  SslError = String;
  ssl_error_display = λ e. e;
  EcKey = Bytes;
  Nid = ℕ;
  x9_62_prime256v1 = 415;
  secp384r1 = 715;
  EcGroup = ℕ;
  from_curve_name = λ nid. some nid;
  set_named_curve = λ g. g;
  EcPoint = Bytes;
  generate_ec = λ g n. (some ((65 + n) ∷ []), suc n);
  public_key = λ k. k;
  ec_key_from_pem = λ bs. inr bs;
  ec_key_to_pem = λ k. some k;
  affine_coordinates = λ k g. some (k, k);
  sha256 = λ bs. bs;
  ecdsa_sign = λ bs k n. (some (k, k), suc n);
  EcPublic = Bytes;
  from_public_key = λ g p. some p;
  Rsa = ℕ;
  RsaPublic = ℕ × ℕ;
  BigNum = ℕ;
  generate_rsa = λ bits n. (some (bits + n), suc n);
  rsa_n = λ k. some k;
  rsa_e = λ k. some 65537;
  from_public_components = λ n e. some (n, e);
  from_rsa = λ k. some (k ∷ []);
  from_rsa_public = λ (n, e). some (n ∷ e ∷ []);
  from_ec_key = λ k. some k;
  from_ec_public = λ k. some k;
  PrivateKey = Bytes;
  PublicKey = Bytes;
  private_key_from_pem = λ bs. inr bs;
  public_key_from_pem = λ bs. inr bs;
  private_key_to_pem_pkcs8 = λ k. some k;
  private_key_to_der = λ k. some k;
  ReqBuilder = String;
  Extension = String;
  X509Req = String;
  req_builder = some "";
  set_pubkey = λ b k. some b;
  san_build = λ b text. some text;
  add_extensions = λ b e. some (b <> e);
  sign_sha256 = λ b k n. (some b, suc n);
  build = λ b. b;
  req_to_der = λ r. some (as_bytes r);
  X509 = Bytes;
  x509_from_pem = λ bs. some bs;
  x509_to_der = λ bs. some bs;
  not_after = λ bs. from_utf8_lossy bs;
  Tm = ℕ;
  strptime = λ s format. if s == "" then none else some (length (as_bytes s));
  Duration = ℤ;
  minus_tm = λ a b. if leb b a then pos (a - b) else negsuc (b - a - 1);
  num_days = λ d. elim d [
    | pos n ↦ pos (n / 86400000000000)
    | negsuc n ↦ negated ((n + 1) / 86400000000000)
  ];
}

abbrev pub test_persist : Persist test_crates
test_persist = memory_persist test_crates

-- A world with one pool, which is empty, and servers that give the answers.
abbrev pub world_with : List Answer → World test_crates test_persist
world_with answers = record {
  net = answers;
  entropy = 0;
  pools = λ p. record { nonce_url = "https://ca/nonce"; pool = [] };
  next_pool = 1;
  store = [];
  trace = [];
}

-- An answer that is ok and brings a nonce.
abbrev pub answer : String → String → Answer
answer nonce text = record {
  code = 200;
  media = "application/json";
  headers = ("replay-nonce", nonce) ∷ ("location", "https://ca/location") ∷ [];
  text = text;
}

-- A problem with a type, and a nonce.
abbrev pub refusal : String → String → Answer
refusal nonce type = record {
  code = 400;
  media = "application/problem+json";
  headers = ("replay-nonce", nonce) ∷ [];
  text = type;
}

abbrev pub a_transport : Transport test_crates
a_transport = record {
  acme_key = record { private_key = 75 ∷ []; key_id = some "https://ca/account/1" };
  nonce_pool = 0;
}

abbrev pub an_inner : AccountInner test_crates
an_inner = record {
  transport = a_transport;
  contact_email = "me@a.se";
  api_account = an_account;
  api_directory = a_directory;
}

abbrev pub a_new_order : NewOrder test_crates
a_new_order = new_order_of an_inner (an_order "pending") "https://ca/order/1"

abbrev pub an_http_challenge : Challenge test_crates Marker.http
an_http_challenge = record {
  inner = an_inner;
  api_challenge = a_challenge;
  auth_url = "https://ca/auth/1";
}
