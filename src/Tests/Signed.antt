-- ===== src/Tests/Signed.antt =====
-- A signed body that a server reads: JSON has one text for each value that is written, base64 writes a byte
-- as so many characters, and signatures are 64 zero bytes.
use Prim.Native.Char.{code}
use acme_lib.Prelude.{
  ℕ, zero, suc, ◌+◌, ◌≡◌, refl, ap, sym, ◌∙◌, String, Bool, true, false, ◌&&◌, ◌==◌, ◌=ᵇ◌, eq_iff,
  if◌then◌else◌, Option, none, some, [], ◌∷◌, ◌++◌, ◌⊎◌, inl, inr, Bytes, arith,
}
use acme_lib.Std.{as_bytes, encode_char}
use acme_lib.Json.{Json, Fields, object, string, end, field}
use acme_lib.Crates.{Crates}
use acme_lib.Outcome.{ok}
use acme_lib.Persist.Memory.{memory_persist}
use acme_lib.World.{World, draw, ◌>>=◌}
use acme_lib.Api.{empty_string_json}
use acme_lib.Req.{base64url}
use acme_lib.Acc.Key.{AcmeKey}
use acme_lib.Jwt.{JwsProtected, new_kid, protected_json, jws_json}
use acme_lib.Trans.{payload_text, jws_with}
use acme_lib.Trans.Signed.{Reader, server_reads, payload_bytes, server_reads-jws_with}
use acme_lib.Tests.Fixtures.{test_crates, an_account, a_directory, an_order, answer}
use acme_lib.Order.{NewOrder}
use acme_lib.Client.{run_all, call_refresh}
use acme_lib.Client.Signatures.{ReadTrace, run_all-ReadTrace}

abbrev mutual
  same : Json → Json → Bool
  same (string s) (string t) = s == t
  same (object f) (object g) = same_fields f g
  same _ _ = false

  same_fields : Fields → Fields → Bool
  same_fields end end = true
  same_fields (field m j f) (field n k g) = (m == n) && (same j k && same_fields f g)
  same_fields _ _ = false

and-true : (a b : Bool) → (a && b) ≡ true → (a ≡ true) × (b ≡ true)
and-true true true h = (refl, refl)
and-true true false h = cc
and-true false b h = cc

mutual
  same-eq : (j k : Json) → same j k ≡ true → j ≡ k
  same-eq (string s) (string t) h = ap string ((eq_iff s t).0 h)
  same-eq (object f) (object g) h = ap object (same_fields-eq f g h)
  same-eq _ _ h = cc

  same_fields-eq : (f g : Fields) → same_fields f g ≡ true → f ≡ g
  same_fields-eq end end h = refl
  same_fields-eq (field m j f) (field n k g) h =
      let (a, b) = and-true (m == n) _ h in
      let (c, d) = and-true (same j k) _ b in
      let e : m ≡ n = (eq_iff m n).0 a in
      let i = same-eq j k c in let l = same_fields-eq f g d in cc
  same_fields-eq _ _ h = cc

abbrev write_byte : ℕ → String → String
write_byte zero rest = String.◌∷◌ "." rest
write_byte (suc n) rest = String.◌∷◌ "x" (write_byte n rest)

abbrev write_bytes : Bytes → String
write_bytes [] = ""
write_bytes (b ∷ bs) = write_byte b (write_bytes bs)

abbrev read_bytes : ℕ → String → Bytes
read_bytes k String.[] = []
read_bytes k (String.◌∷◌ c s) = elim (code c =ᵇ 46) [
  | true ↦ k ∷ read_bytes 0 s
  | false ↦ read_bytes (suc k) s
]

read-write_byte :
    (k n : ℕ) (rest : String) → read_bytes k (write_byte n rest) ≡ (k + n) ∷ read_bytes 0 rest
read-write_byte k zero rest = let e : k ≡ k + 0 = omega arith in ap (λ m. m ∷ read_bytes 0 rest) e
read-write_byte k (suc n) rest =
    let e : suc k + n ≡ k + suc n = omega arith in
    read-write_byte (suc k) n rest ∙ ap (λ m. m ∷ read_bytes 0 rest) e

read-write_bytes : (bs : Bytes) → read_bytes 0 (write_bytes bs) ≡ bs
read-write_bytes [] = refl
read-write_bytes (b ∷ bs) =
    let e : 0 + b ≡ b = omega arith in
    read-write_byte 0 b (write_bytes bs)
    ∙ ap (λ m. m ∷ read_bytes 0 (write_bytes bs)) e
    ∙ ap (λ l. b ∷ l) (read-write_bytes bs)

abbrev a_header : JwsProtected
a_header = new_kid "k" "u" "n"

abbrev zeros : Bytes
zeros =
    0 ∷ 0 ∷ 0 ∷ 0 ∷ 0 ∷ 0 ∷ 0 ∷ 0 ∷ 0 ∷ 0 ∷ 0 ∷ 0 ∷ 0 ∷ 0 ∷ 0 ∷ 0 ∷ 0 ∷ 0 ∷ 0 ∷ 0 ∷ 0 ∷ 0 ∷ 0 ∷ 0
    ∷ 0 ∷ 0 ∷ 0 ∷ 0 ∷ 0 ∷ 0 ∷ 0 ∷ 0 ∷ []

-- The header is written as one byte.
abbrev header_json : Json
header_json = object (
    field "alg" (string "ES256")
      (field "url" (string "u") (field "nonce" (string "n") (field "kid" (string "k") end))))

abbrev signed_json : Json
signed_json = object (
    field "protected" (string (write_bytes (72 ∷ [])))
      (field "payload" (string "") (field "signature" (string (write_bytes (zeros ++ zeros))) end)))

abbrev written : Json → String ⊎ String
written j =
    if same j header_json
    then inr "H"
    else if same j signed_json
    then inr "J"
    else if same j (string "")
    then inr "\"\""
    else inl "unknown"

abbrev parsed : String → Option Json
parsed s =
    if s == "H"
    then some header_json
    else if s == "J"
    then some signed_json
    else if s == "\"\""
    then some (string "")
    else none

parsed-written : (j : Json) (s : String) → written j ≡ inr s → parsed s ≡ some j
parsed-written j s h =
    go (same j header_json) (same j signed_json) (same j (string "")) refl refl refl h
  where
    inr-injective : {x y : String} → ◌≡◌ {A = String ⊎ String} (inr x) (inr y) → x ≡ y
    inr-injective e = cc

    found : (text : String) (k : Json) → parsed text ≡ some k → j ≡ k → text ≡ s → parsed s ≡ some j
    found text k reads e f = ap parsed (sym f) ∙ reads ∙ ap some (sym e)

    go :
        (a b c : Bool)
        → same j header_json ≡ a
        → same j signed_json ≡ b
        → same j (string "") ≡ c
        → ◌≡◌ {A = String ⊎ String}
            (if a then inr "H" else if b then inr "J" else if c then inr "\"\"" else inl "unknown")
            (inr s)
        → parsed s ≡ some j
    go true b c ea eb ec h = found "H" header_json refl (same-eq j header_json ea) (inr-injective h)
    go false true c ea eb ec h =
        found "J" signed_json refl (same-eq j signed_json eb) (inr-injective h)
    go false false true ea eb ec h =
        found "\"\"" (string "") refl (same-eq j (string "") ec) (inr-injective h)
    go false false false ea eb ec h = cc

abbrev signing_crates : Crates
signing_crates = record test_crates {
  to_string = written;
  encode_config = λ bs set pad. write_bytes bs;
  ecdsa_sign = λ bs k n. (some (zeros, zeros), suc n);
}

signing_crates-reader : Reader signing_crates
signing_crates-reader = record {
  parse = parsed;
  decode = λ s. some (read_bytes 0 s);
  verify = λ point digest r s. true;
  parse_written = parsed-written;
  decode_encoded = λ bs. ap some (read-write_bytes bs);
  decode_empty = refl;
  verify_signed = λ digest k e r s h. refl;
}

abbrev a_key : AcmeKey signing_crates
a_key = record { private_key = 75 ∷ []; key_id = some "k" }

abbrev at_start : World signing_crates (memory_persist signing_crates)
at_start = record {
  net = [];
  entropy = 0;
  pools = λ p. record { nonce_url = "https://ca/nonce"; pool = [] };
  next_pool = 1;
  store = [];
  trace = [];
}

header_written : signing_crates.to_string (protected_json a_header) ≡ inr "H"
unfolding protected_json
header_written = refl

payload_written : signing_crates.to_string empty_string_json ≡ inr "\"\""
unfolding empty_string_json
payload_written = refl

body_made : (jws_with a_header a_key empty_string_json at_start).0 ≡ ok "J"
unfolding jws_with protected_json jws_json empty_string_json payload_text base64url ◌>>=◌ draw
    as_bytes encode_char
body_made = refl

server_reads-jws_with_example :
    server_reads signing_crates-reader (75 ∷ []) "J"
    ≡ some (protected_json a_header, payload_bytes "\"\"")
server_reads-jws_with_example =
    server_reads-jws_with signing_crates-reader a_header a_key empty_string_json at_start "H" "\"\""
      "J" zeros zeros header_written payload_written refl refl refl body_made

-- A refresh of an order at the URL of the header, with a key of the header's name.
abbrev signing_order : NewOrder signing_crates
signing_order = record {
  order = record {
    inner = record {
      transport = record { acme_key = a_key; nonce_pool = 0 };
      contact_email = "me@a.se";
      api_account = an_account;
      api_directory = a_directory;
    };
    api_order = an_order "pending";
    url = "u";
  };
}

abbrev refreshing : World signing_crates (memory_persist signing_crates)
refreshing = record at_start { net = answer "n" "" ∷ answer "n2" "ready" ∷ [] }

run_all-ReadTrace_example :
    ReadTrace signing_crates-reader (run_all 3 (call_refresh signing_order ∷ []) refreshing)
run_all-ReadTrace_example =
    run_all-ReadTrace signing_crates-reader 3 (call_refresh signing_order ∷ []) refreshing tt
