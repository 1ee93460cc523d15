-- ===== src/Cert.antt =====
-- Certificates and the requests for them (src/cert.rs).
pub mod Curve
pub mod Keys
pub mod Pairs
pub mod Days
pub mod Names
use Prim.Native.String.{len}
use text.Mathlib.Text.{get?}
use acme_lib.Prelude.{ℤ, String, ◌<>◌, List, map, Bytes}
use acme_lib.Std.{as_bytes, join}
use acme_lib.Crates.{Crates}
use acme_lib.Outcome.{Outcome, ok, expect, expect_ok, ◌>>=ᵒ◌}
use acme_lib.Persist.{Persist}
use acme_lib.World.{Act, lift, pure, draw, ◌>>=◌}

-- The names as `SubjectAlternativeName::dns` takes them, which puts `DNS:` in front: `as_lst[4..]`
-- cuts it off the joined list, and panics on an empty list.
unfoldable pub alt_names_text : {C : Crates} → List String → Outcome C String
alt_names_text domains =
    let as_lst = join ", " (map (λ e. "DNS:" <> e) domains) in
    expect "byte index 4 is out of bounds" (get? as_lst 4 (len as_lst))

module _ {C : Crates} {P : Persist C} where
  unfoldable pub create_csr : C.PrivateKey → C.PublicKey → List String → Act C P C.X509Req
  create_csr pkey_pri pkey_pub domains = do
    req_bld ← lift (expect "X509ReqBuilder" C.req_builder)
    req_bld ← lift (expect "set_pubkey" (C.set_pubkey req_bld pkey_pub))
    as_lst ← lift (alt_names_text domains)
    ext ← lift (expect "SubjectAlternativeName::build" (C.san_build req_bld as_lst))
    req_bld ← lift (expect "add_extensions" (C.add_extensions req_bld ext))
    signed ← draw (C.sign_sha256 req_bld pkey_pri)
    req_bld ← lift (expect "csr_sign" signed)
    pure (C.build req_bld)

pub record Certificate : Type 0 where
  pub private_key : String
  pub certificate : String

module _ (C : Crates) (cert : Certificate) where
  -- The method `private_key_der`.
  unfoldable pub private_key_der : Outcome C Bytes
  private_key_der =
      expect_ok "from_pem" (C.private_key_from_pem (as_bytes cert.private_key)) >>=ᵒ λ pkey.
      expect "private_key_to_der" (C.private_key_to_der pkey)

  -- The method `certificate_der`.
  unfoldable pub certificate_der : Outcome C Bytes
  certificate_der = expect "from_pem" (C.x509_from_pem (as_bytes cert.certificate)) >>=ᵒ λ x509.
      expect "to_der" (C.x509_to_der x509)

  unfoldable pub parse_date : String → Outcome C C.Tm
  parse_date s = expect "strptime" (C.strptime s "%h %e %H:%M:%S %Y %Z")

  -- The method `valid_days_left` at a time `now`, as it is compiled outside of tests.
  unfoldable pub valid_days_left : C.Tm → Outcome C ℤ
  unfolding parse_date
  valid_days_left now = expect "from_pem" (C.x509_from_pem (as_bytes cert.certificate)) >>=ᵒ λ x509.
      parse_date (C.not_after x509) >>=ᵒ λ expires. ok (C.num_days (C.minus_tm expires now))
