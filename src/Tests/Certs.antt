-- ===== src/Tests/Certs.antt =====
-- Runs of the generators of keys, and of the days that a certificate has left.
use acme_lib.Cert.{alt_names_text, Certificate, parse_date, valid_days_left}
use acme_lib.Std.{
  join, as_bytes, encode_char, from_utf8_lossy, from_utf8_lossy_fuel, decode_char, from_u32,
}
use acme_lib.Prelude.{
  ◌-◌, ℕ, ◌≡◌, refl, pos, negsuc, some, [], ◌∷◌, arith, ◌+◌, ◌/◌, leb, if◌then◌else◌,
}
use acme_lib.Outcome.{ok}
use acme_lib.World.{World, ◌>>=◌, draw}
use acme_lib.Cert.Curve.{ec_group}
use acme_lib.Cert.Keys.{create_rsa_key, create_ec_key}
use acme_lib.Cert.Pairs.{KeyKind, IsPair, created, created-IsPair}
use acme_lib.Cert.Days.{IsTime, Counts, valid_days_left-Counts}
use acme_lib.Cert.Names.{alt_names_text-join}
use acme_lib.Tests.Fixtures.{test_crates, test_persist, world_with, negated}

abbrev quiet : World test_crates test_persist
quiet = world_with []

p384_made : (created KeyKind.p384 quiet).0 ≡ ok (65 ∷ [], 65 ∷ [])
unfolding create_ec_key ec_group ◌>>=◌ draw
p384_made = refl

rsa_made :
    (created {P = test_persist} (KeyKind.rsa 2048) quiet).0 ≡ ok (2048 ∷ [], 2048 ∷ 65537 ∷ [])
unfolding create_rsa_key ◌>>=◌ draw
rsa_made = refl

created-IsPair_example : IsPair test_crates KeyKind.p384 (65 ∷ [], 65 ∷ [])
created-IsPair_example = created-IsPair KeyKind.p384 quiet (65 ∷ [], 65 ∷ []) p384_made

test_crates-IsTime : IsTime test_crates (λ t. t)
test_crates-IsTime = record {
  nanos = λ d. d;
  minus_later = λ a b h. ground arith;
  minus_earlier = λ a b h. ground arith;
  days_of_pos = λ d n h. rw h refl;
  days_of_negsuc = λ d n h. rw h (shown ((n + 1) / 86400000000000) (n + 1) (omega arith));
}
  where
    shown :
        (q m : ℕ)
        → q ≡ m / 86400000000000
        → negated q ≡ (if leb 86400000000000 m then negsuc (q - 1) else pos 0)
    shown q m e = ground arith

abbrev expired : Certificate
expired = record { private_key = ""; certificate = "PEM" }

days_left : valid_days_left test_crates expired 90000000000000 ≡ ok (negsuc 0)
unfolding valid_days_left parse_date as_bytes encode_char from_utf8_lossy from_utf8_lossy_fuel
    decode_char from_u32
days_left = refl

valid_days_left-Counts_example :
    (x509 : test_crates.X509) × (expires : test_crates.Tm) × (test_crates.x509_from_pem
        (as_bytes expired.certificate)
      ≡ some x509)
    × (test_crates.strptime (test_crates.not_after x509) "%h %e %H:%M:%S %Y %Z" ≡ some expires)
    × Counts (negsuc 0) expires 90000000000000
valid_days_left-Counts_example =
    valid_days_left-Counts (λ t. t) test_crates-IsTime expired 90000000000000 (negsuc 0) days_left

alt_names_text-join_example :
    alt_names_text {C = test_crates} ("a.se" ∷ "b.se" ∷ []) ≡ ok "a.se, DNS:b.se"
unfolding join
alt_names_text-join_example = alt_names_text-join "a.se" ("b.se" ∷ [])
