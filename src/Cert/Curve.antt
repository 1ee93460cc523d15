-- ===== src/Cert/Curve.antt =====
-- `ec_group` of src/cert.rs, and the two groups that are made once and kept.
use acme_lib.Crates.{Crates}
use acme_lib.Outcome.{Outcome, expect, map_ok}

unfoldable pub ec_group : (C : Crates) → C.Nid → Outcome C C.EcGroup
ec_group C nid = map_ok C.set_named_curve (expect "EcGroup" (C.from_curve_name nid))

-- `EC_GROUP_P256`: where making it panics, every use does.
abbrev pub ec_group_p256 : (C : Crates) → Outcome C C.EcGroup
ec_group_p256 C = ec_group C C.x9_62_prime256v1

-- `EC_GROUP_P384`
abbrev pub ec_group_p384 : (C : Crates) → Outcome C C.EcGroup
ec_group_p384 C = ec_group C C.secp384r1
