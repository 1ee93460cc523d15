-- ===== src/Cert/Keys.antt =====
-- The generators of key pairs for certificates (src/cert.rs).
use acme_lib.Prelude.{ℕ}
use acme_lib.Crates.{Crates}
use acme_lib.Outcome.{Outcome, expect}
use acme_lib.Persist.{Persist}
use acme_lib.World.{Act, lift, pure, draw, ◌>>=◌}
use acme_lib.Cert.Curve.{ec_group_p256, ec_group_p384}

module _ {C : Crates} {P : Persist C} where
  unfoldable pub create_rsa_key : ℕ → Act C P (C.PrivateKey × C.PublicKey)
  create_rsa_key bits = do
    drawn ← draw (C.generate_rsa bits)
    pri_key_rsa ← lift (expect "Rsa::generate" drawn)
    n ← lift (expect "BigNumRef::to_owned()" (C.rsa_n pri_key_rsa))
    e ← lift (expect "BigNumRef::to_owned()" (C.rsa_e pri_key_rsa))
    pub_key_rsa ← lift (expect "Rsa::from_public_compontents" (C.from_public_components n e))
    pri_key ← lift (expect "from_rsa" (C.from_rsa pri_key_rsa))
    pub_key ← lift (expect "from_rsa" (C.from_rsa_public pub_key_rsa))
    pure (pri_key, pub_key)

  -- What `create_p256_key` and `create_p384_key` do on their groups.
  unfoldable pub create_ec_key : Outcome C C.EcGroup → Act C P (C.PrivateKey × C.PublicKey)
  create_ec_key made = do
    group ← lift made
    drawn ← draw (C.generate_ec group)
    pri_key_ec ← lift (expect "EcKey" drawn)
    pub_key_ec ← lift (expect "EcKeyPub" (C.from_public_key group (C.public_key pri_key_ec)))
    pri_key ← lift (expect "from_ec_key" (C.from_ec_key pri_key_ec))
    pub_key ← lift (expect "from_ec_key_pub" (C.from_ec_public pub_key_ec))
    pure (pri_key, pub_key)

  abbrev pub create_p256_key : Act C P (C.PrivateKey × C.PublicKey)
  create_p256_key = create_ec_key (ec_group_p256 C)

  abbrev pub create_p384_key : Act C P (C.PrivateKey × C.PublicKey)
  create_p384_key = create_ec_key (ec_group_p384 C)
