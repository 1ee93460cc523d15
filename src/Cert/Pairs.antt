-- ===== src/Cert/Pairs.antt =====
-- On the key pairs that src/cert.rs makes.
use acme_lib.Prelude.{ℕ, ◌≡◌, refl, ap, ◌∙◌, some}
use acme_lib.Crates.{Crates}
use acme_lib.Outcome.{Outcome, ok, err, panic, out_of_fuel, map_ok, expect-eq-ok, ok-injective}
use acme_lib.Persist.{Persist}
use acme_lib.World.{World, Act, draw}
use acme_lib.World.Values.{bind-then-ok, lift-then-ok, pure-ok}
use acme_lib.Cert.Curve.{ec_group}
use acme_lib.Cert.Keys.{create_rsa_key, create_ec_key, create_p256_key, create_p384_key}

-- A value that `map_ok` gives comes from one.
map_ok-eq-ok :
    {C : Crates} {A B : Type 0} (f : A → B) (o : Outcome C A) {b : B}
    → map_ok f o ≡ ok b
    → (a : A) × (o ≡ ok a) × (f a ≡ b)
map_ok-eq-ok {C} f (ok a) h = (a, refl, ok-injective {C = C} h)
map_ok-eq-ok {C} f (err e) h = cc
map_ok-eq-ok {C} f (panic s) h = cc
map_ok-eq-ok {C} f out_of_fuel h = cc

-- The generators of key pairs.
pub data KeyKind : Type 0 where
  p256 p384 : KeyKind
  rsa : ℕ → KeyKind

module _ (C : Crates) where
  -- The two keys of a pair are the two halves of one key, generated on the named curve.
  abbrev pub IsEcPair : C.Nid → C.PrivateKey × C.PublicKey → Type 0
  IsEcPair nid (pri_key, pub_key) =
      (curve : C.EcGroup) × (key : C.EcKey) × (half : C.EcPublic) × (entropy : C.Entropy)
      × (C.from_curve_name nid ≡ some curve)
      × ((C.generate_ec (C.set_named_curve curve) entropy).0 ≡ some key)
      × (C.from_public_key (C.set_named_curve curve) (C.public_key key) ≡ some half)
      × (C.from_ec_key key ≡ some pri_key)
      × (C.from_ec_public half ≡ some pub_key)

  -- The two keys of a pair are one RSA key, generated with so many bits, and its modulus
  -- with its exponent.
  abbrev pub IsRsaPair : ℕ → C.PrivateKey × C.PublicKey → Type 0
  IsRsaPair bits (pri_key, pub_key) =
      (key : C.Rsa) × (entropy : C.Entropy) × ((C.generate_rsa bits entropy).0 ≡ some key)
      × (n : C.BigNum) × (e : C.BigNum) × (half : C.RsaPublic) × (C.rsa_n key ≡ some n)
      × (C.rsa_e key ≡ some e)
      × (C.from_public_components n e ≡ some half)
      × (C.from_rsa key ≡ some pri_key)
      × (C.from_rsa_public half ≡ some pub_key)

  abbrev pub IsPair : KeyKind → C.PrivateKey × C.PublicKey → Type 0
  IsPair p256 = IsEcPair C.x9_62_prime256v1
  IsPair p384 = IsEcPair C.secp384r1
  IsPair (rsa bits) = IsRsaPair bits

module _ {C : Crates} {P : Persist C} where
  abbrev pub created : KeyKind → Act C P (C.PrivateKey × C.PublicKey)
  created p256 = create_p256_key
  created p384 = create_p384_key
  created (rsa bits) = create_rsa_key bits

  create_ec_key-IsEcPair :
      (nid : C.Nid) (w : World C P) (pair : C.PrivateKey × C.PublicKey)
      → (create_ec_key (ec_group C nid) w).0 ≡ ok pair
      → IsEcPair C nid pair
  unfolding create_ec_key ec_group draw
  create_ec_key-IsEcPair nid w pair h =
      let (group, e1, p1, h1) = lift-then-ok _ _ w h in
      let (drawn, e2, p2, h2) = bind-then-ok _ _ w h1 in
      let (key, e3, p3, h3) = lift-then-ok _ _ _ h2 in
      let (half, e4, p4, h4) = lift-then-ok _ _ _ h3 in
      let (pri_key, e5, p5, h5) = lift-then-ok _ _ _ h4 in
      let (pub_key, e6, p6, h6) = lift-then-ok _ _ _ h5 in
      let same = pure-ok _ _ h6 in
      let (curve, named, is_group) = map_ok-eq-ok {C = C} C.set_named_curve _ e1 in
      let key_of_group : (C.generate_ec group w.entropy).0 ≡ some key =
        ok-injective {C = C} e2 ∙ expect-eq-ok "EcKey" _ e3 in
      let half_of_group : C.from_public_key group (C.public_key key) ≡ some half =
        expect-eq-ok "EcKeyPub" _ e4 in
      (
        curve,
        key,
        half,
        w.entropy,
        expect-eq-ok "EcGroup" _ named,
        ap (λ g. (C.generate_ec g w.entropy).0) is_group ∙ key_of_group,
        ap (λ g. C.from_public_key g (C.public_key key)) is_group ∙ half_of_group,
        expect-eq-ok "from_ec_key" _ e5 ∙ ap (λ p. some p.0) same,
        expect-eq-ok "from_ec_key_pub" _ e6 ∙ ap (λ p. some p.1) same,
      )

  create_rsa_key-IsRsaPair :
      (bits : ℕ) (w : World C P) (pair : C.PrivateKey × C.PublicKey)
      → (create_rsa_key bits w).0 ≡ ok pair
      → IsRsaPair C bits pair
  unfolding create_rsa_key draw
  create_rsa_key-IsRsaPair bits w pair h =
      let (drawn, e1, p1, h1) = bind-then-ok _ _ w h in
      let (key, e2, p2, h2) = lift-then-ok _ _ _ h1 in
      let (n, e3, p3, h3) = lift-then-ok _ _ _ h2 in
      let (e, e4, p4, h4) = lift-then-ok _ _ _ h3 in
      let (half, e5, p5, h5) = lift-then-ok _ _ _ h4 in
      let (pri_key, e6, p6, h6) = lift-then-ok _ _ _ h5 in
      let (pub_key, e7, p7, h7) = lift-then-ok _ _ _ h6 in
      let same = pure-ok _ _ h7 in
      (
        key,
        w.entropy,
        ok-injective {C = C} e1 ∙ expect-eq-ok "Rsa::generate" _ e2,
        n,
        e,
        half,
        expect-eq-ok "BigNumRef::to_owned()" _ e3,
        expect-eq-ok "BigNumRef::to_owned()" _ e4,
        expect-eq-ok "Rsa::from_public_compontents" _ e5,
        expect-eq-ok "from_rsa" _ e6 ∙ ap (λ p. some p.0) same,
        expect-eq-ok "from_rsa" _ e7 ∙ ap (λ p. some p.1) same,
      )

  -- A pair that a generator of key pairs returns has the private key and the public key of one key,
  -- which was generated on the curve P-256 or P-384 that the generator is named for, or by RSA with the bits given.
  pub created-IsPair :
      (kind : KeyKind) (w : World C P) (pair : C.PrivateKey × C.PublicKey)
      → (created kind w).0 ≡ ok pair
      → IsPair C kind pair
  created-IsPair p256 w pair h = create_ec_key-IsEcPair C.x9_62_prime256v1 w pair h
  created-IsPair p384 w pair h = create_ec_key-IsEcPair C.secp384r1 w pair h
  created-IsPair (rsa bits) w pair h = create_rsa_key-IsRsaPair bits w pair h
