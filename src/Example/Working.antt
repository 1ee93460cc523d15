-- ===== src/Example/Working.antt =====
-- Keys and signing requests (src/acc/akey.rs, src/jwt.rs, src/cert.rs) where openssl does its part.
use acme_lib.Jwt.{thumb_of, jwk_of, thumb_json}
use acme_lib.World.Fine.{
  Good-then, Good, Fine, IsSome, Fine-then, Fine-pure, Fine-known, Fine-expect, Fine-draw,
}
use acme_lib.World.{draw}
use acme_lib.Prelude.{refl, ◌≡◌, ap, ◌∙◌, none, some, String, List, ◌∷◌}
use acme_lib.Json.{Json}
use acme_lib.Crates.{Crates}
use acme_lib.Persist.{Persist}
use acme_lib.Acc.Key.{AcmeKey, generate_key}
use acme_lib.Cert.{create_csr}
use acme_lib.Cert.Curve.{ec_group}
use acme_lib.Cert.Keys.{create_ec_key, create_p384_key}
use acme_lib.Cert.Names.{alt_names_text-join}
use acme_lib.Order.Auth.{Challenge, Marker, http_proof, key_authorization}
use acme_lib.Client.Responsive.{IsResponsive}

-- openssl knows the two curves, makes keys on them, with points that are on the curve of the key, requests
-- and their texts, and fails at none of it.
pub record IsWorking (C : Crates) : Type 0 where
  pub has_p256 : IsSome (C.from_curve_name C.x9_62_prime256v1)
  pub has_p384 : IsSome (C.from_curve_name C.secp384r1)
  pub generates : (g : C.EcGroup) (e : C.Entropy) → IsSome (C.generate_ec g e).0
  pub has_point :
      (g : C.EcGroup) (e : C.Entropy) (k : C.EcKey)
      → (C.generate_ec g e).0 ≡ some k
      → IsSome (C.affine_coordinates (C.public_key k) g)
  pub ec_key_writes : (k : C.EcKey) → IsSome (C.ec_key_to_pem k)
  pub takes_point :
      (g : C.EcGroup) (e : C.Entropy) (k : C.EcKey)
      → (C.generate_ec g e).0 ≡ some k
      → IsSome (C.from_public_key g (C.public_key k))
  pub takes_ec_key : (k : C.EcKey) → IsSome (C.from_ec_key k)
  pub takes_ec_public : (k : C.EcPublic) → IsSome (C.from_ec_public k)
  pub key_writes : (k : C.PrivateKey) → IsSome (C.private_key_to_pem_pkcs8 k)
  pub builds : IsSome C.req_builder
  pub sets_pubkey : (b : C.ReqBuilder) (k : C.PublicKey) → IsSome (C.set_pubkey b k)
  pub names : (b : C.ReqBuilder) (text : String) → IsSome (C.san_build b text)
  pub extends : (b : C.ReqBuilder) (x : C.Extension) → IsSome (C.add_extensions b x)
  pub signs_request :
      (b : C.ReqBuilder) (k : C.PrivateKey) (e : C.Entropy) → IsSome (C.sign_sha256 b k e).0
  pub request_writes : (r : C.X509Req) → IsSome (C.req_to_der r)

-- The library can make a JWK of the key.
abbrev pub HasJwk : (C : Crates) → C.EcKey → Type 0
HasJwk C k = Good (λ jwk. Unit {0}) (jwk_of C (record { private_key = k; key_id = none }))

module _ {C : Crates} where
  pub jwk_of-Good : (k : AcmeKey C) → HasJwk C k.private_key → Good (λ jwk. Unit {0}) (jwk_of C k)
  unfolding jwk_of
  jwk_of-Good k h = h

  generated-HasJwk :
      (g : C.EcGroup) (e : C.Entropy) (k : C.EcKey)
      → IsWorking C
      → C.from_curve_name C.x9_62_prime256v1 ≡ some g
      → (C.generate_ec (C.set_named_curve g) e).0 ≡ some k
      → HasJwk C k
  unfolding jwk_of ec_group
  generated-HasJwk g e k working curve made =
      let (xy, p) = working.has_point (C.set_named_curve g) e k made in rw curve (rw p tt)

  -- A proof over HTTP is made.
  pub http_proof-Good :
      {N : String → Type 0} {Serves : AcmeKey C → String → Json → Type 0}
      (c : Challenge C Marker.http)
      → IsResponsive C N Serves
      → HasJwk C c.inner.transport.acme_key.private_key
      → Good (λ proof. Unit {0}) (http_proof c)
  unfolding http_proof key_authorization
  http_proof-Good c server has_jwk =
      Good-then (λ proof. Unit) (λ jwk. Unit) _ _ (jwk_of-Good c.inner.transport.acme_key has_jwk)
        λ jwk u. let (text, q) = server.writes (thumb_json (thumb_of jwk)) in rw q tt

module _ {C : Crates} {P : Persist C} {N : String → Type 0} (working : IsWorking C)
    (I : C.Net → Type 0) where
  -- A key is drawn.
  drawn-Fine :
      (g : C.EcGroup)
      → Fine {P = P} N
          (λ w. I w.net)
          (λ drawn w. (IsSome drawn × (r : C.Entropy) × ((C.generate_ec g r).0 ≡ drawn)) × I w.net)
          (draw (C.generate_ec g))
  drawn-Fine g = Fine-draw I _ _ (λ r. (working.generates g r, r, refl))

  pub generate_key-Fine :
      Fine {P = P} N (λ w. I w.net) (λ k w. HasJwk C k.private_key × I w.net) generate_key
  unfolding generate_key ec_group
  generate_key-Fine =
      let (g, e) = working.has_p256 in
      Fine-then _ (Fine-known _ {a = C.set_named_curve g} (rw e refl)) λ group same.
        Fine-then _ (drawn-Fine group) λ drawn (found, r, draws).
          Fine-then _ (Fine-expect "EcKey" drawn found) λ k is_key. Fine-pure _ (λ w i. (
            generated-HasJwk g r k working e
                (ap (λ x. (C.generate_ec x r).0) same ∙ draws ∙ is_key),
            i,
          ))

  pub create_p384_key-Fine : Fine {P = P} N (λ w. I w.net) (λ pair w. I w.net) create_p384_key
  unfolding create_ec_key ec_group
  create_p384_key-Fine =
      let (g, e) = working.has_p384 in
      Fine-then _ (Fine-known _ {a = C.set_named_curve g} (rw e refl)) λ group same.
        Fine-then _ (drawn-Fine group) λ drawn (found, r, draws).
          Fine-then _ (Fine-expect "EcKey" drawn found) λ k is_key.
            Fine-then _ (Fine-expect "EcKeyPub" _ (working.takes_point group r k (draws ∙ is_key)))
              λ p u. Fine-then _ (Fine-expect "from_ec_key" _ (working.takes_ec_key k)) λ pri u.
                Fine-then _ (Fine-expect "from_ec_key_pub" _ (working.takes_ec_public p))
                  λ pub_key u. Fine-pure _ (λ w i. i)

  -- With a name at least, the signing request is made.
  pub create_csr-Fine :
      (pri : C.PrivateKey) (pub_key : C.PublicKey) (name : String) (names : List String)
      → Fine {P = P} N (λ w. I w.net) (λ csr w. I w.net) (create_csr pri pub_key (name ∷ names))
  unfolding create_csr
  create_csr-Fine pri pub_key name names =
      Fine-then _ (Fine-expect "X509ReqBuilder" _ working.builds) λ b u.
        Fine-then _ (Fine-expect "set_pubkey" _ (working.sets_pubkey b pub_key)) λ b1 u.
          Fine-then _ (Fine-known _ (alt_names_text-join name names)) λ text u.
            Fine-then _ (Fine-expect "SubjectAlternativeName::build" _ (working.names b1 text))
              λ x u. Fine-then _ (Fine-expect "add_extensions" _ (working.extends b1 x)) λ b2 u.
                Fine-then _ (Fine-draw I IsSome _ (λ r. working.signs_request b2 pri r))
                  λ signed found.
                    Fine-then _ (Fine-expect "csr_sign" signed found) λ b3 u. Fine-pure _ (λ w i. i)
