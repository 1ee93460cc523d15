-- ===== src/Client/Responsive.antt =====
-- Signed requests (src/trans.rs) against servers that give nonces and accept in the end.
use acme_lib.World.Fine.{
  AsksAt, Fine-returning, Fine-weaken, Fine-then, Good, Fine, IsSome, Next, Fine-bind, Fine-lift,
  Fine-lift_at, Fine-expect, Fine-draw, Fine-repeat,
}
use acme_lib.Prelude.{
  Bool-cases, ◌=ᵇ◌, sym, subst, ℕ, ◌≡◌, refl, ◌⊎◌, inl, inr, String, true, Option, none, some, List,
  [], ◌∷◌, Bytes,
}
use acme_lib.World.{lift, ◌>>=◌, World, Act}
use acme_lib.Json.{Json}
use acme_lib.Crates.{Crates, Request}
use acme_lib.Outcome.{ok, or_json}
use acme_lib.Persist.{Persist}
use acme_lib.Req.{send, req_post, post_request, head_request, req_handle_error, req_expect_header}
use acme_lib.Acc.Key.{AcmeKey, key_id_of}
use acme_lib.Jwt.{JwsProtected, jwk_of}
use acme_lib.Trans.{
  Transport, judge, attempt, do_call, call, call_jwk, jws_with, jws_with_kid, jws_with_jwk,
}
use acme_lib.World.Values.{Returns}
use acme_lib.Trans.Written.{SignedFor, SignedBy, jws_with_kid-SignedBy, jws_with_jwk-SignedBy}
use acme_lib.Trans.Pool.{
  write_pool, push_nonce, add_nonce, extract_nonce, take_nonce, get_nonce, fetch_nonce,
}

-- The response of the network to a POST, and the network after it.
abbrev pub reply_to : (C : Crates) → String → String → C.Net → C.Response
reply_to C url text net = (C.call_request (post_request url text) net).0

abbrev pub net_after : (C : Crates) → String → String → C.Net → C.Net
net_after C url text net = (C.call_request (post_request url text) net).1

-- Keys sign, what the library sends can be written as JSON, and the servers give nonces at the URLs for
-- them, and refuse signed requests that they serve, by the key, the URL and the payload, only in a way that
-- they are sent again.
pub record IsResponsive (C : Crates) (N : String → Type 0)
    (Serves : AcmeKey C → String → Json → Type 0) : Type 0 where
  pub writes : (j : Json) → (s : String) × (C.to_string j ≡ inr s)
  pub signs : (b : Bytes) (k : C.EcKey) (e : C.Entropy) → IsSome (C.ecdsa_sign b k e).0
  pub gives_nonces :
      (url : String) (net : C.Net)
      → N url
      → IsSome (C.header (C.call_request (head_request url) net).0 "replay-nonce")
  pub answers :
      (key : AcmeKey C) (payload : Json) (url text : String) (net : C.Net)
      → Serves key url payload
      → SignedBy C key url payload text
      → (C.is_ok (reply_to C url text net) ≡ true)
        ⊎ (judge C (req_handle_error C (reply_to C url text net)) ≡ ok none)

-- What no request changes about the network.
abbrev pub IsKept : (C : Crates) → (C.Net → Type 0) → Type 0
IsKept C I = (req : Request) (net : C.Net) → I net → I (C.call_request req net).1

-- A response to a signed POST that a network in `I` gave, and the network after it.
pub record Posted (C : Crates) (I : C.Net → Type 0) (key : AcmeKey C) (url : String)
    (payload : Json) (res : C.Response) (after : C.Net) : Type 0 where
  pub text : String
  pub net : C.Net
  pub before : I net
  pub is_signed : SignedBy C key url payload text
  pub is_reply : res ≡ reply_to C url text net
  pub is_after : after ≡ net_after C url text net

-- A response that is ok.
abbrev pub Accepted :
    (C : Crates) → (C.Net → Type 0) → AcmeKey C → String → Json → C.Response → C.Net → Type 0
Accepted C I key url payload res after = (C.is_ok res ≡ true) × Posted C I key url payload res after

-- Every response to a signed POST to the URL that is ok, from a network in `I`, has the property.
abbrev pub Shows : (C : Crates) → (C.Net → Type 0) → String → (C.Response → Type 0) → Type 0
Shows C I url X =
    (text : String) (net : C.Net)
    → I net
    → SignedFor C url text
    → C.is_ok (reply_to C url text net) ≡ true
    → X (reply_to C url text net)

-- A body that is signed by a key is signed.
pub signed_for :
    {C : Crates} {key : AcmeKey C} {url : String} {payload : Json} {text : String}
    → SignedBy C key url payload text
    → SignedFor C url text
signed_for {key = key} {payload = payload} (header, names, written) =
    (key, header, payload, names, written)

-- The same of the bodies with the payload that are signed by the key.
abbrev pub ShowsBy :
    (C : Crates) → (C.Net → Type 0) → AcmeKey C → String → Json → (C.Response → Type 0) → Type 0
ShowsBy C I key url payload X =
    (text : String) (net : C.Net)
    → I net
    → SignedBy C key url payload text
    → C.is_ok (reply_to C url text net) ≡ true
    → X (reply_to C url text net)

shown :
    {C : Crates} {I : C.Net → Type 0} {key : AcmeKey C} {url : String} {payload : Json}
    {res : C.Response} {after : C.Net} (X : C.Response → Type 0)
    → ShowsBy C I key url payload X
    → C.is_ok res ≡ true
    → Posted C I key url payload res after
    → X res
shown {C} X h good posted = subst X (sym posted.is_reply) (
    h posted.text posted.net posted.before posted.is_signed
      (subst (λ r. C.is_ok r ≡ true) posted.is_reply good))

module _ {C : Crates} {N : String → Type 0} {Serves : AcmeKey C → String → Json → Type 0}
    (server : IsResponsive C N Serves) where
  json-Good : (j : Json) → Good (λ text. Unit {0}) (or_json {C = C} (C.to_string j))
  json-Good j = let (s, e) = server.writes j in rw e tt

  answered :
      {I : C.Net → Type 0} {res : C.Response} {after : C.Net} (key : AcmeKey C) (url : String)
      (payload : Json)
      → Serves key url payload
      → Posted C I key url payload res after
      → (C.is_ok res ≡ true) ⊎ (judge C (req_handle_error C res) ≡ ok none)
  answered key url payload serves posted =
      subst (λ r. (C.is_ok r ≡ true) ⊎ (judge C (req_handle_error C r) ≡ ok none))
        (sym posted.is_reply)
        (server.answers key payload url posted.text posted.net serves posted.is_signed)

-- Nonces come and go, the URL of the pool stays.
write_pool-AsksAt :
    {C : Crates} {P : Persist C} (N : String → Type 0) (p : ℕ) (ns : List String) (w : World C P)
    → AsksAt N w
    → AsksAt N (write_pool p ns w)
write_pool-AsksAt N p ns w asks q = elim (Bool-cases (p =ᵇ q)) [
  | inl this ↦ rw this (asks q)
  | inr other ↦ rw other (asks q)
]

module _ {C : Crates} {P : Persist C} {N : String → Type 0}
    {Serves : AcmeKey C → String → Json → Type 0} (server : IsResponsive C N Serves)
    (I : C.Net → Type 0) (kept : IsKept C I) where
  judge-Fine :
      (key : AcmeKey C) (url : String) (payload : Json) (res : C.Response)
      → Serves key url payload
      → Fine N
          (λ w. Posted C I key url payload res w.net × I w.net)
          (Next (λ w. I w.net) (λ r w. Accepted C I key url payload r w.net × I w.net))
          (lift {P = P} (judge C (req_handle_error C res)))
  unfolding judge req_handle_error
  judge-Fine key url payload res serves = Fine-lift_at _ λ w (posted, i).
      elim (answered server key url payload serves posted) [
        | inl good ↦ rw good ((good, posted), i)
        | inr again ↦ rw again i
      ]

  get_nonce-Fine : (p : ℕ) → Fine {P = P} N (λ w. I w.net) (λ nonce w. I w.net) (get_nonce p)
  unfolding get_nonce fetch_nonce send ◌>>=◌ req_expect_header
  get_nonce-Fine p = record { at = λ w n i. take w (w.pools p).pool n i }
    where
      take :
          (w : World C P) (ns : List String)
          → AsksAt N w
          → I w.net
          → Good
              (λ nonce. AsksAt N (take_nonce p ns w).1 × I (take_nonce p ns w).1.net)
              (take_nonce p ns w).0
      take w [] asks i =
          let (nonce, e) = server.gives_nonces (w.pools p).nonce_url w.net (asks p) in
          rw e (asks, kept (head_request (w.pools p).nonce_url) w.net i)
      take w (n ∷ rest) asks i = (write_pool-AsksAt N p rest w asks, i)

  jws_with-Fine :
      (h : JwsProtected) (k : AcmeKey C) (b : Json)
      → Fine {P = P} N (λ w. I w.net) (λ text w. I w.net) (jws_with h k b)
  unfolding jws_with
  jws_with-Fine h k b = Fine-then _ (Fine-lift (λ text. Unit) _ (json-Good server _)) λ pro_json u.
      Fine-then _ (Fine-lift (λ text. Unit) _ (json-Good server b)) λ pay_json u.
        Fine-then _ (Fine-draw I IsSome _ (λ e. server.signs _ k.private_key e)) λ signed found.
          Fine-then _ (Fine-expect "EcdsaSig::sign" signed found) λ (r, s) u.
            Fine-weaken (Fine-lift (λ text. Unit) _ (json-Good server _)) λ text w (u, i). i

  jws_with_kid-Fine :
      (k : AcmeKey C) (kid url nonce : String) (b : Json)
      → k.key_id ≡ some kid
      → Fine {P = P} N (λ w. I w.net) (λ text w. I w.net) (jws_with_kid url nonce k b)
  unfolding jws_with_kid key_id_of
  jws_with_kid-Fine k kid url nonce b e =
      Fine-then _ (Fine-expect "key_id" k.key_id (kid, e)) λ found u. jws_with-Fine _ _ b

  jws_with_jwk-Fine :
      (k : AcmeKey C) (url nonce : String) (b : Json)
      → Good (λ jwk. Unit) (jwk_of C k)
      → Fine {P = P} N (λ w. I w.net) (λ text w. I w.net) (jws_with_jwk url nonce k b)
  unfolding jws_with_jwk
  jws_with_jwk-Fine k url nonce b made =
      Fine-then _ (Fine-lift (λ jwk. Unit) _ made) λ jwk u. jws_with-Fine _ _ b

  post-Fine :
      (key : AcmeKey C) (url : String) (payload : Json) (text : String)
      → SignedBy C key url payload text
      → Fine {P = P} N
          (λ w. I w.net)
          (λ res w. Posted C I key url payload res w.net × I w.net)
          (req_post url text)
  unfolding send
  post-Fine key url payload text signed = record {
    at = λ w n i. (
      n,
      (
        record {
          text = text;
          net = w.net;
          before = i;
          is_signed = signed;
          is_reply = refl;
          is_after = refl;
        },
        kept (post_request url text) w.net i,
      ),
    );
  }

  extract_nonce-Fine :
      (p : ℕ) (res : C.Response) (R : C.Net → Type 0)
      → Fine {P = P} N (λ w. R w.net) (λ u w. R w.net) (extract_nonce p res)
  unfolding extract_nonce
  extract_nonce-Fine p res R = record { at = λ w n i. adds w (C.header res "replay-nonce") n i }
    where
      adds :
          (w : World C P) (o : Option String)
          → AsksAt N w
          → R w.net
          → Good (λ u. AsksAt N (add_nonce p o w).1 × R (add_nonce p o w).1.net) (add_nonce p o w).0
      adds w none asks i = (asks, i)
      adds w (some nonce) asks i =
          (write_pool-AsksAt N p (push_nonce (w.pools p).pool nonce) w asks, i)

  do_call-Fine :
      (t : Transport C) (url : String) (b : Json) (fuel : ℕ)
      (make_body : String → String → AcmeKey C → Json → Act C P String)
      → Serves t.acme_key url b
      → ((nonce : String)
          → Fine N (λ w. I w.net) (λ text w. I w.net) (make_body url nonce t.acme_key b))
      → ((nonce : String)
          → Returns (SignedBy C t.acme_key url b) (make_body url nonce t.acme_key b))
      → Fine N
          (λ w. I w.net)
          (λ res w. Accepted C I t.acme_key url b res w.net × I w.net)
          (do_call t url b fuel make_body)
  unfolding do_call attempt
  do_call-Fine t url b fuel make_body serves made signs = Fine-repeat fuel _ (
      Fine-bind _ (get_nonce-Fine t.nonce_pool) λ nonce.
        Fine-then _ (Fine-returning (SignedBy C t.acme_key url b) (made nonce) (signs nonce))
          λ signed signed_for. Fine-bind _ (post-Fine t.acme_key url b signed signed_for) λ res.
            Fine-bind _
              (extract_nonce-Fine t.nonce_pool res
                (λ net. Posted C I t.acme_key url b res net × I net))
              λ u. judge-Fine t.acme_key url b res serves)

  -- A signed request of an account with a key id is accepted.
  pub call-Fine :
      (t : Transport C) (kid url : String) (b : Json) (fuel : ℕ)
      → t.acme_key.key_id ≡ some kid
      → Serves t.acme_key url b
      → Fine {P = P} N
          (λ w. I w.net)
          (λ res w. Accepted C I t.acme_key url b res w.net × I w.net)
          (call t url b fuel)
  unfolding call
  call-Fine t kid url b fuel e serves =
      do_call-Fine t url b fuel jws_with_kid serves
        (λ nonce. jws_with_kid-Fine t.acme_key kid url nonce b e)
        λ nonce. jws_with_kid-SignedBy url nonce t.acme_key b

  -- What every accepted response to the URL shows is known of the response.
  pub call-Shows :
      (X : C.Response → Type 0) (t : Transport C) (kid url : String) (b : Json) (fuel : ℕ)
      → t.acme_key.key_id ≡ some kid
      → Serves t.acme_key url b
      → Shows C I url X
      → Fine {P = P} N (λ w. I w.net) (λ res w. X res × I w.net) (call t url b fuel)
  call-Shows X t kid url b fuel e serves h =
      Fine-weaken (call-Fine t kid url b fuel e serves) λ res w ((good, posted), i).
        (shown X (λ text net before signed. h text net before (signed_for signed)) good posted, i)

  -- So with a request that carries the key, if the library can make a JWK of it.
  pub call_jwk-Shows :
      (X : C.Response → Type 0) (t : Transport C) (url : String) (b : Json) (fuel : ℕ)
      → Good (λ jwk. Unit) (jwk_of C t.acme_key)
      → Serves t.acme_key url b
      → ShowsBy C I t.acme_key url b X
      → Fine {P = P} N (λ w. I w.net) (λ res w. X res × I w.net) (call_jwk t url b fuel)
  unfolding call_jwk
  call_jwk-Shows X t url b fuel made serves h =
      Fine-weaken
        (do_call-Fine t url b fuel jws_with_jwk serves
          (λ nonce. jws_with_jwk-Fine t.acme_key url nonce b made)
          λ nonce. jws_with_jwk-SignedBy url nonce t.acme_key b)
        λ res w ((good, posted), i). (shown X h good posted, i)
