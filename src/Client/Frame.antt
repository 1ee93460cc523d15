-- ===== src/Client/Frame.antt =====
-- Invariants of the primitive steps, passed as `Basics`, for each method.
use acme_lib.Prelude.{ℕ, String, Option, none, some, List, [], ◌∷◌, ◌≡◌, refl, Bytes}
use acme_lib.Json.{Json}
use acme_lib.Crates.{Crates}
use acme_lib.Persist.{Persist, PersistKey}
use acme_lib.World.{World, Act, get, put, draw, sleep}
use acme_lib.World.Keeps.{
  Keeps, Keeps-lift, Keeps-pure, Keeps-bind, Keeps-bind_of, Keeps-repeat, Keeps-wait_if,
}
use acme_lib.Req.{req_get, req_head, req_post}
use acme_lib.Acc.Key.{AcmeKey, generate_key}
use acme_lib.Acc.Inner.{AccountInner}
use acme_lib.Jwt.{JwsProtected}
use acme_lib.Trans.{
  Transport, jws_with, jws_with_kid, jws_with_jwk, attempt, do_call, call, call_jwk,
}
use acme_lib.Trans.Written.{SignedFor, jws_with_kid-SignedFor, jws_with_jwk-SignedFor}
use acme_lib.World.Values.{Returns}
use acme_lib.Trans.Pool.{write_pool, take_nonce, fetch_nonce, get_nonce, extract_nonce}
use acme_lib.Cert.{Certificate, create_csr}
use acme_lib.Dir.{DirectoryUrl, to_url, alloc_pool, from_url, key_or_new}
use acme_lib.Acc.{Account, RevocationReason, certificate, new_order, revoke_certificate}
use acme_lib.Order.{
  refresh_order, refresh, authorizations_of, authorizations_if, authorizations, poll_order,
  wait_for_order_status, finalize, finalize_pkey, CsrOrder, NewOrder,
}
use acme_lib.Order.Auth.{poll_auth, wait_for_auth_status, validate, Challenge, Marker}

pub record Basics {C : Crates} {P : Persist C} (I : World C P → Type 0) : Type 1 where
  pub basic_get : (url : String) → Keeps I (req_get url)
  pub basic_head : (url : String) → Keeps I (req_head url)
  pub basic_post : (url body : String) → SignedFor C url body → Keeps I (req_post url body)
  pub basic_sleep : (millis : ℕ) → Keeps I (sleep millis)
  pub basic_load : (k : PersistKey) → Keeps I (get k)
  pub basic_store : (k : PersistKey) (v : Bytes) → Keeps I (put k v)
  pub basic_draw : (A : Type 0) (f : C.Entropy → A × C.Entropy) → Keeps I (draw f)
  pub basic_extract : (p : ℕ) (res : C.Response) → Keeps I (extract_nonce p res)
  pub basic_pop :
      (p : ℕ) (nonce : String) (rest : List String) (w : World C P)
      → (w.pools p).pool ≡ nonce ∷ rest
      → I w
      → I (write_pool p rest w)
  pub basic_alloc : (url : String) → Keeps I (alloc_pool url)

-- The steps that do not write to the persistence.
pub record Quiet {C : Crates} {P : Persist C} (I : World C P → Type 0) : Type 1 where
  pub quiet_get : (url : String) → Keeps I (req_get url)
  pub quiet_head : (url : String) → Keeps I (req_head url)
  pub quiet_post : (url body : String) → SignedFor C url body → Keeps I (req_post url body)
  pub quiet_sleep : (millis : ℕ) → Keeps I (sleep millis)
  pub quiet_load : (k : PersistKey) → Keeps I (get k)
  pub quiet_draw : (A : Type 0) (f : C.Entropy → A × C.Entropy) → Keeps I (draw f)
  pub quiet_extract : (p : ℕ) (res : C.Response) → Keeps I (extract_nonce p res)
  pub quiet_pop :
      (p : ℕ) (nonce : String) (rest : List String) (w : World C P)
      → (w.pools p).pool ≡ nonce ∷ rest
      → I w
      → I (write_pool p rest w)
  pub quiet_alloc : (url : String) → Keeps I (alloc_pool url)

pub quiet_of : {C : Crates} {P : Persist C} {I : World C P → Type 0} → Basics I → Quiet I
quiet_of B = record {
  quiet_get = B.basic_get;
  quiet_head = B.basic_head;
  quiet_post = B.basic_post;
  quiet_sleep = B.basic_sleep;
  quiet_load = B.basic_load;
  quiet_draw = B.basic_draw;
  quiet_extract = B.basic_extract;
  quiet_pop = B.basic_pop;
  quiet_alloc = B.basic_alloc;
}

module _ {C : Crates} {P : Persist C} {I : World C P → Type 0} (Q : Quiet I) where
  open Q use {
    quiet_get, quiet_head, quiet_post, quiet_sleep, quiet_load, quiet_draw, quiet_extract,
    quiet_pop, quiet_alloc,
  }

  ruleset steps = (Keeps-lift, Keeps-pure, Keeps-bind, Keeps-repeat, Keeps-wait_if)

  fetch_nonce-Keeps : (p : ℕ) → Keeps I (fetch_nonce p)
  unfolding fetch_nonce
  fetch_nonce-Keeps p = record {
    at = λ w. (Keeps-bind (quiet_head (w.pools p).nonce_url) (λ res. Keeps-lift _)).at w;
  }

  pub get_nonce-Keeps : (p : ℕ) → Keeps I (get_nonce p)
  unfolding get_nonce
  get_nonce-Keeps p = record { at = λ w i. from (w.pools p).pool refl i }
    where
      from :
          {w : World C P} (pool : List String)
          → (w.pools p).pool ≡ pool
          → I w
          → I (take_nonce p pool w).1
      from {w} [] e i = (fetch_nonce-Keeps p).at w i
      from {w} (nonce ∷ rest) e i = quiet_pop p nonce rest w e i

  jws_with-Keeps : (h : JwsProtected) (k : AcmeKey C) (b : Json) → Keeps I (jws_with h k b)
  unfolding jws_with
  jws_with-Keeps h k b = search (steps, quiet_draw) depth 12

  pub jws_with_kid-Keeps :
      (url nonce : String) (k : AcmeKey C) (b : Json) → Keeps I (jws_with_kid url nonce k b)
  unfolding jws_with_kid
  jws_with_kid-Keeps url nonce k b = search (steps, jws_with-Keeps)

  pub jws_with_jwk-Keeps :
      (url nonce : String) (k : AcmeKey C) (b : Json) → Keeps I (jws_with_jwk url nonce k b)
  unfolding jws_with_jwk
  jws_with_jwk-Keeps url nonce k b = search (steps, jws_with-Keeps)

  pub attempt-Keeps :
      (t : Transport C) (url : String) (b : Json)
      (make_body : String → String → AcmeKey C → Json → Act C P String)
      → ((nonce : String) → Keeps I (make_body url nonce t.acme_key b))
      → ((nonce : String) → Returns (SignedFor C url) (make_body url nonce t.acme_key b))
      → Keeps I (attempt t url b make_body)
  unfolding attempt
  attempt-Keeps t url b make_body h k = Keeps-bind (get_nonce-Keeps t.nonce_pool) λ nonce.
      Keeps-bind_of (SignedFor C url) (k nonce) (h nonce) λ signed signed_for.
        Keeps-bind (quiet_post url signed signed_for)
          λ res. Keeps-bind (quiet_extract t.nonce_pool res) λ _. Keeps-lift _

  pub call-Keeps :
      (t : Transport C) (url : String) (b : Json) (fuel : ℕ) → Keeps I (call t url b fuel)
  unfolding call do_call
  call-Keeps t url b fuel = Keeps-repeat fuel _ (
      attempt-Keeps t url b jws_with_kid (λ nonce. jws_with_kid-Keeps url nonce t.acme_key b)
        λ nonce. jws_with_kid-SignedFor url nonce t.acme_key b)

  pub call_jwk-Keeps :
      (t : Transport C) (url : String) (b : Json) (fuel : ℕ) → Keeps I (call_jwk t url b fuel)
  unfolding call_jwk do_call
  call_jwk-Keeps t url b fuel = Keeps-repeat fuel _ (
      attempt-Keeps t url b jws_with_jwk (λ nonce. jws_with_jwk-Keeps url nonce t.acme_key b)
        λ nonce. jws_with_jwk-SignedFor url nonce t.acme_key b)

  generate_key-Keeps : Keeps I generate_key
  unfolding generate_key
  generate_key-Keeps = search (steps, quiet_draw)

  pub create_csr-Keeps :
      (pri : C.PrivateKey) (pub_key : C.PublicKey) (ds : List String)
      → Keeps I (create_csr pri pub_key ds)
  unfolding create_csr
  create_csr-Keeps pri pub_key ds = search (steps, quiet_draw) depth 12

  pub from_url-Keeps : (url : DirectoryUrl) → Keeps I (from_url url)
  unfolding from_url
  from_url-Keeps url =
      Keeps-bind (quiet_get (to_url url)) λ sent. search (steps, quiet_alloc) depth 12

  pub key_or_new-Keeps : (pem : Option Bytes) → Keeps I (key_or_new pem)
  key_or_new-Keeps (some pem) = search steps
  key_or_new-Keeps none = search (steps, generate_key-Keeps)

  pub certificate-Keeps : (a : Account C) (name : String) → Keeps I (certificate a name)
  unfolding certificate
  certificate-Keeps a name = search (steps, quiet_load) depth 8

  pub new_order-Keeps :
      (fuel : ℕ) (a : Account C) (name : String) (alt_names : List String)
      → Keeps I (new_order a fuel name alt_names)
  unfolding new_order
  new_order-Keeps fuel a name alt_names = search (steps, call-Keeps) depth 8

  pub revoke_certificate-Keeps :
      (fuel : ℕ) (a : Account C) (cert : Certificate) (reason : RevocationReason)
      → Keeps I (revoke_certificate a fuel cert reason)
  unfolding revoke_certificate
  revoke_certificate-Keeps fuel a cert reason = search (steps, call-Keeps) depth 8

  refresh_order-Keeps :
      (fuel : ℕ) (inner : AccountInner C) (url : String) → Keeps I (refresh_order fuel inner url)
  unfolding refresh_order
  refresh_order-Keeps fuel inner url = search (steps, call-Keeps) depth 8

  pub refresh-Keeps : (fuel : ℕ) (o : NewOrder C) → Keeps I (refresh fuel o)
  unfolding refresh
  refresh-Keeps fuel o = search (steps, refresh_order-Keeps) depth 8

  authorizations_of-Keeps :
      (fuel : ℕ) (inner : AccountInner C) (urls : List String)
      → Keeps I (authorizations_of fuel inner urls)
  unfolding authorizations_of
  authorizations_of-Keeps fuel inner [] = Keeps-pure _
  authorizations_of-Keeps fuel inner (url ∷ urls) =
      Keeps-bind (call-Keeps inner.transport url _ fuel) λ res.
        Keeps-bind (Keeps-lift _)
          λ api_auth. Keeps-bind (authorizations_of-Keeps fuel inner urls) λ rest. Keeps-pure _

  authorizations_if-Keeps :
      (fuel : ℕ) (inner : AccountInner C) (urls : Option (List String))
      → Keeps I (authorizations_if fuel inner urls)
  authorizations_if-Keeps fuel inner none = Keeps-pure _
  authorizations_if-Keeps fuel inner (some urls) = authorizations_of-Keeps fuel inner urls

  pub authorizations-Keeps : (fuel : ℕ) (o : NewOrder C) → Keeps I (authorizations fuel o)
  unfolding authorizations
  authorizations-Keeps fuel o = authorizations_if-Keeps fuel _ _

  wait_for_order_status-Keeps :
      (fuel : ℕ) (inner : AccountInner C) (url : String) (delay_millis : ℕ)
      → Keeps I (wait_for_order_status fuel inner url delay_millis)
  unfolding wait_for_order_status poll_order
  wait_for_order_status-Keeps fuel inner url delay_millis =
      search (steps, refresh_order-Keeps, quiet_sleep) depth 8

  wait_for_auth_status-Keeps :
      (fuel : ℕ) (inner : AccountInner C) (url : String) (delay_millis : ℕ)
      → Keeps I (wait_for_auth_status fuel inner url delay_millis)
  unfolding wait_for_auth_status poll_auth
  wait_for_auth_status-Keeps fuel inner url delay_millis =
      search (steps, call-Keeps, quiet_sleep) depth 8

  pub validate-Keeps :
      (fuel : ℕ) {A : Marker} (c : Challenge C A) (delay_millis : ℕ)
      → Keeps I (validate fuel c delay_millis)
  unfolding validate
  validate-Keeps fuel c delay_millis =
      search (steps, call-Keeps, wait_for_auth_status-Keeps) depth 10

  pub finalize_pkey-Keeps :
      (fuel : ℕ) (o : CsrOrder C) (pri : C.PrivateKey) (pub_key : C.PublicKey) (delay_millis : ℕ)
      → Keeps I (finalize_pkey fuel o pri pub_key delay_millis)
  unfolding finalize_pkey
  finalize_pkey-Keeps fuel o pri pub_key delay_millis =
      search (steps, create_csr-Keeps, call-Keeps, wait_for_order_status-Keeps) depth 12

  pub finalize-Keeps :
      (fuel : ℕ) (o : CsrOrder C) (pri pub_key : String) (delay_millis : ℕ)
      → Keeps I (finalize fuel o pri pub_key delay_millis)
  unfolding finalize
  finalize-Keeps fuel o pri pub_key delay_millis = search (steps, finalize_pkey-Keeps) depth 8
