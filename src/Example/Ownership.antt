-- ===== src/Example/Ownership.antt =====
-- The proof of ownership in the example of src/lib.rs on such a server.
use acme_lib.Prelude.{
  ℕ, zero, suc, ◌≡◌, refl, sym, subst, String, Option, none, some, List, [], ◌∷◌,
}
use acme_lib.Api.{ApiDirectory, ApiChallenge, find_http_challenge}
use acme_lib.Crates.{Crates}
use acme_lib.Persist.{Persist}
use acme_lib.World.{Act}
use acme_lib.World.Fine.{
  Good, Fine, Fine-then, Fine-bind, Fine-lift, Fine-pure, Fine-known, Fine-weaken,
}
use acme_lib.Acc.Inner.{AccountInner}
use acme_lib.Dir.{DirectoryUrl, to_url}
use acme_lib.Order.{
  NewOrder, CsrOrder, confirm_validations, refresh, authorizations_of, authorizations,
}
use acme_lib.Order.Auth.{Auth, Challenge, Marker, http_challenge, validate}
use acme_lib.Client.Liveness.{validate-Fine}
use acme_lib.Client.Responsive.{call-Shows}
use acme_lib.Example.{first_auth, break_or, prove_ownership}
use acme_lib.Example.Request.{confirm_validations-order}
use acme_lib.Example.Working.{IsWorking, http_proof-Good}
use acme_lib.Example.Server.{
  IsNonceUrl, to_auth, to_challenge, Site, IsAcmeServer, ShowsAuth, All, Any,
}
use acme_lib.Example.Issuing.{IsReady, IsPlaced, IsAvailable, refresh_order-Fine}

module _ {C : Crates} (S : Site C) (directory : ApiDirectory) where
  -- An authorization of the account, with an HTTP challenge.
  abbrev IsOffered : Auth C → Type 0
  IsOffered a =
      IsReady S directory a.inner
      × S.AuthAt a.auth_url
      × (c : ApiChallenge) × (find_http_challenge a.api_auth ≡ some c)
      × S.ChallengeAt c.url

  -- The authorizations of the URLs: where there is a URL, there is one.
  abbrev AreOffered : List String → List (Auth C) → Type 0
  AreOffered [] auths = Unit
  AreOffered (url ∷ urls) [] = ⊥
  AreOffered (url ∷ urls) (a ∷ auths) = IsOffered a

  abbrev IsPosed : Challenge C Marker.http → Type 0
  IsPosed c = IsReady S directory c.inner × S.AuthAt c.auth_url × S.ChallengeAt c.api_challenge.url

  first_auth-Good :
      (url : String) (urls : List String) (auths : List (Auth C))
      → AreOffered (url ∷ urls) auths
      → Good IsOffered (first_auth auths)
  first_auth-Good url urls [] h = h
  first_auth-Good url urls (a ∷ auths) h = h

  http_challenge-Good : (a : Auth C) → IsOffered a → Good IsPosed (http_challenge a)
  unfolding http_challenge
  http_challenge-Good a (ready, auth_at, c, found, at) = rw found (ready, auth_at, at)

module _ {C : Crates} {P : Persist C} (S : Site C) (url : DirectoryUrl) (directory : ApiDirectory)
    (server : IsAcmeServer C S (to_url url) directory) (working : IsWorking C)
    (available : IsAvailable P) (fuel : ℕ) where
  authorizations_of-Fine :
      (inner : AccountInner C) (urls : List String)
      → IsReady S directory inner
      → All S.AuthAt urls
      → Fine {P = P}
          (IsNonceUrl directory)
          (λ w. Unit)
          (λ auths w. AreOffered S directory urls auths × Unit)
          (authorizations_of fuel inner urls)
  unfolding authorizations_of
  authorizations_of-Fine inner [] ready h = Fine-pure [] (λ w i. (tt, i))
  authorizations_of-Fine inner (auth ∷ auths) ((kid, has_kid), same, jwk, own) (at, rest) =
      Fine-then (ShowsAuth S)
        (call-Shows server.responsive (Any C) (λ req net i. tt) (ShowsAuth S) inner.transport kid
          auth _ fuel has_kid (to_auth own at refl) (server.shows_auths auth at))
        λ res (a, read, status, c, found, posed).
          Fine-then _ (Fine-known _ read) λ api_auth same_auth.
            Fine-then _ (authorizations_of-Fine inner auths ((kid, has_kid), same, jwk, own) rest)
              λ more u. Fine-pure _ (λ w i.
                ((((kid, has_kid), same, jwk, own), at, c, rw (← same_auth) found, posed), tt))

  authorizations-Fine :
      (o : NewOrder C)
      → IsPlaced S directory o.order
      → Fine {P = P}
          (IsNonceUrl directory)
          (λ w. Unit)
          (λ auths w.
            ((a : String) × (more : List String) × AreOffered S directory (a ∷ more) auths) × Unit)
          (authorizations fuel o)
  unfolding authorizations
  authorizations-Fine o (ready, at) =
      let (a, more, e, h) = server.orders_have_auths o.order.url o.order.api_order at in
      rw e (
        Fine-weaken (authorizations_of-Fine o.order.inner (a ∷ more) ready h)
          λ auths w (offered, u). ((a, more, offered), tt))

  validated-Fine :
      (c : Challenge C Marker.http)
      → IsPosed S directory c
      → Fine {P = P} (IsNonceUrl directory) (λ w. Unit) (λ u w. Unit) (validate fuel c 5000)
  validated-Fine c (((kid, has_kid), same, jwk, own), auth_at, at) =
      validate-Fine server.responsive (Any C) (λ req net i. tt) fuel c kid 5000 has_kid
        (to_challenge own at refl) (to_auth own auth_at refl)
        (server.shows_challenges c.api_challenge.url at)
        λ text net i signed good.
          let (a, read, status, found, e, posed) =
            server.shows_auths c.auth_url auth_at text net i signed good in
          (a, read, status)

  refresh-Fine :
      (o : NewOrder C)
      → IsPlaced S directory o.order
      → Fine {P = P}
          (IsNonceUrl directory)
          (λ w. Unit)
          (λ r w. IsPlaced S directory r.order × Unit)
          (refresh fuel o)
  unfolding refresh
  refresh-Fine o placed =
      Fine-then _ (refresh_order-Fine S url directory server working available fuel o.order placed)
        λ order h. Fine-pure _ (λ w i. (h, tt))

  break_or-Fine :
      (found : Option (CsrOrder C)) (rest : Act C P (CsrOrder C))
      → ((c : CsrOrder C) → found ≡ some c → IsPlaced S directory c.order)
      → Fine (IsNonceUrl directory) (λ w. Unit) (λ c w. IsPlaced S directory c.order × Unit) rest
      → Fine
          (IsNonceUrl directory)
          (λ w. Unit)
          (λ c w. IsPlaced S directory c.order × Unit)
          (break_or fuel found rest)
  break_or-Fine (some c) rest h k = Fine-pure c (λ w i. (h c refl, tt))
  break_or-Fine none rest h k = k

  pub prove_ownership-Fine :
      (rounds : ℕ) (o : NewOrder C)
      → IsPlaced S directory o.order
      → Fine {P = P}
          (IsNonceUrl directory)
          (λ w. Unit)
          (λ c w. IsPlaced S directory c.order × Unit)
          (prove_ownership fuel rounds o)
  unfolding prove_ownership
  prove_ownership-Fine zero o placed = record { at = λ w n i. tt }
  prove_ownership-Fine (suc rounds) o placed = record {
    at =
        (break_or-Fine (confirm_validations o) _
          (λ c found.
            subst (IsPlaced S directory) (sym (confirm_validations-order o c found)) placed)
          (Fine-then _ (authorizations-Fine o placed) λ auths (a, more, offered).
            Fine-then _ (Fine-lift _ _ (first_auth-Good S directory a more auths offered))
              λ auth is_offered.
                Fine-then _ (Fine-lift _ _ (http_challenge-Good S directory auth is_offered))
                  λ chall posed.
                    Fine-then _ (Fine-lift _ _ (http_proof-Good chall server.responsive posed.0.2))
                      λ proof u. Fine-bind _ (validated-Fine chall posed) λ u.
                        Fine-then _ (refresh-Fine o placed)
                          λ refreshed h. prove_ownership-Fine rounds refreshed h)).at;
  }
