-- ===== src/Example/Issuing.antt =====
-- Directories, accounts and orders (src/dir.rs, src/acc/mod.rs, src/order/mod.rs) on such a server.
use acme_lib.Prelude.{
  ap, ℕ, ◌≡◌, refl, sym, inr, String, Bool, true, false, Option, none, some, List, Bytes, subst,
}
use acme_lib.World.{◌>>=◌, World, get, put}
use acme_lib.Api.{ApiDirectory}
use acme_lib.Crates.{Crates}
use acme_lib.Outcome.{ok}
use acme_lib.Persist.{Persist, PersistKey}
use acme_lib.World.Fine.{AsksAt, Fine, Fine-bind, Fine-then, Fine-pure, Fine-known, Fine-expect}
use acme_lib.Req.{send, req_handle_error, req_expect_header}
use acme_lib.Acc.Key.{AcmeKey, key_to_pem, key_from_pem}
use acme_lib.Acc.Inner.{AccountInner}
use acme_lib.Acc.{Account, new_order}
use acme_lib.Trans.{Transport, set_key_id, new_transport}
use acme_lib.Dir.{
  Directory, DirectoryUrl, to_url, from_url, alloc_pool, account, account_key, key_or_new,
  save_if_new,
}
use acme_lib.Order.{Order, refresh_order}
use acme_lib.Api.{account_json}
use acme_lib.Dir.{account_request}
use acme_lib.Prelude.{◌∙◌}
use acme_lib.Client.Responsive.{ShowsBy, Shows, call-Shows, call_jwk-Shows}
use acme_lib.Example.Working.{IsWorking, HasJwk, jwk_of-Good, generate_key-Fine}
use acme_lib.Trans.Pool.{new_pool}
use acme_lib.Prelude.{Bool-cases, inl, ◌=ᵇ◌, if◌then◌else◌}
use acme_lib.Example.Server.{
  IsNonceUrl, to_accounts, to_orders, to_order, Site, IsAcmeServer, ShowsOrder, Any, ShowsAccount,
  ShowsNewOrder,
}

-- Writing succeeds, and reading does.
pub record IsAvailable {C : Crates} (P : Persist C) : Type 0 where
  pub puts : (k : PersistKey) (v : Bytes) (s : P.Store) → (P.put k v s).0 ≡ ok tt
  pub gets : (k : PersistKey) (s : P.Store) → (o : Option Bytes) × ((P.get k s).0 ≡ ok o)

-- The account's key, where there is one, is PEM that openssl reads as a key with a JWK.
abbrev pub IsReadable : (C : Crates) → Option Bytes → Type 0
IsReadable C none = Unit
IsReadable C (some pem) = (k : C.EcKey) × (C.ec_key_from_pem pem ≡ inr k) × HasJwk C k

abbrev pub HasReadableKey : {C : Crates} {P : Persist C} → String → World C P → Type 0
HasReadableKey {C} {P} email w =
    (o : Option Bytes) × ((P.get (account_key C email) w.store).0 ≡ ok o) × IsReadable C o

-- The account has a key id, the directory's URLs, a key with a JWK, and is one of the server's.
abbrev pub IsReady : {C : Crates} → Site C → ApiDirectory → AccountInner C → Type 0
IsReady {C} S directory inner =
    ((kid : String) × (inner.transport.acme_key.key_id ≡ some kid))
    × (inner.api_directory ≡ directory)
    × HasJwk C inner.transport.acme_key.private_key
    × S.HasAccount inner.transport.acme_key

-- The order of an account that is ready, at its URL.
abbrev pub IsPlaced : {C : Crates} → Site C → ApiDirectory → Order C → Type 0
IsPlaced S directory o = IsReady S directory o.inner × S.OrderAt o.url o.api_order

module _ {C : Crates} {P : Persist C} (S : Site C) (url : DirectoryUrl) (directory : ApiDirectory)
    (server : IsAcmeServer C S (to_url url) directory) (working : IsWorking C)
    (available : IsAvailable P) where
  pub put-Fine :
      (k : PersistKey) (v : Bytes)
      → Fine {P = P} (IsNonceUrl directory) (λ w. Unit) (λ u w. Unit) (put k v)
  unfolding put
  put-Fine k v = record { at = λ w n i. rw (available.puts k v w.store) (n, tt) }

  -- The new pool asks at the directory's URL for nonces.
  alloc_pool-AsksAt :
      (w : World C P)
      → AsksAt (IsNonceUrl directory) w
      → (q : ℕ)
      → IsNonceUrl directory
          (if w.next_pool =ᵇ q then new_pool directory.new_nonce else w.pools q).nonce_url
  alloc_pool-AsksAt w asks q = elim (Bool-cases (w.next_pool =ᵇ q)) [
    | inl this ↦ rw this refl
    | inr other ↦ rw other (asks q)
  ]

  pub from_url-Fine :
      (email : String)
      → Fine {P = P}
          (IsNonceUrl directory)
          (HasReadableKey email)
          (λ d w. (d.api_directory ≡ directory) × HasReadableKey email w)
          (from_url url)
  unfolding from_url send req_handle_error ◌>>=◌ alloc_pool
  from_url-Fine email = record {
    at = λ w n i.
        let (good, read) = server.has_directory w.net in
        rw good (rw read (alloc_pool-AsksAt w n, (refl, i)));
  }

  key_or_new-Fine :
      (pem : Option Bytes)
      → IsReadable C pem
      → Fine {P = P}
          (IsNonceUrl directory)
          (λ w. Unit)
          (λ found w. HasJwk C found.0.private_key × Unit)
          (key_or_new pem)
  unfolding key_from_pem
  key_or_new-Fine none r =
      Fine-then _ (generate_key-Fine working (Any C)) λ k jwk. Fine-pure _ (λ w i. (jwk, i))
  key_or_new-Fine (some pem) (k, e, jwk) =
      Fine-then _ (Fine-known _ {a = record { private_key = k; key_id = none }} (rw e refl))
        λ key same.
          Fine-pure _ (λ w i. (subst (λ (x : AcmeKey C). HasJwk C x.private_key) same jwk, i))

  save_if_new-Fine :
      (k : PersistKey) (t : Transport C) (b : Bool)
      → Fine {P = P} (IsNonceUrl directory) (λ w. Unit) (λ u w. Unit) (save_if_new k t b)
  unfolding key_to_pem
  save_if_new-Fine k t false = Fine-pure tt (λ w i. i)
  save_if_new-Fine k t true =
      Fine-then _ (Fine-expect _ _ (working.ec_key_writes t.acme_key.private_key))
        λ pem u. put-Fine k pem

  get-Fine :
      (email : String)
      → Fine {P = P}
          (IsNonceUrl directory)
          (HasReadableKey email)
          (λ pem w. IsReadable C pem × Unit)
          (get (account_key C email))
  unfolding get
  get-Fine email = record { at = λ w n (o, e, r). rw e (n, (r, tt)) }

  -- The response to a registration shows the account, which the key with its id is of.
  abbrev Registered : AcmeKey C → C.Response → Type 0
  Registered key res =
      ShowsAccount C res
      × ((location : String)
          → C.header res "location" ≡ some location
          → S.HasAccount (record key { key_id = some location }))

  pub account-Fine :
      (fuel : ℕ) (d : Directory) (email : String)
      → d.api_directory ≡ directory
      → Fine {P = P}
          (IsNonceUrl directory)
          (HasReadableKey email)
          (λ acc w. IsReady S directory acc.inner × Unit)
          (account fuel d email)
  unfolding account req_expect_header
  account-Fine fuel d email same = Fine-then _ (get-Fine email) λ pem r.
      Fine-then _ (key_or_new-Fine pem r) λ found jwk.
        Fine-then (Registered found.0)
          (call_jwk-Shows server.responsive (Any C) (λ req net i. tt) (Registered found.0) _ _ _
            fuel (jwk_of-Good found.0 jwk)
            (to_accounts email (ap (λ (x : ApiDirectory). x.new_account) same) refl)
            (subst
              (λ (x : ApiDirectory).
                ShowsBy C (Any C) found.0 x.new_account (account_json (account_request email))
                  (Registered found.0))
              (sym same) (server.makes_accounts found.0 (account_json (account_request email)))))
          λ res (((location, has), a, read), owns).
            Fine-then _ (Fine-known _ {a = location} (rw has refl)) λ kid u.
              Fine-then _ (Fine-known _ read) λ api_account v.
                Fine-bind _
                  (save_if_new-Fine _ (set_key_id (new_transport d.nonce_pool found.0) kid) found.1)
                  λ v.
                    Fine-pure _ (λ w i. (((kid, refl), same, jwk, owns kid (has ∙ ap some u)), tt))

  pub new_order-Fine :
      (fuel : ℕ) (acc : Account C) (name : String) (names : List String)
      → IsReady S directory acc.inner
      → Fine {P = P}
          (IsNonceUrl directory)
          (λ w. Unit)
          (λ o w. IsPlaced S directory o.order × Unit)
          (new_order acc fuel name names)
  unfolding new_order req_expect_header
  new_order-Fine fuel acc name names ((kid, has_kid), same, jwk, own) =
      Fine-then (ShowsNewOrder S)
        (call-Shows server.responsive (Any C) (λ req net i. tt) (ShowsNewOrder S)
          acc.inner.transport kid _ _ fuel has_kid
          (to_orders name names own (ap (λ (x : ApiDirectory). x.new_order) same) refl)
          (subst (λ (x : ApiDirectory). Shows C (Any C) x.new_order (ShowsNewOrder S)) (sym same)
            server.makes_orders))
        λ res (order_url, has, (o, read, at)).
          Fine-then _ (Fine-known _ {a = order_url} (rw has refl)) λ location same_url.
            Fine-then _ (Fine-known _ read) λ api_order same_order. Fine-pure _ (λ w i.
              ((((kid, has_kid), same, jwk, own), rw (← same_url) (rw (← same_order) at)), tt))

  pub refresh_order-Fine :
      (fuel : ℕ) (o : Order C)
      → IsPlaced S directory o
      → Fine {P = P}
          (IsNonceUrl directory)
          (λ w. Unit)
          (λ r w. IsPlaced S directory r × Unit)
          (refresh_order fuel o.inner o.url)
  unfolding refresh_order
  refresh_order-Fine fuel o (((kid, has_kid), same, jwk, own), at) =
      Fine-then (ShowsOrder S o.url)
        (call-Shows server.responsive (Any C) (λ req net i. tt) (ShowsOrder S o.url)
          o.inner.transport kid _ _ fuel has_kid (to_order o.api_order own at refl)
          (server.shows_orders o.url o.api_order at))
        λ res (shown, read, at_url). Fine-then _ (Fine-known _ read) λ api_order same_order.
          Fine-pure _ (λ w i. ((((kid, has_kid), same, jwk, own), rw (← same_order) at_url), tt))
