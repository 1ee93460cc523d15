-- ===== src/Client/Fetched.antt =====
-- On the requests of `NewOrder::authorizations` in src/order/mod.rs.
use acme_lib.Prelude.{
  ℕ, ◌≡◌, refl, ap, sym, subst, ◌∙◌, String, true, Option, none, some, List, [], ◌∷◌, unwrap_or,
}
use acme_lib.Api.{empty_string_json}
use acme_lib.Crates.{Crates}
use acme_lib.Outcome.{ok}
use acme_lib.Persist.{Persist}
use acme_lib.World.{World, Event, pure}
use acme_lib.World.Values.{bind-then-ok, lift-then-ok, pure-ok}
use acme_lib.Req.{read_json}
use acme_lib.Trans.{call}
use acme_lib.Acc.Inner.{AccountInner}
use acme_lib.Order.{NewOrder, authorizations_of, authorizations_if, authorizations}
use acme_lib.Order.Auth.{Auth}
use acme_lib.Client.Evidence.{Newest, call-Newest}

module _ {C : Crates} {P : Persist C} (inner : AccountInner C) where
  -- Since `base`, there was one request with no payload for each URL, in their order, signed for the URL in
  -- the name of the account; it was answered well, and the answer reads as the authorization in the URL's
  -- place, which is for the URL and the account.
  abbrev pub Fetched : List String → List (Auth C) → List (Event C) → World C P → Type 0
  Fetched [] [] base w = w.trace ≡ base
  Fetched (url ∷ urls) (auth ∷ auths) base w =
      (res : C.Response) × (next : World C P) × Newest base inner.transport url empty_string_json
        res next
      × (C.is_ok res ≡ true)
      × (read_json C C.auth_from_str res ≡ ok auth.api_auth)
      × (auth.auth_url ≡ url)
      × (auth.inner ≡ inner)
      × Fetched urls auths next.trace w
  Fetched _ _ base w = ⊥

  authorizations_of-Fetched :
      (fuel : ℕ) (urls : List String) (w : World C P) (auths : List (Auth C))
      → (authorizations_of fuel inner urls w).0 ≡ ok auths
      → Fetched urls auths w.trace (authorizations_of fuel inner urls w).1
  unfolding authorizations_of pure
  authorizations_of-Fetched fuel [] w auths h =
      subst (λ l. Fetched [] l w.trace w) (pure-ok [] w h) refl
  authorizations_of-Fetched fuel (url ∷ urls) w auths h =
      let (res, e1, p1, h1) = bind-then-ok _ _ w h in
      let (api, e2, p2, h2) = lift-then-ok _ _ _ h1 in
      let (rest, e3, p3, h3) = bind-then-ok _ _ _ h2 in
      let (newest, good) =
        (call-Newest w.trace inner.transport url empty_string_json fuel).at w res ([], refl) e1 in
      let next = (call inner.transport url empty_string_json fuel w).1 in
      subst (λ v. Fetched (url ∷ urls) auths w.trace v) (ap (λ r. r.1) (sym (p1 ∙ p2 ∙ p3)))
        (subst (λ l. Fetched (url ∷ urls) l w.trace (authorizations_of fuel inner urls next).1)
          (pure-ok {P = P} _ next h3)
          (
            res,
            next,
            newest,
            good,
            e2,
            refl,
            refl,
            authorizations_of-Fetched fuel urls next rest e3,
          ))

-- When authorizations are returned, there were requests with no payload, for each URL of the order's list
-- one that was signed for the URL in the name of the order's account and answered well, in the order of the
-- list, and nothing was sent if the order has no list; the authorizations are what these answers read as,
-- in the same order, for their URLs and the order's account.
pub authorizations-Fetched :
    {C : Crates} {P : Persist C} (fuel : ℕ) (o : NewOrder C) (w : World C P) (auths : List (Auth C))
    → (authorizations fuel o w).0 ≡ ok auths
    → Fetched o.order.inner
        (unwrap_or o.order.api_order.authorizations [])
        auths
        w.trace
        (authorizations fuel o w).1
unfolding authorizations authorizations_of pure
authorizations-Fetched {C} {P} fuel o w auths h = of_list o.order.api_order.authorizations h
  where
    of_list :
        (urls : Option (List String))
        → (authorizations_if fuel o.order.inner urls w).0 ≡ ok auths
        → Fetched o.order.inner
            (unwrap_or urls [])
            auths
            w.trace
            (authorizations_if fuel o.order.inner urls w).1
    of_list none e = authorizations_of-Fetched o.order.inner fuel [] w auths e
    of_list (some urls) e = authorizations_of-Fetched o.order.inner fuel urls w auths e
