-- ===== src/Client/Protocol.antt =====
-- On what the servers said before `validate` of src/order/auth.rs and `finalize_pkey` of
-- src/order/mod.rs end well.
use acme_lib.Client.Frame.{quiet_of, create_csr-Keeps}
use acme_lib.Prelude.{
  Bytes, arith, ℕ, ◌≡◌, refl, ap, sym, ◌∙◌, String, true, some, List, [], ◌∷◌, ◌++◌, ◌⊎◌,
}
use acme_lib.Api.{
  ApiAuth, is_auth_valid, is_status_valid, domains, empty_string_json, empty_object_json,
  finalize_json,
}
use acme_lib.Crates.{Crates}
use acme_lib.Outcome.{ok, expect-eq-ok}
use acme_lib.Persist.{Persist}
use acme_lib.World.{World, Event, exchange}
use acme_lib.World.Values.{bind-then-ok, lift-then-ok, lift-ok, lift-world}
use acme_lib.World.Leads.{Leads, Leads-lift, Leads-pure, Leads-bind, Leads-repeat, Leads-wait_if}
use acme_lib.Req.{post_request, read_json, base64url}
use acme_lib.Cert.{create_csr}
use acme_lib.Trans.{call, Transport}
use acme_lib.Trans.Written.{WrittenFor}
use acme_lib.Json.{Json}
use acme_lib.Acc.Inner.{AccountInner}
use acme_lib.Order.{
  Order, CsrOrder, CertOrder, refresh_order, poll_order, wait_for_order_status, finalize_pkey,
  cert_order_if_valid,
}
use acme_lib.Order.Auth.{
  Challenge, Marker, accept_if_valid, poll_auth, wait_for_auth_status, validate,
}
use acme_lib.Order.Results.{is_status_iff, cert_order_if_valid-eq-ok}
use acme_lib.Client.Evidence.{Extends, Newest, Newest-Extends, Extends-basics, call-Newest}

module _ {C : Crates} {P : Persist C} (base : List (Event C)) where
  -- The newest event is an answer that is ok and reads as the value, to a signed request with no payload.
  abbrev pub Reads :
      {A : Type 0} → (String → C.JsonError ⊎ A) → Transport C → String → A → World C P → Type 0
  Reads from_str t url a w =
      (res : C.Response) × Newest base t url empty_string_json res w
      × (C.is_ok res ≡ true)
      × (read_json C from_str res ≡ ok a)

  wait_for_auth_status-Reads :
      (fuel : ℕ) (inner : AccountInner C) (url : String) (delay_millis : ℕ)
      → Leads
          (Extends base)
          (wait_for_auth_status fuel inner url delay_millis)
          (Reads C.auth_from_str inner.transport url)
  unfolding wait_for_auth_status poll_auth
  wait_for_auth_status-Reads fuel inner url delay_millis = Leads-repeat fuel _ (
      Leads-bind
        (λ res w. Newest base inner.transport url empty_string_json res w × (C.is_ok res ≡ true))
        (call-Newest base inner.transport url empty_string_json fuel)
        λ res.
          Leads-bind (Reads C.auth_from_str inner.transport url)
            (Leads-lift _ (λ auth w (newest, good) e. (res, newest, good, e)))
            λ auth.
              Leads-wait_if (Reads C.auth_from_str inner.transport url auth) _ delay_millis auth
                ((Extends-basics base).basic_sleep delay_millis)
                (λ w (r, newest, good, e).
                  Newest-Extends base inner.transport url empty_string_json r w newest)
                (λ w read b. read))

  refresh_order-Reads :
      (fuel : ℕ) (inner : AccountInner C) (url : String)
      → Leads
          (Extends base)
          (refresh_order fuel inner url)
          (λ o. Reads C.order_from_str inner.transport url o.api_order)
  unfolding refresh_order
  refresh_order-Reads fuel inner url =
      Leads-bind
        (λ res w. Newest base inner.transport url empty_string_json res w × (C.is_ok res ≡ true))
        (call-Newest base inner.transport url empty_string_json fuel)
        λ res.
          Leads-bind (Reads C.order_from_str inner.transport url)
            (Leads-lift _ (λ o w (newest, good) e. (res, newest, good, e)))
            λ o. Leads-pure _ (λ w read. read)

  wait_for_order_status-Reads :
      (fuel : ℕ) (inner : AccountInner C) (url : String) (delay_millis : ℕ)
      → Leads
          (Extends base)
          (wait_for_order_status fuel inner url delay_millis)
          (λ o. Reads C.order_from_str inner.transport url o.api_order)
  unfolding wait_for_order_status poll_order
  wait_for_order_status-Reads fuel inner url delay_millis = Leads-repeat fuel _ (
      Leads-bind (λ o. Reads C.order_from_str inner.transport url o.api_order)
        (refresh_order-Reads fuel inner url)
        λ o.
          Leads-wait_if (Reads C.order_from_str inner.transport url o.api_order) _ delay_millis o
            ((Extends-basics base).basic_sleep delay_millis)
            (λ w (r, newest, good, e).
              Newest-Extends base inner.transport url empty_string_json r w newest)
            (λ w read b. read))

-- `validate` accepts only a valid authorization.
accept_if_valid-valid :
    {C : Crates} (a : ApiAuth) {u : Unit}
    → accept_if_valid {C = C} a ≡ ok u
    → a.status ≡ some "valid"
unfolding accept_if_valid is_auth_valid
accept_if_valid-valid a h = (is_status_iff "valid" a.status).0 (ground arith)

module _ {C : Crates} {P : Persist C} where
  -- Two requests that were answered well, the second one newest, since `base`, each signed for its URL in
  -- the name of the key's account; the first carries the payload, and the second none.
  abbrev pub Exchanges :
      Transport C → String → Json → String → C.Response → List (Event C) → World C P → Type 0
  Exchanges t first payload second res base w =
      (asked : String) × (answer : C.Response) × (before : List (Event C)) × (asked_last : String)
      × (between : List (Event C)) × (w.trace
          ≡ exchange (post_request second asked_last) res
            ∷ (between ++ (exchange (post_request first asked) answer ∷ (before ++ base))))
      × WrittenFor C t.acme_key first payload asked
      × WrittenFor C t.acme_key second empty_string_json asked_last
      × (C.is_ok answer ≡ true)
      × (C.is_ok res ≡ true)

  -- A validation that ends well has sent a request with an empty object to the challenge, which was answered
  -- well, and after it a request with no payload to the authorization, both signed for their URLs in the
  -- name of the challenge's account, whose answer is the last event of all, is ok, and reads
  -- as an authorization with the status `valid`.
  pub validate-Exchanges :
      {A : Marker} (fuel : ℕ) (c : Challenge C A) (delay_millis : ℕ) (w : World C P)
      → (validate fuel c delay_millis w).0 ≡ ok tt
      → (res : C.Response) × (auth : ApiAuth) × Exchanges c.inner.transport c.api_challenge.url
          empty_object_json c.auth_url res w.trace
          (validate fuel c delay_millis w).1
        × (read_json C C.auth_from_str res ≡ ok auth)
        × (auth.status ≡ some "valid")
  unfolding validate
  validate-Exchanges fuel c delay_millis w h =
      let (answer, e1, p1, h1) = bind-then-ok _ _ w h in
      let (read, e2, p2, h2) = lift-then-ok _ _ _ h1 in
      let (auth, e3, p3, h3) = bind-then-ok _ _ _ h2 in
      let asked = call c.inner.transport c.api_challenge.url empty_object_json fuel w in
      let ((signed, before, first_written, first), good) =
        (call-Newest w.trace c.inner.transport c.api_challenge.url empty_object_json fuel).at w
          answer ([], refl) e1 in
      let (res, (polled, between, last_written, last), good_last, reads) =
        (wait_for_auth_status-Reads asked.1.trace fuel c.inner c.auth_url delay_millis).at asked.1
          auth ([], refl) e3 in
      (
        res,
        auth,
        (
          signed,
          answer,
          before,
          polled,
          between,
          ap (λ r. r.1.trace) (p1 ∙ p2 ∙ p3)
              ∙ ap (λ v. v.trace) (lift-world (accept_if_valid {C = C} auth) _)
              ∙ last
              ∙ ap (λ l. exchange (post_request c.auth_url polled) res ∷ between ++ l) first,
          first_written,
          last_written,
          good,
          good_last,
        ),
        reads,
        accept_if_valid-valid {C = C} auth (lift-ok _ _ h3),
      )

  -- A finalization that ends well has sent to the order's URL for it, as DER, the signing request that
  -- create_csr makes for the keys and the order's names, which was answered well, and after it a request
  -- with no payload to the order, both signed for their URLs in the name of the order's account, the last
  -- of which is the last event of all, with an answer that is ok, and reads as the order that is returned,
  -- with the status `valid`.
  pub finalize_pkey-Exchanges :
      (fuel : ℕ) (o : CsrOrder C) (k : C.PrivateKey) (l : C.PublicKey) (delay_millis : ℕ)
      (w : World C P) (c : CertOrder C)
      → (finalize_pkey fuel o k l delay_millis w).0 ≡ ok c
      → (csr : C.X509Req) × (der : Bytes) × (res : C.Response) × ((create_csr k l
            (domains o.order.api_order)
            w).0
          ≡ ok csr)
        × (C.req_to_der csr ≡ some der)
        × Exchanges o.order.inner.transport o.order.api_order.finalize
            (finalize_json (record { csr = base64url C der }))
            o.order.url
            res
            w.trace
            (finalize_pkey fuel o k l delay_millis w).1
        × (read_json C C.order_from_str res ≡ ok c.order.api_order)
        × (c.order.api_order.status ≡ some "valid")
  unfolding finalize_pkey is_status_valid
  finalize_pkey-Exchanges fuel o k l delay_millis w c h =
      let (csr, e1, p1, h1) = bind-then-ok _ _ w h in
      let (der, e2, p2, h2) = lift-then-ok _ _ _ h1 in
      let (answer, e3, p3, h3) = bind-then-ok _ _ _ h2 in
      let (order, e4, p4, h4) = bind-then-ok _ _ _ h3 in
      let made = (create_csr k l (domains o.order.api_order) w).1 in
      let body = finalize_json (record { csr = base64url C der }) in
      let asked = call o.order.inner.transport o.order.api_order.finalize body fuel made in
      let ((signed, before, first_written, first), good) =
        (call-Newest w.trace o.order.inner.transport o.order.api_order.finalize body fuel).at made
          answer
          ((create_csr-Keeps (quiet_of (Extends-basics w.trace)) k l (domains o.order.api_order)).at
            w ([], refl))
          e3 in
      let (res, (polled, between, last_written, last), good_last, reads) =
        (wait_for_order_status-Reads asked.1.trace fuel o.order.inner o.order.url delay_millis).at
          asked.1 order ([], refl) e4 in
      let (key, same, valid) = cert_order_if_valid-eq-ok k order c (lift-ok _ _ h4) in
      (
        csr,
        der,
        res,
        e1,
        expect-eq-ok "to_der()" _ e2,
        (
          signed,
          answer,
          before,
          polled,
          between,
          ap (λ r. r.1.trace) (p1 ∙ p2 ∙ p3 ∙ p4)
              ∙ ap (λ v. v.trace) (lift-world (cert_order_if_valid k order) _)
              ∙ last
              ∙ ap (λ l. exchange (post_request o.order.url polled) res ∷ between ++ l) first,
          first_written,
          last_written,
          good,
          good_last,
        ),
        reads ∙ ap (λ (x : Order C). ok x.api_order) (sym same),
        ap (λ (x : Order C). x.api_order.status) same
            ∙ (is_status_iff "valid" order.api_order.status).0 valid,
      )
