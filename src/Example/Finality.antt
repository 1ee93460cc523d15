-- ===== src/Example/Finality.antt =====
-- Finalization and the download of a certificate (src/order/mod.rs) on such a server.
use acme_lib.Prelude.{ℕ, ◌≡◌, refl, sym, subst, inl, inr, String, true, false, some}
use acme_lib.Api.{ApiDirectory, ApiOrder, is_status_valid, is_status_processing}
use acme_lib.Crates.{Crates}
use acme_lib.Persist.{Persist}
use acme_lib.World.Fine.{
  Fine, Next, Fine-then, Fine-bind, Fine-lift_at, Fine-pure, Fine-known, Fine-expect, Fine-weaken,
  Fine-repeat, Fine-wait_if,
}
use acme_lib.Dir.{DirectoryUrl, to_url}
use acme_lib.Order.{
  Order, CsrOrder, CertOrder, refresh_order, poll_order, wait_for_order_status, finalize_pkey,
  cert_order_if_valid, download_and_save_cert,
}
use acme_lib.Json.{Json}
use acme_lib.Acc.Key.{AcmeKey}
use acme_lib.Client.Responsive.{signed_for, Accepted, call-Fine, call-Shows}
use acme_lib.Example.Working.{IsWorking, create_csr-Fine}
use acme_lib.Example.Server.{
  IsNonceUrl, to_order, to_finalize, to_cert, Site, IsAcmeServer, ShowsEnd, ShowsText, Ends, Any,
}
use acme_lib.Example.Issuing.{IsPlaced, IsAvailable, put-Fine}

module _ {C : Crates} (S : Site C) (directory : ApiDirectory) where
  -- The order has a certificate.
  abbrev pub HasCert : ApiOrder → Type 0
  HasCert o = (url : String) × (o.certificate ≡ some url) × S.CertAt url

  abbrev IsEnded : Order C → Type 0
  IsEnded o = IsPlaced S directory o × (is_status_valid o.api_order ≡ true) × HasCert o.api_order

  -- What is not in processing has ended.
  ended :
      (o : Order C)
      → IsPlaced S directory o
      → Ends S o.api_order
      → is_status_processing o.api_order ≡ false
      → IsEnded o
  ended o placed (inl processing) q = cc
  ended o placed (inr (valid, url, has, at)) q = (placed, valid, (url, has, at))

  abbrev pub IsCertified : CertOrder C → Type 0
  IsCertified c = IsPlaced S directory c.order × HasCert c.order.api_order

module _ {C : Crates} {P : Persist C} (S : Site C) (url : DirectoryUrl) (directory : ApiDirectory)
    (server : IsAcmeServer C S (to_url url) directory) (working : IsWorking C)
    (available : IsAvailable P) (fuel : ℕ) where
  poll_order-Fine :
      (o : Order C) (delay_millis : ℕ)
      → IsPlaced S directory o
      → Fine {P = P}
          (IsNonceUrl directory)
          (λ w. S.Final o.url w.net)
          (Next (λ w. S.Final o.url w.net) (λ r w. IsEnded S directory r × S.Final o.url w.net))
          (poll_order fuel o.inner o.url delay_millis)
  unfolding poll_order refresh_order
  poll_order-Fine o delay_millis (((kid, has_kid), same, jwk, own), at) =
      Fine-then (λ (r : Order C). IsPlaced S directory r × Ends S r.api_order)
        (Fine-then (ShowsEnd S o.url)
          (call-Shows server.responsive (S.Final o.url) (server.stays_final o.url)
            (ShowsEnd S o.url) o.inner.transport kid o.url _ fuel has_kid
            (to_order o.api_order own at refl) (server.ends_orders o.url o.api_order at))
          λ res (shown, read, at_url, ends). Fine-then _ (Fine-known _ read) λ api_order same_order.
            Fine-pure _ (λ w i. (
              (
                (((kid, has_kid), same, jwk, own), rw (← same_order) at_url),
                rw (← same_order) ends,
              ),
              i,
            )))
        λ r (placed, ends).
          Fine-wait_if (S.Final o.url) _ delay_millis r (λ w i processing. i)
            (λ w i done. (ended S directory r placed ends done, i))

  finalized :
      (o : Order C) (res : C.Response) (after : C.Net)
      → IsPlaced S directory o
      → (key : AcmeKey C) (payload : Json)
      → Accepted C (Any C) key o.api_order.finalize payload res after
      → S.Final o.url after
  finalized o res after (ready, at) key payload (good, posted) =
      subst (S.Final o.url) (sym posted.is_after) (
        server.finalizes o.url o.api_order posted.text posted.net at (signed_for posted.is_signed)
          (subst (λ r. C.is_ok r ≡ true) posted.is_reply good))

  -- A finalization gives a valid order with a certificate.
  pub finalize_pkey-Fine :
      (o : CsrOrder C) (pri : C.PrivateKey) (pub_key : C.PublicKey) (delay_millis : ℕ)
      → IsPlaced S directory o.order
      → Fine {P = P}
          (IsNonceUrl directory)
          (λ w. Unit)
          (λ c w. IsCertified S directory c × Unit)
          (finalize_pkey fuel o pri pub_key delay_millis)
  unfolding finalize_pkey wait_for_order_status cert_order_if_valid
  finalize_pkey-Fine o pri pub_key delay_millis (((kid, has_kid), same, jwk, own), at) =
      let (name, names, e) = server.orders_have_names o.order.url o.order.api_order at in
      Fine-bind _ (rw e (create_csr-Fine working (Any C) pri pub_key name names)) λ csr.
        Fine-then _ (Fine-expect "to_der()" _ (working.request_writes csr)) λ der u.
          Fine-bind (λ res w. S.Final o.order.url w.net)
            (Fine-weaken
              (call-Fine server.responsive (Any C) (λ req net i. tt) o.order.inner.transport kid
                o.order.api_order.finalize _ fuel has_kid
                (to_finalize o.order.url _ o.order.api_order own at refl refl))
              λ res w (accepted, i).
                finalized o.order res w.net (((kid, has_kid), same, jwk, own), at) _ _ accepted)
            λ res.
              Fine-then _
                (Fine-repeat fuel _
                  (poll_order-Fine o.order delay_millis (((kid, has_kid), same, jwk, own), at)))
                λ order (ordered, valid, cert). Fine-lift_at _ λ w i. rw valid ((ordered, cert), tt)

  pub download_and_save_cert-Fine :
      (c : CertOrder C)
      → IsCertified S directory c
      → Fine {P = P}
          (IsNonceUrl directory)
          (λ w. Unit)
          (λ cert w. Unit)
          (download_and_save_cert fuel c)
  unfolding download_and_save_cert
  download_and_save_cert-Fine c ((((kid, has_kid), same, jwk, own), at), (cert_url, has, cert_at)) =
      let (name, names, e) = server.orders_have_names c.order.url c.order.api_order at in
      Fine-then _ (Fine-known _ {a = name} (rw e refl)) λ primary_name u.
        Fine-then _ (Fine-known _ {a = cert_url} (rw has refl)) λ found same_url.
          Fine-then (ShowsText C)
            (call-Shows server.responsive (Any C) (λ req net i. tt) (ShowsText C)
              c.order.inner.transport kid found _ fuel has_kid
              (rw (← same_url) (to_cert own cert_at refl))
              (rw (← same_url) (server.gives_certs cert_url cert_at)))
            λ res (text, read).
              Fine-then _ (Fine-expect "to_pem" _ (working.key_writes c.private_key)) λ pem u.
                Fine-bind _ (put-Fine S url directory server working available _ pem) λ u.
                  Fine-then _ (Fine-known _ {a = text} (rw read refl)) λ cert u.
                    Fine-bind _ (put-Fine S url directory server working available _ _)
                      λ u. Fine-pure _ (λ w i. i)
