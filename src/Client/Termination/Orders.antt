-- ===== src/Client/Termination/Orders.antt =====
-- Lemmas on fuel: orders and challenges (src/order/mod.rs, src/order/auth.rs).
use acme_lib.Prelude.{ℕ, String, Option, none, some, List, [], ◌∷◌}
use acme_lib.Crates.{Crates}
use acme_lib.Persist.{Persist}
use acme_lib.World.Ends.{Ends, Ends-lift, Ends-pure, Ends-bind}
use acme_lib.Cert.{alt_names_text, create_csr}
use acme_lib.Order.{
  NewOrder, CsrOrder, CertOrder, refresh, authorizations_of, authorizations_if, authorizations,
  finalize, finalize_pkey, download_and_save_cert,
}
use acme_lib.Acc.Inner.{AccountInner}
use acme_lib.Client.Patience.{IsPatient, IsTotal}
use acme_lib.Client.Termination.Calls.{
  rank_of, expect-settles, read_json-settles, draw-Ends, call-Ends,
}
use acme_lib.Client.Termination.Polls.{refresh_order-Ends, wait_for_order_status-Ends}
use acme_lib.Client.Termination.Steps.{
  or_io-settles, or_other-settles, first_domain-settles, cert_order_if_valid-settles, put-Ends,
}

module _ {C : Crates} {P : Persist C} (rank : C.Net → ℕ) (patient : IsPatient C rank)
    (total : IsTotal P) (n : ℕ) where
  pub refresh-Ends : (o : NewOrder C) → Ends {P = P} (rank_of rank patient) n (refresh n o)
  unfolding refresh
  refresh-Ends o = Ends-bind _ n (refresh_order-Ends rank patient n _ _) λ order. Ends-pure _ n _

  pub authorizations_of-Ends :
      (inner : AccountInner C) (urls : List String)
      → Ends {P = P} (rank_of rank patient) n (authorizations_of n inner urls)
  unfolding authorizations_of
  authorizations_of-Ends inner [] = Ends-pure _ n []
  authorizations_of-Ends inner (url ∷ urls) = Ends-bind _ n (call-Ends rank patient n _ _ _) λ res.
      Ends-bind _ n (Ends-lift _ n _ (read_json-settles _ res))
        λ a. Ends-bind _ n (authorizations_of-Ends inner urls) λ rest. Ends-pure _ n _

  pub authorizations-Ends :
      (o : NewOrder C) → Ends {P = P} (rank_of rank patient) n (authorizations n o)
  unfolding authorizations
  authorizations-Ends o = of_urls o.order.api_order.authorizations
    where
      of_urls :
          (urls : Option (List String))
          → Ends {P = P} (rank_of rank patient) n (authorizations_if n o.order.inner urls)
      of_urls none = Ends-pure _ n []
      of_urls (some urls) = authorizations_of-Ends o.order.inner urls

  pub create_csr-Ends :
      (pri : C.PrivateKey) (pub_key : C.PublicKey) (ds : List String)
      → Ends {P = P} (rank_of rank patient) n (create_csr pri pub_key ds)
  unfolding create_csr alt_names_text
  create_csr-Ends pri pub_key ds = Ends-bind _ n (Ends-lift _ n _ (expect-settles _ _)) λ b.
      Ends-bind _ n (Ends-lift _ n _ (expect-settles _ _)) λ b1.
        Ends-bind _ n (Ends-lift _ n _ (expect-settles _ _)) λ as_lst.
          Ends-bind _ n (Ends-lift _ n _ (expect-settles _ _)) λ ext.
            Ends-bind _ n (Ends-lift _ n _ (expect-settles _ _)) λ b2.
              Ends-bind _ n (draw-Ends rank patient n _) λ signed.
                Ends-bind _ n (Ends-lift _ n _ (expect-settles _ signed)) λ b3. Ends-pure _ n _

  pub finalize_pkey-Ends :
      (o : CsrOrder C) (pri : C.PrivateKey) (pub_key : C.PublicKey) (delay_millis : ℕ)
      → Ends {P = P} (rank_of rank patient) n (finalize_pkey n o pri pub_key delay_millis)
  unfolding finalize_pkey
  finalize_pkey-Ends o pri pub_key delay_millis =
      Ends-bind _ n (create_csr-Ends pri pub_key _) λ csr.
        Ends-bind _ n (Ends-lift _ n _ (expect-settles _ _)) λ der.
          Ends-bind _ n (call-Ends rank patient n _ _ _) λ res.
            Ends-bind _ n (wait_for_order_status-Ends rank patient n _ _ delay_millis)
              λ order. Ends-lift _ n _ (cert_order_if_valid-settles pri order)

  pub finalize-Ends :
      (o : CsrOrder C) (pri pub_key : String) (delay_millis : ℕ)
      → Ends {P = P} (rank_of rank patient) n (finalize n o pri pub_key delay_millis)
  unfolding finalize
  finalize-Ends o pri pub_key delay_millis =
      Ends-bind _ n (Ends-lift _ n _ (or_other-settles _ _)) λ k.
        Ends-bind _ n (Ends-lift _ n _ (or_other-settles _ _))
          λ l. finalize_pkey-Ends o k l delay_millis

  pub download_and_save_cert-Ends :
      (o : CertOrder C) → Ends {P = P} (rank_of rank patient) n (download_and_save_cert n o)
  unfolding download_and_save_cert
  download_and_save_cert-Ends o = Ends-bind _ n (Ends-lift _ n _ (first_domain-settles _)) λ name.
      Ends-bind _ n (Ends-lift _ n _ (expect-settles _ _)) λ url.
        Ends-bind _ n (call-Ends rank patient n _ url _) λ res.
          Ends-bind _ n (Ends-lift _ n _ (expect-settles _ _)) λ pem.
            Ends-bind _ n (put-Ends rank patient total n _ pem) λ _.
              Ends-bind _ n (Ends-lift _ n _ (or_io-settles _))
                λ cert. Ends-bind _ n (put-Ends rank patient total n _ _) λ _. Ends-pure _ n _
