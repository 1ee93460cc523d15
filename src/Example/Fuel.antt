-- ===== src/Example/Fuel.antt =====
-- On the fuel of the example of src/lib.rs.
use acme_lib.World.Settles.{Settles-from, Settles, Settles-bind, Settles-pure, Settles-of_Ends}
use acme_lib.World.Values.{Returns-bind, Returns-bind_of, Returns-lift, Returns-pure}
use acme_lib.Prelude.{
  ℕ, zero, suc, ◌+◌, ◌≤◌, ◌<◌, ◌≡◌, ◌≢◌, refl, ◌⊎◌, inl, inr, String, Bool, false, Option, none,
  some, List, arith, if◌then◌else◌, Bool-cases, ◌||◌,
}
use acme_lib.Api.{ApiOrder, is_status_ready, is_status_valid}
use acme_lib.Crates.{Crates}
use acme_lib.Outcome.{Outcome, ok, out_of_fuel, expect_ok}
use acme_lib.Persist.{Persist}
use acme_lib.World.{World, Act, pure}
use acme_lib.World.Keeps.{Keeps-bind, Keeps-lift, Keeps-pure}
use acme_lib.World.Ends.{Ends, Spends, Ends-lift, Ends-pure, Ends-bind, Spends-first}
use acme_lib.Req.{read_json}
use acme_lib.Acc.{Account, new_order}
use acme_lib.Order.{NewOrder, CsrOrder, is_validated, confirm_validations, refresh, refresh_order}
use acme_lib.Client.Patience.{IsTotal}
use acme_lib.Client.Termination.Calls.{
  rank_of, call-Spends, draw-Ends, ec_group-settles, map_ok-settles, >>=ᵒ-settles, expect-settles,
  jwk_of-settles,
}
use acme_lib.Order.Auth.{Auth, Challenge, Marker, http_challenge, http_proof, key_authorization}
use acme_lib.Client.Termination.Orders.{
  authorizations-Ends, refresh-Ends, finalize_pkey-Ends, download_and_save_cert-Ends,
}
use acme_lib.Client.Termination.Accounts.{from_url-Ends, account-Ends, new_order-Ends}
use acme_lib.Client.Termination.Polls.{validate-Ends}
use acme_lib.Cert.Keys.{create_ec_key}
use acme_lib.Jwt.{thumb_of, thumb_json}
use acme_lib.Example.{break_or, first_auth, prove_ownership, request_cert}
use acme_lib.Example.Server.{IsPrompt}

first_auth-settles :
    {C : Crates} (auths : List (Auth C))
    → ◌≢◌ {A = Outcome C (Auth C)} (first_auth auths) out_of_fuel
first_auth-settles auths = ground arith

http_challenge-settles : {C : Crates} (auth : Auth C) → http_challenge auth ≢ out_of_fuel
unfolding http_challenge
http_challenge-settles auth = map_ok-settles _ _ (expect-settles _ _)

expect_ok-settles :
    {C : Crates} {A E : Type 0} (s : String) (r : E ⊎ A)
    → ◌≢◌ {A = Outcome C A} (expect_ok s r) out_of_fuel
expect_ok-settles s r = ground arith

http_proof-settles : {C : Crates} (c : Challenge C Marker.http) → http_proof c ≢ out_of_fuel
unfolding http_proof key_authorization
http_proof-settles {C} c = >>=ᵒ-settles _ _ (jwk_of-settles c.inner.transport.acme_key) λ jwk.
    >>=ᵒ-settles _ _ (expect_ok-settles _ (C.to_string (thumb_json (thumb_of jwk)))) λ text e. cc

abbrev DecodesUnready : (C : Crates) → C.Response → Type 0
DecodesUnready C res =
    (o : ApiOrder) × (read_json C C.order_from_str res ≡ ok o)
    × (is_status_ready o ≡ false)
    × (is_status_valid o ≡ false)

abbrev IsUnready : {C : Crates} → NewOrder C → Type 0
IsUnready o = is_validated o ≡ false

-- The rounds that the loop of the example takes at least for the order.
abbrev cost : {C : Crates} → NewOrder C → ℕ
cost o = if is_validated o then 0 else 1

unready_parts : (a b : Bool) → (a || b) ≡ false → (a ≡ false) × (b ≡ false)
unready_parts a b h = ground arith

unconfirmed : {C : Crates} (o : NewOrder C) → confirm_validations o ≡ none → cost o ≡ 1
unfolding confirm_validations
unconfirmed {C} o h = elim (Bool-cases (is_validated o)) [
  | inl ready ↦ absurd (not_none (rw ready at h))
  | inr unready ↦ rw unready refl
]
  where
    not_none : {c : CsrOrder C} → some c ≢ none
    not_none e = cc

module _ {C : Crates} {P : Persist C} (rank : C.Net → ℕ) (prompt : IsPrompt C rank) where
  new_order-Spends :
      (n : ℕ) (acc : Account C) (name : String) (names : List String)
      → Spends {P = P} (rank_of rank prompt.patient) IsUnready (new_order acc n name names)
  unfolding new_order is_validated
  new_order-Spends n acc name names =
      Spends-first _ (DecodesUnready C) IsUnready
        (call-Spends rank prompt.patient n _ _ _ (DecodesUnready C)
          (λ text net (o, r, p, q). prompt.unready_costs _ text net o r p q))
        (λ k res. Keeps-bind (Keeps-lift _) λ url. Keeps-bind (Keeps-lift _) λ o. Keeps-pure _)
        (λ res. Returns-bind _ λ url.
          Returns-bind_of (λ o. read_json C C.order_from_str res ≡ ok o) (Returns-lift _ (λ o e. e))
            λ o e. Returns-pure _ (λ q. let (p, r) = unready_parts _ _ q in (o, e, p, r)))

  refresh-Spends :
      (n : ℕ) (o : NewOrder C)
      → Spends {P = P} (rank_of rank prompt.patient) IsUnready (refresh n o)
  unfolding refresh refresh_order is_validated
  refresh-Spends n o =
      Spends-first _ (λ order. IsUnready (record { order = order })) IsUnready
        (Spends-first _ (DecodesUnready C) (λ order. IsUnready (record { order = order }))
          (call-Spends rank prompt.patient n _ _ _ (DecodesUnready C)
            (λ text net (o, r, p, q). prompt.unready_costs _ text net o r p q))
          (λ k res. Keeps-bind (Keeps-lift _) λ o. Keeps-pure _)
          (λ res.
            Returns-bind_of (λ o. read_json C C.order_from_str res ≡ ok o)
              (Returns-lift _ (λ o e. e))
              λ o e. Returns-pure _ (λ q. let (p, r) = unready_parts _ _ q in (o, e, p, r))))
        (λ k order. Keeps-pure _) (λ order. Returns-pure _ (λ q. q))

  -- After an action that makes an order, the rank and the cost of the order are in the bound.
  Settles-cost :
      (n k : ℕ) {m : Act C P (NewOrder C)}
      → k ≤ n
      → Ends (rank_of rank prompt.patient) n m
      → Spends (rank_of rank prompt.patient) IsUnready m
      → Settles (λ w. rank w.net < k) (λ o w. cost o + rank w.net < k) m
  Settles-cost n k {m} le ends spends = record {
    at = λ w i. ends.settles w (omega arith);
    after = λ w o i e. elim (Bool-cases (is_validated o)) [
      | inl ready ↦ rw ready (below ((ends.level k).at w i))
      | inr unready ↦ rw unready (fell i (spends.cost w o e unready))
    ];
  }
    where
      below : {x : ℕ} → x < k → 0 + x < k
      below h = omega arith

      fell : {x y : ℕ} → x < k → y < x → 1 + y < k
      fell h i = omega arith

  break_or-Settles :
      (n : ℕ) {I : World C P → Type 0} {J : CsrOrder C → World C P → Type 0}
      (found : Option (CsrOrder C)) (rest : Act C P (CsrOrder C))
      → ((c : CsrOrder C) → Settles I J (pure c))
      → (found ≡ none → Settles I J rest)
      → Settles I J (break_or n found rest)
  break_or-Settles n (some c) rest h k = h c
  break_or-Settles n none rest h k = k refl

  -- With rounds for the rank and the order, the loop ends.
  prove_ownership-Settles :
      (total : IsTotal P) (n rounds : ℕ) (o : NewOrder C)
      → rounds ≤ n
      → Settles {P = P}
          (λ w. cost o + rank w.net < rounds)
          (λ c w. rank w.net < n)
          (prove_ownership n rounds o)
  unfolding prove_ownership
  prove_ownership-Settles total n zero o le = record {
    at = λ w i. absurd (omega arith);
    after = λ w a i. absurd (omega arith);
  }
  prove_ownership-Settles total n (suc rounds) o le =
      let step = λ (r : NewOrder C). prove_ownership-Settles total n rounds r (omega arith) in
      let body =
        break_or-Settles n {I = λ w. cost o + rank w.net < suc rounds} {J = λ c w. rank w.net < n}
          (confirm_validations o) _ (λ c. Settles-pure c (λ w i. omega arith))
          λ none_found.
            Settles-from (λ w i. paid (unconfirmed o none_found) i)
              (Settles-bind _
                (Settles-of_Ends _ n rounds (omega arith)
                  (authorizations-Ends rank prompt.patient total n o))
                λ auths.
                  Settles-bind _
                    (Settles-of_Ends _ n rounds (omega arith)
                      (Ends-lift _ n _ (first_auth-settles auths)))
                    λ auth.
                      Settles-bind _
                        (Settles-of_Ends _ n rounds (omega arith)
                          (Ends-lift _ n _ (http_challenge-settles auth)))
                        λ chall.
                          Settles-bind _
                            (Settles-of_Ends _ n rounds (omega arith)
                              (Ends-lift _ n _ (http_proof-settles chall)))
                            λ proof.
                              Settles-bind _
                                (Settles-of_Ends _ n rounds (omega arith)
                                  (validate-Ends rank prompt.patient n chall 5000))
                                λ u.
                                  Settles-bind _
                                    (Settles-cost n rounds (omega arith)
                                      (refresh-Ends rank prompt.patient total n o)
                                      (refresh-Spends n o))
                                    step) in
      record { at = body.at; after = body.after }
    where
      paid : {x : ℕ} → cost o ≡ 1 → cost o + x < suc rounds → x < rounds
      paid e i = omega arith

  create_ec_key-Ends :
      (n : ℕ) (made : Outcome C C.EcGroup)
      → made ≢ out_of_fuel
      → Ends {P = P} (rank_of rank prompt.patient) n (create_ec_key made)
  unfolding create_ec_key
  create_ec_key-Ends n made h = Ends-bind _ n (Ends-lift _ n made h) λ group.
      Ends-bind _ n (draw-Ends rank prompt.patient n (C.generate_ec group)) λ drawn.
        Ends-bind _ n (Ends-lift _ n _ (expect-settles "EcKey" drawn)) λ k.
          Ends-bind _ n (Ends-lift _ n _ (expect-settles _ _)) λ p.
            Ends-bind _ n (Ends-lift _ n _ (expect-settles _ _))
              λ pri. Ends-bind _ n (Ends-lift _ n _ (expect-settles _ _)) λ pub_key. Ends-pure _ n _

  pub request_cert-settles :
      (total : IsTotal P) (n : ℕ) (w : World C P)
      → rank w.net < n
      → (request_cert n w).0 ≢ out_of_fuel
  unfolding request_cert
  request_cert-settles total n w enough =
      (Settles-bind _ (all (from_url-Ends rank prompt.patient total n _)) λ dir.
          Settles-bind _ (all (account-Ends rank prompt.patient total n dir _)) λ acc.
            Settles-bind _
              (Settles-cost n n (omega arith) (new_order-Ends rank prompt.patient total n acc _ _)
                (new_order-Spends n acc _ _))
              λ ord_new.
                Settles-bind _ (prove_ownership-Settles total n n ord_new (omega arith)) λ ord_csr.
                  Settles-bind _ (all (create_ec_key-Ends n _ (ec_group-settles _))) λ pair.
                    Settles-bind _
                      (all (finalize_pkey-Ends rank prompt.patient total n ord_csr _ _ _))
                      λ ord_cert.
                        Settles-bind _
                          (all (download_and_save_cert-Ends rank prompt.patient total n ord_cert))
                          λ cert. Settles-pure {J = λ u w. Unit} tt (λ w i. tt)).at
        w enough
    where
      all :
          {A : Type 0} {m : Act C P A}
          → Ends (rank_of rank prompt.patient) n m
          → Settles (λ w. rank w.net < n) (λ a w. rank w.net < n) m
      all ends = Settles-of_Ends (rank_of rank prompt.patient) n n (omega arith) ends
