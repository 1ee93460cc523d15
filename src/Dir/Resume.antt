-- ===== src/Dir/Resume.antt =====
-- On `Directory::account` of src/dir.rs and the key that it saves.
use mathlib.Core.Option.{some-injective}
use acme_lib.Prelude.{
  ℕ, ◌≡◌, sym, ap, ◌∙◌, String, Bool, true, false, Option, none, some, Bytes, ◌⊎◌, inl, inr,
}
use acme_lib.Crates.{Crates}
use acme_lib.Outcome.{Outcome, ok, or_other, map_ok, expect-eq-ok, ok-injective}
use acme_lib.Persist.{Persist, PersistKey}
use acme_lib.Persist.Lawful.{IsLawful, get_same}
use acme_lib.World.{World, get, put}
use acme_lib.World.Values.{bind-then-ok, lift-then-ok, pure-ok, pure-world}
use acme_lib.Acc.Key.{AcmeKey, from_key, key_from_pem, key_to_pem}
use acme_lib.Trans.{Transport, new_transport, set_key_id}
use acme_lib.Acc.{Account}
use acme_lib.Dir.{Directory, account_key, key_or_new, save_if_new, account}

-- The saved key is read again: a law of openssl's PEM.
abbrev pub PemRoundTrip : Crates → Type 0
PemRoundTrip C =
    (k : C.EcKey) (pem : Bytes) → C.ec_key_to_pem k ≡ some pem → C.ec_key_from_pem pem ≡ inr k

read_key :
    {C : Crates} (f : C.SslError → String) (s : C.SslError ⊎ C.EcKey) {k : C.EcKey}
    {key : AcmeKey C}
    → s ≡ inr k
    → ◌≡◌ {A = Outcome C (AcmeKey C)} (map_ok {C = C} from_key (or_other {C = C} f s)) (ok key)
    → key.private_key ≡ k
read_key f (inl x) a b = cc
read_key f (inr x) a b = ap (λ y. y.private_key) (sym (ok-injective b)) ∙ inr-injective a
  where
    inr-injective : {X Y : Type 0} {x y : Y} → ◌≡◌ {A = X ⊎ Y} (inr x) (inr y) → x ≡ y
    inr-injective e = cc

module _ {C : Crates} {P : Persist C} {IsKeyText : String → Type 0}
    (lawful : IsLawful P IsKeyText) where
  key_or_new-none :
      (o : Option Bytes) (w : World C P) (r : AcmeKey C × Bool)
      → o ≡ none
      → (key_or_new {P = P} o w).0 ≡ ok r
      → r.1 ≡ true
  key_or_new-none none w r e h =
      let (key, e1, p, h1) = bind-then-ok _ _ w h in ap (λ x. x.1) (sym (pure-ok _ _ h1))
  key_or_new-none (some pem) w r e h = cc

  key_or_new-some :
      (o : Option Bytes) (pem : Bytes) (k : C.EcKey) (w : World C P) (r : AcmeKey C × Bool)
      → o ≡ some pem
      → C.ec_key_from_pem pem ≡ inr k
      → (key_or_new {P = P} o w).0 ≡ ok r
      → r.0.private_key ≡ k
  unfolding key_from_pem
  key_or_new-some none pem k w r e f h = cc
  key_or_new-some (some found) pem k w r e f h =
      let (key, e1, p, h1) = lift-then-ok _ _ w h in
      let same : found ≡ pem = some-injective _ _ e in
      ap (λ x. x.0.private_key) (sym (pure-ok _ _ h1))
      ∙ read_key {C = C} _ (C.ec_key_from_pem found) (ap C.ec_key_from_pem same ∙ f) e1

  save_if_new-saves :
      (k : PersistKey) (t : Transport C) (is_new : Bool) (w : World C P) (u : Unit)
      → IsKeyText k.key
      → is_new ≡ true
      → (save_if_new {P = P} k t is_new w).0 ≡ ok u
      → (pem : Bytes) × (C.ec_key_to_pem t.acme_key.private_key ≡ some pem)
        × ((P.get k (save_if_new k t is_new w).1.store).0 ≡ ok (some pem))
  unfolding put key_to_pem
  save_if_new-saves k t true w u proper e h =
      let (pem, e1, p1, h1) = lift-then-ok _ _ w h in
      (
        pem,
        expect-eq-ok "private_key_to_pem" (C.ec_key_to_pem t.acme_key.private_key) e1,
        ap (λ r. (P.get k r.1.store).0) p1 ∙ get_same P lawful k pem w.store proper h1,
      )
  save_if_new-saves k t false w u proper e h = cc

  -- What a call that finds no key leaves behind.
  new_account_saves :
      (fuel : ℕ) (d : Directory) (email : String) (w : World C P) (a : Account C)
      → IsKeyText (account_key C email).key
      → (P.get (account_key C email) w.store).0 ≡ ok none
      → (account fuel d email w).0 ≡ ok a
      → (pem : Bytes) × (C.ec_key_to_pem a.inner.transport.acme_key.private_key ≡ some pem)
        × ((P.get (account_key C email) (account fuel d email w).1.store).0 ≡ ok (some pem))
  unfolding account get
  new_account_saves fuel d email w a proper empty h =
      let (found, e1, p1, h1) = bind-then-ok _ _ w h in
      let (key, e2, p2, h2) = bind-then-ok _ _ _ h1 in
      let (res, e3, p3, h3) = bind-then-ok _ _ _ h2 in
      let (kid, e4, p4, h4) = lift-then-ok _ _ _ h3 in
      let (api, e5, p5, h5) = lift-then-ok _ _ _ h4 in
      let (u, e6, p6, h6) = bind-then-ok _ _ _ h5 in
      let is_none : found ≡ none = ok-injective (sym e1 ∙ empty) in
      let is_new = key_or_new-none found _ key is_none e2 in
      let (pem, to_pem, saved) =
        save_if_new-saves _ (set_key_id (new_transport d.nonce_pool key.0) kid) key.1 _ u proper
          is_new e6 in
      let same = pure-ok _ _ h6 in
      (
        pem,
        ap (λ (x : Account C). C.ec_key_to_pem x.inner.transport.acme_key.private_key) (sym same)
            ∙ to_pem,
        ap (λ r. (P.get (account_key C email) r.1.store).0) (p1 ∙ p2 ∙ p3 ∙ p4 ∙ p5 ∙ p6)
            ∙ ap (λ x. (P.get (account_key C email) x.store).0) (pure-world _ _)
            ∙ saved,
      )

  -- A call that finds a key uses it.
  read_account :
      (fuel : ℕ) (d : Directory) (email : String) (w : World C P) (a : Account C) (pem : Bytes)
      (k : C.EcKey)
      → C.ec_key_from_pem pem ≡ inr k
      → (P.get (account_key C email) w.store).0 ≡ ok (some pem)
      → (account fuel d email w).0 ≡ ok a
      → a.inner.transport.acme_key.private_key ≡ k
  unfolding account get
  read_account fuel d email w a pem k reads saved h =
      let (found, e1, p1, h1) = bind-then-ok _ _ w h in
      let (key, e2, p2, h2) = bind-then-ok _ _ _ h1 in
      let (res, e3, p3, h3) = bind-then-ok _ _ _ h2 in
      let (kid, e4, p4, h4) = lift-then-ok _ _ _ h3 in
      let (api, e5, p5, h5) = lift-then-ok _ _ _ h4 in
      let (u, e6, p6, h6) = bind-then-ok _ _ _ h5 in
      ap (λ (x : Account C). x.inner.transport.acme_key.private_key) (sym (pure-ok _ _ h6))
      ∙ key_or_new-some found pem k _ key (ok-injective (sym e1 ∙ saved)) reads e2

  -- If the persistence tells the account's key text apart and has no key for the contact, the PEM of a key is read as that key, and a first call
  -- of `account` ends well, then every later call for the contact that ends well, on the store that the
  -- first one left, with any directory, servers and fuel, gives an account with the same private key.
  pub account-resumes :
      (f g : ℕ) (d d' : Directory) (email : String) (w v : World C P) (a b : Account C)
      → PemRoundTrip C
      → IsKeyText (account_key C email).key
      → (P.get (account_key C email) w.store).0 ≡ ok none
      → (account f d email w).0 ≡ ok a
      → v.store ≡ (account f d email w).1.store
      → (account g d' email v).0 ≡ ok b
      → b.inner.transport.acme_key.private_key ≡ a.inner.transport.acme_key.private_key
  account-resumes f g d d' email w v a b round_trip proper empty first kept second =
      let (pem, to_pem, saved) = new_account_saves f d email w a proper empty first in
      read_account g d' email v b pem a.inner.transport.acme_key.private_key
        (round_trip a.inner.transport.acme_key.private_key pem to_pem)
        (ap (λ s. (P.get (account_key C email) s).0) kept ∙ saved) second
