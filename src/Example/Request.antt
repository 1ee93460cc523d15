-- ===== src/Example/Request.antt =====
-- On the whole run of `request_cert` in the documentation of src/lib.rs.
use acme_lib.Api.{domains}
use acme_lib.Cert.Pairs.{p384, IsPair}
use acme_lib.Client.Downloaded.{Downloaded}
use acme_lib.Order.{
  CertOrder, first_domain, Order, NewOrder, CsrOrder, confirm_validations, is_validated,
}
use mathlib.Core.Option.{some-injective}
use acme_lib.Prelude.{◌≡◌, ap, sym, String, Bool, true, false, Option, none, some, if◌then◌else◌}
use acme_lib.Crates.{Crates}
use acme_lib.Outcome.{ok}
use acme_lib.Persist.{Persist}
use acme_lib.World.{World}
use acme_lib.Acc.{Account, certificate}
use acme_lib.Cert.{Certificate}

pub confirm_validations-order :
    {C : Crates} (o : NewOrder C) (c : CsrOrder C)
    → confirm_validations o ≡ some c
    → c.order ≡ o.order
unfolding confirm_validations
confirm_validations-order {C} o c = of_test (is_validated o)
  where
    of_test :
        (b : Bool)
        → (if b then some (record { order = o.order }) else none) ≡ some c
        → c.order ≡ o.order
    of_test true e = ap (λ (x : CsrOrder C). x.order) (sym (some-injective _ c e))
    of_test false e = cc

-- For a valid order, the private key of a pair generated on P-384 and the text that was downloaded last, from
-- the order's URL for its certificate, are saved: the account loads both under the first name of the order.
abbrev pub IsSavedFor : {C : Crates} {P : Persist C} → Account C → World C P → Type 0
IsSavedFor {C} a w =
    (o : CertOrder C) × (pub_key : C.PublicKey) × (name : String) × (saved : Certificate) × IsPair C
      p384 (o.private_key, pub_key)
    × (o.order.api_order.status ≡ some "valid")
    × Downloaded o saved w.trace
    × (first_domain {C = C} (domains o.order.api_order) ≡ ok name)
    × ((certificate a name w).0 ≡ ok (some saved))
