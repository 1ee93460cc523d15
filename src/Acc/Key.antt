-- ===== src/Acc/Key.antt =====
-- `AcmeKey` (src/acc/akey.rs).
use acme_lib.Prelude.{String, ◌<>◌, Option, none, some, Bytes}
use acme_lib.Crates.{Crates}
use acme_lib.Outcome.{Outcome, or_other, expect, map_ok}
use acme_lib.Persist.{Persist}
use acme_lib.Cert.Curve.{ec_group_p256}
use acme_lib.World.{Act, lift, pure, draw, ◌>>=◌}

pub record AcmeKey (C : Crates) : Type 0 where
  pub private_key : C.EcKey
  pub key_id : Option String

module _ {C : Crates} where
  abbrev pub from_key : C.EcKey → AcmeKey C
  from_key private_key = record { private_key = private_key; key_id = none }

  -- `AcmeKey::from_pem`
  unfoldable pub key_from_pem : Bytes → Outcome C (AcmeKey C)
  key_from_pem pem =
      map_ok from_key
        (or_other (λ e. "Failed to read PEM: " <> C.ssl_error_display e) (C.ec_key_from_pem pem))

  -- `AcmeKey::to_pem`
  unfoldable pub key_to_pem : AcmeKey C → Outcome C Bytes
  key_to_pem k = expect "private_key_to_pem" (C.ec_key_to_pem k.private_key)

  -- The method `key_id`, which unwraps.
  unfoldable pub key_id_of : AcmeKey C → Outcome C String
  key_id_of k = expect "key_id" k.key_id

  abbrev pub set_key_id : AcmeKey C → String → AcmeKey C
  set_key_id k kid = record k { key_id = some kid }

  -- `AcmeKey::new`
  unfoldable pub generate_key : {P : Persist C} → Act C P (AcmeKey C)
  unfolding draw
  generate_key = do
    group ← lift (ec_group_p256 C)
    drawn ← draw (C.generate_ec group)
    pri_key ← lift (expect "EcKey" drawn)
    pure (from_key pri_key)
