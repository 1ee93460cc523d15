-- ===== src/Acc/Inner.antt =====
-- `AccountInner` (src/acc/mod.rs), which accounts, orders and challenges share. The persistence that
-- it holds is the store of the world.
use acme_lib.Prelude.{String}
use acme_lib.Api.{ApiAccount, ApiDirectory}
use acme_lib.Crates.{Crates}
use acme_lib.Trans.{Transport}

pub record AccountInner (C : Crates) : Type 0 where
  pub transport : Transport C
  pub contact_email : String
  pub api_account : ApiAccount
  pub api_directory : ApiDirectory
