-- ===== src/Persist.antt =====
-- Persistence (src/persist.rs): keys, and the trait that the library is generic over.
mod Key
pub mod Naming
pub mod Lawful
pub mod Memory
pub mod File
pub mod Files
unfoldable pub use Key.*
use acme_lib.Prelude.{Bytes, Option}
use acme_lib.Crates.{Crates}
use acme_lib.Outcome.{Outcome}

-- `trait Persist`. The methods take `&self`: what they change lies behind it, in a store that all
-- clones share.
pub record Persist (C : Crates) : Type 1 where
  pub Store : Type 0
  pub put : PersistKey → Bytes → Store → Outcome C Unit × Store
  pub get : PersistKey → Store → Outcome C (Option Bytes) × Store
