-- ===== src/Api.antt =====
-- The JSON objects of the ACME API, with their accessors (src/api.rs).
mod Problem
mod Account
mod Order
mod Auth
mod Serialize
pub mod Reading
unfoldable pub use Problem.*
unfoldable pub use Account.*
unfoldable pub use Order.*
unfoldable pub use Auth.*
unfoldable pub use Serialize.*
