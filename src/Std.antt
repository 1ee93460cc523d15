-- ===== src/Std.antt =====
-- What the sources use of Rust's standard library on text: UTF-8, decimal numbers, `replace`, `join`.
mod Utf8
mod Text
mod Path
pub mod Chars
pub mod Decimal
pub mod Extension
pub mod Marks
pub mod RoundTrip
unfoldable pub use Utf8.*
unfoldable pub use Text.*
unfoldable pub use Path.*
