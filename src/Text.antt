-- ===== src/Text.antt =====
-- JavaScript strings: the type and its methods, and the laws of equality and trimming.
mod Defs
mod Laws
unfoldable pub use Defs.*
pub use Laws.*
