-- ===== src/Base/Strings.antt =====
-- Python's `str` as the list of its code points (lone surrogates included, which the source's
-- "surrogateescape" decoding can produce), and the methods of `str` that the source calls.
mod Defs
mod Laws
mod Strip
mod Decimal
unfoldable pub use Defs.*
unfoldable pub use Strip.*
unfoldable pub use Decimal.*
pub use Laws.*
