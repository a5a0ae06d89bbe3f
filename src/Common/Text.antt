-- ===== src/Common/Text.antt =====
-- Text as Go has it: a string is the list of its bytes.
-- Case mapping is as a comparison with a text of ASCII needs it.
mod Search
mod Space
mod Laws
unfoldable pub use Search.*
unfoldable pub use Space.*
pub use Laws.*
