-- ===== src/Strings.antt =====
-- Go's `strings` and `bytes` packages, as far as the program calls them, over byte lists: a Go
-- string is its bytes. Case mapping and white space are those of ASCII; a byte above 127 is left as
-- it is.
mod Equality
mod Search
mod Splits
unfoldable pub use Equality.*
unfoldable pub use Splits.*
unfoldable pub use Search.*
