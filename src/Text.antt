-- ===== src/Text.antt =====
-- `str` and `String` of the Rust standard library, as far as the program uses them. A text is the
-- list of its characters (Unicode scalar values); its length in bytes is that of its UTF-8 form.
mod Search
mod Equal
mod Trim
mod Utf8
mod Decimal
unfoldable pub use Search.*
unfoldable pub use Equal.*
unfoldable pub use Trim.*
unfoldable pub use Utf8.*
unfoldable pub use Decimal.*
