-- ===== src/Text.antt =====
-- Go's text: a valid UTF-8 string as the list of its code points, with the functions of `strings`,
-- `strconv` and `bufio` that the program calls.
mod Words
mod Number
mod Scanner
pub mod Spaces
pub mod Digits
pub mod Lines
pub mod Plain
pub mod Blanks
pub mod Joined
pub use Words.*
pub use Number.*
unfoldable pub use Words.{
  is_space, trim_space, trim_left, trim_right, fields, has_prefix, text_eq, contains, split_on,
  join,
}
unfoldable pub use Number.{parse_int, itoa}
pub use Scanner.*
unfoldable pub use Scanner.{split_lines, scan_lines, scan_within, unlines, drop_cr, byte_len}
