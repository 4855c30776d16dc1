-- ===== src/Base/Text.antt =====
-- Go strings as lists of bytes, and the functions of package strings that the program calls.
-- Case mapping and white space are those of ASCII text.
mod Laws
mod Ops
mod Order
mod Split
unfoldable pub use Ops.{
  Text, codes, same, lower_byte, upper_byte, to_lower, to_upper, has_prefix, has_suffix,
  trim_prefix, trim_suffix, contains_byte, is_space, trim_left, trim_space, split, join, mem_text,
}
unfoldable pub use Order.{text_lt, insert_text, sort_texts, Ascending, Distinct}
pub use Order.{mem-sort, sort-Ascending, same_comm, not_among}
pub use Laws.*
pub use Split.{Lacks, split_at, split-append, split-whole}
