-- ===== src/Base32/Crockford.antt =====
-- crates/ferroid/src/base32/crockford.rs. A byte slice is a list of numbers below 256; `usize` has
-- 64 bits, so the accumulator of the encoder wraps at 2 ^ 64. The two tables are arrays of the source;
-- a read by `get_unchecked` outside a table has no meaning there, here it gives 0, and no index
-- that the code forms lies outside.
pub mod Tables
pub mod Digits
pub mod Encode
pub mod Decode
