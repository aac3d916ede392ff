-- ===== src/Base32/Crockford/Encode.antt =====
-- The encoder, `encode_base32`. Characters are written at the places 0, 1, 2, … of the buffer, one for
-- each step of `out`, so the model keeps the list of those written; `out` is its length.
pub mod Digits
use mathlib.Core.List.{foldl}
use ferroid.Common.{ℕ, zero, suc, ◌+◌, ◌-◌, ◌*◌, List, [], ◌∷◌, ◌++◌, length, leb, if◌then◌else◌}
use ferroid.Common.{bit_and, bit_or, shl, shr}
use ferroid.Base32.Crockford.Tables.{encode_char}

abbrev pub bits_per_char : ℕ
bits_per_char = 5

pub record Encoder : Type 0 where
  pub acc : ℕ
  pub bits : ℕ
  pub written : List ℕ

-- The inner `while`; each round takes five bits, so `bits` rounds are enough.
unfoldable pub drain : ℕ → ℕ → ℕ → List ℕ → Encoder
drain zero acc bits written = record { acc = acc; bits = bits; written = written }
drain (suc fuel) acc bits written =
    let bits' = bits - bits_per_char in
    let rest = drain fuel acc bits' (written ++ encode_char (bit_and (shr acc bits') 0x1F) ∷ []) in
    if leb bits_per_char bits then rest else (record { acc = acc; bits = bits; written = written })

-- One round of the outer `for`; `usize` has 64 bits.
unfoldable pub push_byte : Encoder → ℕ → Encoder
push_byte e b = let bits = e.bits + 8 in drain bits (bit_or (shl 64 e.acc 8) b) bits e.written

-- The characters written for `input` to a buffer of `output_chars` places.
unfoldable pub encode_base32 : List ℕ → ℕ → List ℕ
unfolding push_byte drain
encode_base32 input output_chars =
    (foldl push_byte
      (record { acc = 0; bits = output_chars * bits_per_char - length input * 8; written = [] })
      input).written
