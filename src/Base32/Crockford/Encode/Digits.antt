-- ===== src/Base32/Crockford/Encode/Digits.antt =====
-- What the encoder writes: the base-32 digits of its input read as a big-endian number.
use mathlib.Core.List.{foldl, map-append}
use native.Mathlib.Nat.{add_comm, div-div-eq-div-mul}
use ferroid.Common.{
  ℕ, zero, suc, ◌+◌, ◌-◌, ◌*◌, ◌/◌, ◌%◌, ◌^◌, ◌≤◌, ◌<◌, ◌≡◌, refl, sym, ap, ◌∙◌, arith, List, [],
  ◌∷◌, ◌++◌, map, length, All, leb, Bool-cases, inl, inr, tests,
}
use mathlib.Core.Path.{subst, ap₂}
use ferroid.Common.{bit_and, bit_or, shl, shr, bit_and_low, bit_or_disjoint, pow-add}
use ferroid.Base32.Crockford.Tables.{encode_char}
use ferroid.Base32.Crockford.Digits.{digits, value}
use ferroid.Base32.Crockford.Encode.{Encoder, drain, push_byte, encode_base32}

-- `P` is the number read so far. The accumulator keeps its low 64 bits, of which the lowest 12 at
-- most are still needed.
low_window : (P c : ℕ) → c ≤ 7 → P % 2 ^ 64 / 2 ^ c % 32 ≡ P / 2 ^ c % 32
low_window P zero h = omega arith
low_window P (suc zero) h = omega arith
low_window P (suc (suc zero)) h = omega arith
low_window P (suc (suc (suc zero))) h = omega arith
low_window P (suc (suc (suc (suc zero)))) h = omega arith
low_window P (suc (suc (suc (suc (suc zero))))) h = omega arith
low_window P (suc (suc (suc (suc (suc (suc zero)))))) h = omega arith
low_window P (suc (suc (suc (suc (suc (suc (suc zero))))))) h = omega arith
low_window P (suc (suc (suc (suc (suc (suc (suc (suc c)))))))) h = absurd (omega arith)

abbrev encoded : ℕ → ℕ → List ℕ
encoded n x = map encode_char (digits n x)

-- One round of the inner loop appends the next digit.
emit :
    (P acc e c : ℕ)
    → acc ≡ P % 2 ^ 64
    → c ≤ 7
    → encoded e (P / 2 ^ (c + 5)) ++ encode_char (bit_and (shr acc c) 0x1F) ∷ []
      ≡ encoded (suc e) (P / 2 ^ c)
unfolding shr digits
emit P acc e c same h = rw (next_digit, further) (sym (map-append encode_char _ _))
  where
    next_digit : bit_and (acc / 2 ^ c) 0x1F ≡ P / 2 ^ c % 32
    next_digit = bit_and_low 5 (acc / 2 ^ c) ∙ rw same (low_window P c h)

    further : P / 2 ^ (c + 5) ≡ P / 2 ^ c / 32
    further = rw (pow-add c 5) (sym (div-div-eq-div-mul P (2 ^ c) 32))

shifted_in :
    (P acc b : ℕ) → acc ≡ P % 2 ^ 64 → b < 256 → bit_or (shl 64 acc 8) b ≡ (P * 256 + b) % 2 ^ 64
unfolding shl
shifted_in P acc b same h = rw low_part (bit_or_disjoint 8 (P % 2 ^ 56) b h ∙ omega arith)
  where
    low_part : acc * 2 ^ 8 % 2 ^ 64 ≡ P % 2 ^ 56 * 2 ^ 8
    low_part = omega arith

-- The state of the encoder after it has read the number `P` in `r` bits: the first `e` digits are
-- written, and `bits` of the bits read are still to be written.
record IsReading (P r : ℕ) (s : Encoder) : Type 0 where
  same : s.acc ≡ P % 2 ^ 64
  few : s.bits < 5
  emitted : ℕ
  all_bits : 5 * emitted + s.bits ≡ r
  digits_of : s.written ≡ encoded emitted (P / 2 ^ s.bits)

drain-IsReading :
    (fuel P r acc bits e : ℕ) (written : List ℕ)
    → 5 * e + bits ≡ r
    → bits ≤ fuel
    → bits ≤ 12
    → acc ≡ P % 2 ^ 64
    → written ≡ encoded e (P / 2 ^ bits)
    → IsReading P r (drain fuel acc bits written)
unfolding drain
drain-IsReading zero P r acc bits e written total enough small same so_far = record {
  same = same;
  few = omega arith;
  emitted = e;
  all_bits = total;
  digits_of = so_far;
}
drain-IsReading (suc fuel) P r acc bits e written total enough small same so_far =
    elim (Bool-cases (leb 5 bits)) [
      | inl more ↦ rw more (
          drain-IsReading fuel P r acc (bits - 5) (suc e) _ (omega tests) (omega arith)
            (omega arith) same
            (ap (λ (w : List ℕ). w ++ encode_char (bit_and (shr acc (bits - 5)) 0x1F) ∷ [])
                (subst (λ t. written ≡ encoded e (P / 2 ^ t)) (omega tests) so_far)
              ∙ emit P acc e (bits - 5) same (omega arith)))
      | inr done ↦ rw done (record {
        same = same;
        few = ground arith;
        emitted = e;
        all_bits = total;
        digits_of = so_far;
      })
    ]

push_byte-IsReading :
    (P r b : ℕ) (s : Encoder)
    → b < 256
    → IsReading P r s
    → IsReading (P * 256 + b) (r + 8) (push_byte s b)
unfolding push_byte
push_byte-IsReading P r b s h reading =
    drain-IsReading (s.bits + 8) (P * 256 + b) (r + 8) _ (s.bits + 8) reading.emitted s.written
      (omega (arith, reading.all_bits)) (omega arith) (omega (arith, reading.few))
      (shifted_in P s.acc b reading.same h)
      (reading.digits_of ∙ ap (encoded reading.emitted) (sym behind))
  where
    behind : (P * 256 + b) / 2 ^ (s.bits + 8) ≡ P / 2 ^ s.bits
    behind =
        rw
          (add_comm s.bits 8, pow-add 8 s.bits, ← div-div-eq-div-mul (P * 256 + b) 256 (2 ^ s.bits))
          (ap (λ (t : ℕ). t / 2 ^ s.bits) (omega arith))

All-bytes-IsReading :
    (bytes : List ℕ) (P r : ℕ) (s : Encoder)
    → All (λ b. b < 256) bytes
    → IsReading P r s
    → IsReading (value 256 P bytes) (r + length bytes * 8) (foldl push_byte s bytes)
unfolding value
All-bytes-IsReading [] P r s h reading = subst (λ t. IsReading P t s) (omega arith) reading
All-bytes-IsReading (b ∷ bytes) P r s (hb, h) reading =
    subst (λ t. IsReading (value 256 (P * 256 + b) bytes) t (foldl push_byte s (b ∷ bytes)))
      (omega arith)
      (All-bytes-IsReading bytes (P * 256 + b) (r + 8) _ h (push_byte-IsReading P r b s hb reading))

-- For a buffer of the fewest characters that hold the input, the encoder writes exactly the base-32
-- digits of the input, read as a big-endian number, one to each place of the buffer.
pub encode_base32_lem :
    (bytes : List ℕ) (n : ℕ)
    → All (λ b. b < 256) bytes
    → length bytes * 8 ≤ n * 5
    → n * 5 < length bytes * 8 + 5
    → encode_base32 bytes n ≡ map encode_char (digits n (value 256 0 bytes))
unfolding encode_base32 digits
encode_base32_lem bytes n h fits tight =
    end.digits_of
    ∙ ap₂ (λ (e k : ℕ). encoded e (value 256 0 bytes / 2 ^ k)) all_written no_bits
    ∙ ap (encoded n) (omega arith)
  where
    begin : Encoder
    begin = record { acc = 0; bits = n * 5 - length bytes * 8; written = [] }

    start : IsReading 0 (n * 5 - length bytes * 8) begin
    start = record {
      same = refl;
      few = omega arith;
      emitted = 0;
      all_bits = omega arith;
      digits_of = refl;
    }

    end :
        IsReading
          (value 256 0 bytes)
          (n * 5 - length bytes * 8 + length bytes * 8)
          (foldl push_byte begin bytes)
    end = All-bytes-IsReading bytes 0 _ begin h start

    no_bits : (foldl push_byte begin bytes).bits ≡ 0
    no_bits = omega (arith, end.few, end.all_bits)

    all_written : end.emitted ≡ n
    all_written = omega (arith, end.few, end.all_bits)
