-- ===== src/Base32/Crockford/Decode/Errors.antt =====
-- When the decoder reports an error, and which.
use ferroid.Common.{
  Option, none, some, Bool-cases, if◌then◌else◌, ℕ, suc, ◌<◌, ◌≡◌, ◌⊎◌, inl, inr, refl, ap, ◌∙◌,
  arith, List, [], ◌∷◌, All, Bool, false, ◌||◌, ◌==◌, ==_iff, every_below, every_below_sound,
  bit_or, bit_or-lt,
}
use mathlib.Core.Bool.{or_assoc}
use ferroid.Base32.Error.{decode_invalid_ascii, Decoded, ok, err}
use ferroid.Base32.Crockford.Tables.{decode_char, decode_char_cases, invalid_value}
use ferroid.Base32.Crockford.Decode.{
  decode_remainder, decode_chunks, shift_in, handle_error, decode_base32,
}

abbrev IsEntry : ℕ → Type 0
IsEntry v = (v < 32) ⊎ (v ≡ invalid_value)

or_invalid : (v : ℕ) → v < 256 → (bit_or v 255 ≡ 255) × (bit_or 255 v ≡ 255)
unfolding every_below
or_invalid v h = (
  (==_iff _ _).0 (every_below_sound 256 (λ x. bit_or x 255 == 255) v refl h),
  (==_iff _ _).0 (every_below_sound 256 (λ x. bit_or 255 x == 255) v refl h),
)

entry-lt : (a : ℕ) → IsEntry a → a < 256
entry-lt a (inl h) = omega arith
entry-lt a (inr h) = omega arith

-- On entries of the table `|` is 255 exactly when an operand is, and gives an entry again.
or_entries :
    (a b : ℕ)
    → IsEntry a
    → IsEntry b
    → IsEntry (bit_or a b)
      × ((bit_or a b == invalid_value) ≡ (a == invalid_value || b == invalid_value))
or_entries a b (inl ha) (inl hb) = let h = bit_or-lt 5 a b ha hb in (inl h, ground arith)
or_entries a b (inl ha) (inr hb) =
    let e = (or_invalid a (omega arith)).0 in rw (hb, e) (inr refl, ground arith)
or_entries a b (inr ha) hb = rw (ha, (or_invalid b (entry-lt b hb)).1) (inr refl, ground arith)

-- Whether some byte is no character of the alphabet.
abbrev pub any_invalid : List ℕ → Bool
any_invalid [] = false
any_invalid (b ∷ bs) = decode_char b == invalid_value || any_invalid bs

abbrev pub AreBytes : List ℕ → Type 0
AreBytes = All (λ b. b < 256)

remainder_flag :
    (w acc : ℕ) (has_error : Bool) (bytes : List ℕ)
    → (decode_remainder w acc has_error bytes).1 ≡ (has_error || any_invalid bytes)
unfolding decode_remainder
remainder_flag w acc has_error [] = ground arith
remainder_flag w acc has_error (b ∷ bs) =
    remainder_flag w (shift_in w acc (decode_char b)) (has_error || decode_char b == invalid_value)
      bs
    ∙ or_assoc has_error (decode_char b == invalid_value) (any_invalid bs)

chunk_flag :
    (a b c d : ℕ)
    → IsEntry a
    → IsEntry b
    → IsEntry c
    → IsEntry d
    → (bit_or (bit_or (bit_or a b) c) d == invalid_value)
      ≡ (a == invalid_value || b == invalid_value || c == invalid_value || d == invalid_value)
chunk_flag a b c d ha hb hc hd =
    let (e2, f2) = or_entries a b ha hb in
    let (e3, f3) = or_entries (bit_or a b) c e2 hc in
    let (e4, f4) = or_entries (bit_or (bit_or a b) c) d e3 hd in rw (f4, f3, f2) refl

regroup :
    (e a b c d r : Bool) → (e || (a || b || c || d) || r) ≡ (e || (a || (b || (c || (d || r)))))
regroup e a b c d r = simp or_assoc refl

-- The decoder's flag, computed by chunks of four bytes, is set exactly when some byte is invalid.
pub decode_chunks-any_invalid :
    (w acc : ℕ) (has_error : Bool) (bytes : List ℕ)
    → AreBytes bytes
    → (decode_chunks w acc has_error bytes).1 ≡ (has_error || any_invalid bytes)
unfolding decode_chunks
decode_chunks-any_invalid w acc has_error [] h = remainder_flag w acc has_error []
decode_chunks-any_invalid w acc has_error (a ∷ []) h = remainder_flag w acc has_error (a ∷ [])
decode_chunks-any_invalid w acc has_error (a ∷ b ∷ []) h =
    remainder_flag w acc has_error (a ∷ b ∷ [])
decode_chunks-any_invalid w acc has_error (a ∷ b ∷ c ∷ []) h =
    remainder_flag w acc has_error (a ∷ b ∷ c ∷ [])
decode_chunks-any_invalid w acc has_error (a ∷ b ∷ c ∷ d ∷ rest) (ha, (hb, (hc, (hd, h)))) =
    decode_chunks-any_invalid w
      (shift_in w
        (shift_in w (shift_in w (shift_in w acc (decode_char a)) (decode_char b)) (decode_char c))
        (decode_char d))
      (has_error
        || bit_or (bit_or (bit_or (decode_char a) (decode_char b)) (decode_char c)) (decode_char d)
          == invalid_value)
      rest h
    ∙ ap (λ (t : Bool). has_error || t || any_invalid rest)
        (chunk_flag (decode_char a) (decode_char b) (decode_char c) (decode_char d)
          (decode_char_cases a ha) (decode_char_cases b hb) (decode_char_cases c hc)
          (decode_char_cases d hd))
    ∙ regroup has_error (decode_char a == invalid_value) (decode_char b == invalid_value)
        (decode_char c == invalid_value) (decode_char d == invalid_value) (any_invalid rest)

-- The first invalid byte, with its index from `i` on.
abbrev pub first_invalid : ℕ → List ℕ → Option (ℕ × ℕ)
first_invalid i [] = none
first_invalid i (b ∷ bs) =
    if decode_char b == invalid_value then some (b, i) else first_invalid (suc i) bs

abbrev pub with_first : Option (ℕ × ℕ) → ℕ → Decoded
with_first none x = ok x
with_first (some (b, i)) x = err (decode_invalid_ascii b i)

handle_error_lem :
    (w i x : ℕ) (bytes : List ℕ)
    → (if any_invalid bytes then handle_error i bytes else ok x)
      ≡ with_first (first_invalid i bytes) x
unfolding handle_error
handle_error_lem w i x [] = refl
handle_error_lem w i x (b ∷ bs) = elim (Bool-cases (decode_char b == invalid_value)) [
  | inl e ↦ rw e refl
  | inr e ↦ rw e (handle_error_lem w (suc i) x bs)
]

-- On every input of bytes the decoder either reports the first invalid byte with its index, or, when
-- all are valid, returns the accumulated integer. The `unreachable!` is not reached.
pub decode_base32_lem :
    (w : ℕ) (bytes : List ℕ)
    → AreBytes bytes
    → decode_base32 w bytes ≡ with_first (first_invalid 0 bytes) (decode_chunks w 0 false bytes).0
unfolding decode_base32
decode_base32_lem w bytes h =
    rw (decode_chunks-any_invalid w 0 false bytes h) (handle_error_lem w 0 _ bytes)
