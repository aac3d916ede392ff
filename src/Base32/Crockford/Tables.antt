-- ===== src/Base32/Crockford/Tables.antt =====
-- The two lookup tables, and the decoding of one character by cases.
use ferroid.Common.{
  ℕ, ◌-◌, ◌||◌, ◌⊎◌, ==_iff, ltb, ltb→lt, every_below_sound, zero, suc, ◌+◌, ◌<◌, ◌≡◌, refl, arith,
  List, [], ◌∷◌, Bool, ◌&&◌, leb, if◌then◌else◌, ◌==◌, get_or, set, replicate, every_below,
}

abbrev pub invalid_value : ℕ
invalid_value = 255

-- `*b"0123456789ABCDEFGHJKMNPQRSTVWXYZ"`
unfoldable pub encode_lut : List ℕ
encode_lut =
    b'0' ∷ b'1' ∷ b'2' ∷ b'3' ∷ b'4' ∷ b'5' ∷ b'6' ∷ b'7' ∷ b'8' ∷ b'9' ∷ b'A' ∷ b'B' ∷ b'C' ∷ b'D'
    ∷ b'E' ∷ b'F' ∷ b'G' ∷ b'H' ∷ b'J' ∷ b'K' ∷ b'M' ∷ b'N' ∷ b'P' ∷ b'Q' ∷ b'R' ∷ b'S' ∷ b'T'
    ∷ b'V' ∷ b'W' ∷ b'X' ∷ b'Y' ∷ b'Z' ∷ []

unfoldable pub encode_char : ℕ → ℕ
unfolding encode_lut
encode_char v = get_or encode_lut v 0

abbrev is_ascii_uppercase : ℕ → Bool
is_ascii_uppercase c = leb b'A' c && leb c b'Z'

-- The body of the `while` that fills the main alphabet.
fill_one : ℕ → List ℕ → List ℕ
unfolding encode_char
fill_one i lut =
    let c = encode_char i in
    let lut' = set lut c i in if is_ascii_uppercase c then set lut' (c + 32) i else lut'

-- The `while` with `rounds` left, at `i`.
fill_alphabet : ℕ → ℕ → List ℕ → List ℕ
unfolding fill_one
fill_alphabet zero i lut = lut
fill_alphabet (suc rounds) i lut = fill_alphabet rounds (i + 1) (fill_one i lut)

-- The constant `DECODE_LUT`, as its initialiser computes it.
unfoldable pub decode_lut : List ℕ
unfolding fill_alphabet
decode_lut =
    let lut = fill_alphabet 32 0 (replicate 256 invalid_value) in
    set (set (set (set (set (set lut b'O' 0) b'o' 0) b'I' 1) b'i' 1) b'L' 1) b'l' 1

unfoldable pub decode_char : ℕ → ℕ
unfolding decode_lut
decode_char b = get_or decode_lut b 0

-- The alphabet by its rule: digits, then letters in order with I, L, O and U left out; small letters
-- count as capital ones, O reads as 0, I and L as 1, and nothing else is valid.
abbrev pub capital : ℕ → ℕ
capital b = if leb b'a' b && leb b b'z' then b - 32 else b

abbrev pub crockford : ℕ → ℕ
crockford c =
    if leb b'0' c && leb c b'9'
    then c - b'0'
    else if leb b'A' c && leb c b'H'
    then c - b'A' + 10
    else if leb b'J' c && leb c b'K'
    then c - b'J' + 18
    else if leb b'M' c && leb c b'N'
    then c - b'M' + 20
    else if leb b'P' c && leb c b'T'
    then c - b'P' + 22
    else if leb b'V' c && leb c b'Z'
    then c - b'V' + 27
    else if c == b'O'
    then 0
    else if c == b'I' || c == b'L'
    then 1
    else invalid_value

-- The decoding table holds, for every byte, what the rule of the alphabet says.
pub decode_char-crockford : (b : ℕ) → b < 256 → decode_char b ≡ crockford (capital b)
unfolding decode_char every_below
decode_char-crockford b h =
    (==_iff _ _).0 (every_below_sound 256 (λ c. decode_char c == crockford (capital c)) b refl h)

pub decode_char-encode_char : (v : ℕ) → v < 32 → decode_char (encode_char v) ≡ v
unfolding decode_char encode_char every_below
decode_char-encode_char v h =
    (==_iff _ _).0 (every_below_sound 32 (λ d. decode_char (encode_char d) == d) v refl h)

pub encode_char-lt : (v : ℕ) → v < 32 → encode_char v < 128
unfolding encode_char every_below
encode_char-lt v h = ltb→lt _ _ (every_below_sound 32 (λ d. ltb (encode_char d) 128) v refl h)

pub decode_char_cases : (b : ℕ) → b < 256 → (decode_char b < 32) ⊎ (decode_char b ≡ invalid_value)
decode_char_cases b h = ground (arith, decode_char-crockford b h)
