-- ===== src/Base32/Interface/Ids.antt =====
-- The text of the IDs that the generators hand out.
use mathlib.Core.Path.{subst}
use ferroid.Common.{ℕ, ◌*◌, ◌^◌, ◌≤◌, ◌<◌, ◌≡◌, sym, ◌∙◌, Bool, true}
use ferroid.Id.SnowflakeLayout
use ferroid.Id.UlidLayout
use ferroid.Base32.Error.{ok}
use ferroid.Base32.Interface.{encode, decode}
use ferroid.Base32.Interface.RoundTrip.{decode-encode, bytes_pow}

valid_text :
    (bits size : ℕ) (valid : ℕ → Bool) (x : ℕ)
    → bits ≡ size * 8
    → 1 ≤ size
    → x < 2 ^ bits
    → valid x ≡ true
    → decode size valid (encode size x) ≡ ok x
valid_text bits size valid x e pos fits v =
    decode-encode size valid x pos
      (subst (λ n. x < n) (sym (bytes_pow size)) (subst (λ n. x < 2 ^ n) e fits))
    ∙ rw v

-- Whatever its components are, a Snowflake ID is read back from its text: never an overflow error.
pub decode-encode_snowflake :
    (l : SnowflakeLayout.SnowflakeLayout)
    → SnowflakeLayout.IsLayout l
    → (size t m s : ℕ) → l.bits ≡ size * 8
    → 1 ≤ size
    → decode size
        (SnowflakeLayout.is_valid l)
        (encode size (SnowflakeLayout.from_components l t m s))
      ≡ ok (SnowflakeLayout.from_components l t m s)
decode-encode_snowflake l good size t m s e pos =
    let c = (SnowflakeLayout.snowflake_id-IsLawful l good).canonical t m s in
    valid_text l.bits size (SnowflakeLayout.is_valid l) _ e pos c.fits c.valid

-- Whatever its components are, a ULID is read back from its text: never an overflow error.
pub decode-encode_ulid :
    (l : UlidLayout.UlidLayout)
    → UlidLayout.IsLayout l
    → (size t r : ℕ) → l.bits ≡ size * 8
    → 1 ≤ size
    → decode size (UlidLayout.is_valid l) (encode size (UlidLayout.from_components l t r))
      ≡ ok (UlidLayout.from_components l t r)
decode-encode_ulid l good size t r e pos =
    let c = (UlidLayout.ulid_id-IsLawful l good).canonical t r in
    valid_text l.bits size (UlidLayout.is_valid l) _ e pos c.fits c.valid
