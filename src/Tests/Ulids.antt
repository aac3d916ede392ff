-- ===== src/Tests/Ulids.antt =====
-- The ULID generators, on the layout of `ULID`.
use ferroid.Common.{ℕ, ◌^◌, ◌≤◌, ◌<◌, ◌≡◌, arith, List, [], ◌∷◌, All, IsAscending}
use ferroid.Id.Ulid.{UlidId, IsLawful, IsCanonical}
use ferroid.Id.UlidLayout.{
  ulid, ulid-IsLayout, ulid_id, ulid_id-IsLawful, from_components, ulid-timestamp_mask,
}
use ferroid.Generator.Ulid.BasicMono
use ferroid.Generator.Ulid.BasicMono.Run

abbrev pub ids : UlidId
ids = ulid_id ulid

pub law : IsLawful ids
law = ulid_id-IsLawful ulid ulid-IsLayout

abbrev pub begin : ℕ
begin = from_components ulid 0 0

pub begin-IsCanonical : IsCanonical ids begin
begin-IsCanonical = law.canonical 0 0

pub begin_timestamp : ids.timestamp begin ≡ 0
begin_timestamp = law.timestamp_of 0 0 (omega arith)

pub early_enough : (now : ℕ) → now < 1000 → now ≤ ids.max_timestamp
early_enough now h = omega (arith, ulid-timestamp_mask ulid ulid-IsLayout)

abbrev pub reading : ℕ → ℕ → BasicMono.Reading
reading now rand = record { now = now; rand = rand }

-- The clock jumps back after the third reading.
abbrev readings : List BasicMono.Reading
readings = reading 3 42 ∷ reading 3 7 ∷ reading 5 (2 ^ 90) ∷ reading 4 1 ∷ []

readings_fit : All (λ (r : BasicMono.Reading). r.now ≤ ids.max_timestamp) readings
readings_fit = (
  early_enough 3 (omega arith),
  (
    early_enough 3 (omega arith),
    (early_enough 5 (omega arith), (early_enough 4 (omega arith), tt)),
  ),
)

mono_issued-IsAscending_example :
    IsAscending (BasicMono.issued ids readings begin)
    × All (λ id. begin < id) (BasicMono.issued ids readings begin)
    × All (IsCanonical ids) (BasicMono.issued ids readings begin)
mono_issued-IsAscending_example =
    Run.mono_issued-IsAscending ids law readings begin begin-IsCanonical readings_fit
