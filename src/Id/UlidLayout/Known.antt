-- ===== src/Id/UlidLayout/Known.antt =====
-- The layout that `define_ulid!` is applied to.
use ferroid.Common.{arith}
use ferroid.Id.UlidLayout.Defs.{UlidLayout, IsLayout}

abbrev pub ulid : UlidLayout
ulid = record { bits = 128; reserved_bits = 0; timestamp_bits = 48; random_bits = 80 }

pub ulid-IsLayout : IsLayout ulid
ulid-IsLayout = record {
  total = omega arith;
  timestamp_narrow = omega arith;
  random_narrow = omega arith;
}
