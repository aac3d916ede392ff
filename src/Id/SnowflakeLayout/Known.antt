-- ===== src/Id/SnowflakeLayout/Known.antt =====
-- The four layouts that crates/ferroid/src/id/snowflake.rs defines by the macro.
use ferroid.Common.{arith}
use ferroid.Id.SnowflakeLayout.Defs.{SnowflakeLayout, IsLayout}

-- `SnowflakeTwitterId`
abbrev pub twitter : SnowflakeLayout
twitter = record {
  bits = 64;
  reserved_bits = 1;
  timestamp_bits = 41;
  machine_id_bits = 10;
  sequence_bits = 12;
}

-- `SnowflakeDiscordId`
abbrev pub discord : SnowflakeLayout
discord = record {
  bits = 64;
  reserved_bits = 0;
  timestamp_bits = 42;
  machine_id_bits = 10;
  sequence_bits = 12;
}

-- `SnowflakeMastodonId`
abbrev pub mastodon : SnowflakeLayout
mastodon = record {
  bits = 64;
  reserved_bits = 0;
  timestamp_bits = 48;
  machine_id_bits = 0;
  sequence_bits = 16;
}

-- `SnowflakeInstagramId`
abbrev pub instagram : SnowflakeLayout
instagram = record {
  bits = 64;
  reserved_bits = 0;
  timestamp_bits = 41;
  machine_id_bits = 13;
  sequence_bits = 10;
}

pub twitter-IsLayout : IsLayout twitter
twitter-IsLayout = omega arith

pub discord-IsLayout : IsLayout discord
discord-IsLayout = omega arith

pub mastodon-IsLayout : IsLayout mastodon
mastodon-IsLayout = omega arith

pub instagram-IsLayout : IsLayout instagram
instagram-IsLayout = omega arith
