-- ===== src/Tests/Servers.antt =====
-- The server.
use ferroid.Common.{ℕ, ◌<◌, ◌≤◌, ◌≡◌, refl, arith, [], ◌∷◌, All, replicate, false}
use ferroid.Server.Config.{CliArgs, ServerConfig, TryFromSpec, try_from, try_from-TryFromSpec}
use ferroid.Server.Feed.{
  Reply, forwarded, finished, looping, feed_chunks, sum, feed_chunks_complete, feed_chunks_endless,
}

abbrev args : CliArgs
args = record {
  max_allowed_ids = 1000000;
  shard_offset = 512;
  num_workers = 16;
  ids_per_chunk = 2048;
  stream_buffer_size = 8;
  server_addr = [];
  uds = false;
  shutdown_timeout = 3;
}

abbrev config : ServerConfig
config = record {
  max_allowed_ids = 1000000;
  shard_offset = 512;
  num_workers = 16;
  ids_per_chunk = 2048;
  stream_buffer_size = 8;
  chunk_bytes = 16384;
  server_addr = [];
  uds = false;
  shutdown_timeout = 3;
}

try_from-TryFromSpec_example : TryFromSpec args (try_from args)
try_from-TryFromSpec_example = try_from-TryFromSpec args

abbrev all_forwarded : ℕ → Reply
all_forwarded i = forwarded

splits_request : (feed_chunks 10 all_forwarded 25 0 25).sizes ≡ 10 ∷ 10 ∷ 5 ∷ []
unfolding feed_chunks
splits_request = refl

feed_chunks_complete_example :
    ((feed_chunks 10 all_forwarded 25 0 25).outcome ≡ finished)
    × (sum (feed_chunks 10 all_forwarded 25 0 25).sizes ≡ 25)
    × All (λ c. (0 < c) × (c ≤ 10)) (feed_chunks 10 all_forwarded 25 0 25).sizes
feed_chunks_complete_example = feed_chunks_complete 10 25 all_forwarded (omega arith) (λ i. refl)

feed_chunks_endless_example :
    feed_chunks 0 all_forwarded 1000 0 25 ≡ record { sizes = replicate 1000 0; outcome = looping }
feed_chunks_endless_example = feed_chunks_endless 1000 0 25 all_forwarded (omega arith) (λ i. refl)
