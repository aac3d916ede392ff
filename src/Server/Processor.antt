-- ===== src/Server/Processor.antt =====
-- `handle_stream_request` of
-- crates/ferroid-tonic-server/src/server/streaming/processor.rs: a worker polls its generator and
-- packs the IDs into its buffer, which it sends when it is full and at the end.
-- Of `chunk_buf` the model keeps the first `buff_pos` bytes: those behind are left from earlier
-- requests and never sent, since the whole buffer is sent only at `buff_pos == chunk_bytes`.
pub mod Packs
pub mod Closed
pub mod Keeps
pub mod Between
pub mod Sends
pub mod Leftover
use ferroid.Common.{
  ℕ, zero, suc, ◌+◌, ◌/◌, ◌%◌, Bool, true, false, List, [], ◌∷◌, ◌++◌, length, ltb, ◌==◌,
  if◌then◌else◌,
}
use ferroid.Id.Snowflake.{SnowflakeId}
use ferroid.Generator.Poll.{ready, pending}
use ferroid.Generator.Snowflake.Basic.{poll_id}
use ferroid.Server.Config.{snowflake_id_size}

-- `to_le_bytes` of an integer of `k` bytes.
unfoldable pub to_le_bytes : ℕ → ℕ → List ℕ
to_le_bytes zero x = []
to_le_bytes (suc k) x = x % 256 ∷ to_le_bytes k (x / 256)

-- The channel of the chunks, by the number of chunks sent before: whether `is_closed` says so, and
-- whether `send` fails.
pub record Channel : Type 0 where
  pub is_closed : ℕ → Bool
  pub send_fails : ℕ → Bool

-- A slice out of range panics; else the task goes on or returns early.
pub data Written : Type 0 where
  go_on : (filled : List ℕ) (sent : List (List ℕ)) → Written
  early_return : (filled : List ℕ) → Written
  out_of_range : Written

pub data Exit : Type 0 where
  completed : Exit
  returned_early : Exit
  panicked : Exit
  still_polling : Exit

-- What a request leaves: the bytes in the buffer, the generator, and the chunks sent.
pub record Handled : Type 0 where
  pub filled : List ℕ
  pub generator : ℕ
  pub sent : List (List ℕ)
  pub exit : Exit

-- The branch of a ready poll, up to the next round.
unfoldable pub write_id : ℕ → Channel → List ℕ → List (List ℕ) → ℕ → Written
unfolding to_le_bytes
write_id chunk_bytes channel filled sent id =
    let filled' = filled ++ to_le_bytes snowflake_id_size id in
    if ltb chunk_bytes (length filled + snowflake_id_size)
    then out_of_range
    else if length filled' == chunk_bytes
    then (if channel.is_closed (length sent)
        then early_return filled'
        else if channel.send_fails (length sent)
        then early_return filled'
        else go_on [] (sent ++ filled' ∷ []))
    else go_on filled' sent

-- After the loop: the partial chunk.
unfoldable pub flush : Channel → List ℕ → ℕ → List (List ℕ) → Handled
flush channel filled generator sent =
    if ltb 0 (length filled)
    then (if channel.is_closed (length sent)
        then (record { filled = filled; generator = generator; sent = sent; exit = completed })
        else if channel.send_fails (length sent)
        then (record { filled = []; generator = generator; sent = sent; exit = completed })
        else (record {
          filled = [];
          generator = generator;
          sent = sent ++ filled ∷ [];
          exit = completed;
        }))
    else (record { filled = filled; generator = generator; sent = sent; exit = completed })

module _ (o : SnowflakeId) (chunk_bytes : ℕ) (chunk_size : ℕ) (channel : Channel) where
  -- Over the readings of the clock that the polls take, with `generated` IDs so far.
  unfoldable pub handle_loop : List ℕ → ℕ → List ℕ → ℕ → List (List ℕ) → Handled
  unfolding write_id flush
  handle_loop [] generated filled generator sent =
      if ltb generated chunk_size
      then (record { filled = filled; generator = generator; sent = sent; exit = still_polling })
      else flush channel filled generator sent
  handle_loop (now ∷ rest) generated filled generator sent = elim (ltb generated chunk_size) [
    | false ↦ flush channel filled generator sent
    | true ↦
        let (outcome, generator') = poll_id o now generator in
        elim outcome [
          | pending yield_for ↦ handle_loop rest generated filled generator' sent
          | ready id ↦ elim (write_id chunk_bytes channel filled sent id) [
            | go_on filled' sent' ↦ handle_loop rest (generated + 1) filled' generator' sent'
            | early_return filled' ↦ record {
              filled = filled';
              generator = generator';
              sent = sent;
              exit = returned_early;
            }
            | out_of_range ↦ record {
              filled = filled;
              generator = generator';
              sent = sent;
              exit = panicked;
            }
          ]
        ]
  ]

  unfoldable pub handle_stream_request : List ℕ → List ℕ → ℕ → Handled
  unfolding handle_loop
  handle_stream_request readings filled generator = handle_loop readings 0 filled generator []
