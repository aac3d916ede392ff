-- ===== src/Server/Feed.antt =====
-- `feed_chunks` of crates/ferroid-tonic-server/src/server/streaming/coordinator.rs: a request is split
-- into chunks, which workers serve one after the other.
use ferroid.Common.{
  ℕ, zero, suc, ◌+◌, ◌-◌, ◌≤◌, ◌<◌, ◌≡◌, refl, arith, min, List, [], ◌∷◌, All, replicate, false,
  ◌==◌, if◌then◌else◌, ◌∙◌,
}

-- What becomes of one chunk: the pool takes it and all of its messages are forwarded, or the client's
-- channel fails, or the pool cannot dispatch it.
pub data Reply : Type 0 where
  forwarded : Reply
  forward_failed : Reply
  refused : Reply

-- How a call stands: returned `Ok`, returned one of the two errors, or still in its loop.
pub data Outcome : Type 0 where
  finished : Outcome
  channel_error : Outcome
  pool_error : Outcome
  looping : Outcome

-- The sizes of the chunks taken off the request, in order; where a call fails, the last one is the one
-- that failed.
pub record Feed : Type 0 where
  pub sizes : List ℕ
  pub outcome : Outcome

-- `fuel` rounds of the loop at most, from round `round` on; `replies` says what becomes of the chunk
-- of each round.
unfoldable pub feed_chunks : ℕ → (ℕ → Reply) → ℕ → ℕ → ℕ → Feed
feed_chunks ids_per_chunk replies zero round remaining = record {
  sizes = [];
  outcome = if remaining == 0 then finished else looping;
}
feed_chunks ids_per_chunk replies (suc fuel) round remaining =
    let chunk_size = min remaining ids_per_chunk in
    let rest = feed_chunks ids_per_chunk replies fuel (suc round) (remaining - chunk_size) in
    if remaining == 0 then (record { sizes = []; outcome = finished }) else elim (replies round) [
      | forwarded ↦ record { sizes = chunk_size ∷ rest.sizes; outcome = rest.outcome }
      | forward_failed ↦ record { sizes = chunk_size ∷ []; outcome = channel_error }
      | refused ↦ record { sizes = chunk_size ∷ []; outcome = pool_error }
    ]

abbrev pub sum : List ℕ → ℕ
sum [] = 0
sum (x ∷ xs) = x + sum xs

-- While chunks are served: one more round.
served_round :
    (per_chunk : ℕ) (replies : ℕ → Reply) (fuel round remaining : ℕ)
    → 0 < remaining
    → replies round ≡ forwarded
    → feed_chunks per_chunk replies (suc fuel) round remaining ≡ record {
      sizes =
          min remaining per_chunk
          ∷ (feed_chunks per_chunk replies fuel
              (suc round)
              (remaining - min remaining per_chunk)).sizes;
      outcome =
          (feed_chunks per_chunk replies fuel
            (suc round)
            (remaining - min remaining per_chunk)).outcome;
    }
unfolding feed_chunks
served_round per_chunk replies fuel round remaining more served =
    rw (nonzero, served, feed_chunks) refl
  where
    nonzero : (remaining == 0) ≡ false
    nonzero = ground arith

-- A loop that has dispatched `sizes` for `total` IDs.
abbrev IsComplete : ℕ → ℕ → Feed → Type 0
IsComplete per_chunk total f =
    (f.outcome ≡ finished) × (sum f.sizes ≡ total) × All (λ c. (0 < c) × (c ≤ per_chunk)) f.sizes

complete :
    (per_chunk : ℕ) (replies : ℕ → Reply) (fuel round remaining : ℕ)
    → 0 < per_chunk
    → ((i : ℕ) → replies i ≡ forwarded)
    → remaining ≤ fuel
    → IsComplete per_chunk remaining (feed_chunks per_chunk replies fuel round remaining)
unfolding feed_chunks
complete per_chunk replies zero round zero pos served enough = (refl, refl, tt)
complete per_chunk replies zero round (suc r) pos served enough = absurd (omega arith)
complete per_chunk replies (suc fuel) round zero pos served enough = (refl, refl, tt)
complete per_chunk replies (suc fuel) round (suc r) pos served enough =
    rw (served_round per_chunk replies fuel round (suc r) (omega arith) (served round)) (
      let (e, s, a) =
        complete per_chunk replies fuel (suc round) (suc r - min (suc r) per_chunk) pos served
          (omega arith) in
      (e, omega arith, ((omega arith, omega arith), a)))

-- With at least one ID to a chunk, a request whose chunks are all served ends after at most as many
-- rounds as it has IDs: the chunks are not empty, none is larger than allowed, and together they are
-- exactly the IDs requested.
pub feed_chunks_complete :
    (per_chunk total : ℕ) (replies : ℕ → Reply)
    → 0 < per_chunk
    → ((i : ℕ) → replies i ≡ forwarded)
    → ((feed_chunks per_chunk replies total 0 total).outcome ≡ finished)
      × (sum (feed_chunks per_chunk replies total 0 total).sizes ≡ total)
      × All (λ c. (0 < c) × (c ≤ per_chunk)) (feed_chunks per_chunk replies total 0 total).sizes
feed_chunks_complete per_chunk total replies pos served =
    complete per_chunk replies total 0 total pos served (omega arith)

no_fuel :
    (per_chunk : ℕ) (replies : ℕ → Reply) (round remaining : ℕ)
    → 0 < remaining
    → feed_chunks per_chunk replies 0 round remaining ≡ record { sizes = []; outcome = looping }
unfolding feed_chunks
no_fuel per_chunk replies round remaining more = rw nonzero refl
  where
    nonzero : (remaining == 0) ≡ false
    nonzero = ground arith

-- With no ID to a chunk the loop never ends: after any number of rounds a request of one ID or more
-- still loops, and has dispatched as many empty chunks.
pub feed_chunks_endless :
    (fuel round total : ℕ) (replies : ℕ → Reply)
    → 0 < total
    → ((i : ℕ) → replies i ≡ forwarded)
    → feed_chunks 0 replies fuel round total
      ≡ record { sizes = replicate fuel 0; outcome = looping }
feed_chunks_endless zero round total replies more served = no_fuel 0 replies round total more
feed_chunks_endless (suc fuel) round total replies more served =
    served_round 0 replies fuel round total more (served round)
    ∙ rw (stays, feed_chunks_endless fuel (suc round) total replies more served, empty) refl
  where
    empty : min total 0 ≡ 0
    empty = omega arith

    stays : total - min total 0 ≡ total
    stays = omega arith
