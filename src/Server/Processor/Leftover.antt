-- ===== src/Server/Processor/Leftover.antt =====
-- What becomes of a partial chunk whose client is gone.
use mathlib.Core.List.{append_assoc, append-nil}
use ferroid.Common.{
  ℕ, zero, suc, ◌+◌, ◌*◌, ◌≤◌, ◌<◌, ◌≡◌, inl, inr, refl, ap, ◌∙◌, arith, Bool-cases, true, false,
  List, [], ◌∷◌, ◌++◌, length, length-append, ltb, lt→ltb, ◌==◌,
}
use ferroid.Id.Snowflake.{SnowflakeId}
use ferroid.Generator.Poll.{Poll-cases}
use ferroid.Generator.Snowflake.Basic.{poll_id, issued}
use ferroid.Server.Processor.{
  to_le_bytes, Channel, go_on, Handled, completed, write_id, flush, handle_loop,
  handle_stream_request,
}
use ferroid.Server.Processor.Packs.{
  packed_ids, open_channel, length-to_le_bytes, Serves, loop_done, loop_waits, loop_writes,
  issued_waits, issued_one, issued_none, loop-Serves,
}

-- A request that ends with these bytes in the buffer, and has sent nothing.
abbrev pub Leaves : List ℕ → Handled → Type 0
Leaves bytes h = (h.exit ≡ completed) × (h.filled ≡ bytes) × (h.sent ≡ [])

flush-Leaves :
    (channel : Channel) (filled : List ℕ) (generator : ℕ)
    → channel.is_closed 0 ≡ true
    → Leaves filled (flush channel filled generator [])
unfolding flush
flush-Leaves channel filled generator closed = elim (Bool-cases (ltb 0 (length filled))) [
  | inl some ↦ rw (some, closed, flush) (refl, refl, refl)
  | inr none ↦ rw (none, flush) (refl, refl, refl)
]

-- An ID that does not fill the buffer.
pub write_id_part :
    (chunk_bytes : ℕ) (channel : Channel) (filled : List ℕ) (id : ℕ)
    → length filled + 8 < chunk_bytes
    → write_id chunk_bytes channel filled [] id ≡ go_on (filled ++ to_le_bytes 8 id) []
unfolding write_id
write_id_part chunk_bytes channel filled id h = rw (fits, part, write_id) refl
  where
    longer : length (filled ++ to_le_bytes 8 id) ≡ length filled + 8
    longer = length-append filled _ ∙ ap (λ (t : ℕ). length filled + t) (length-to_le_bytes 8 id)

    fits : ltb chunk_bytes (length filled + 8) ≡ false
    fits = ground arith

    part : (length (filled ++ to_le_bytes 8 id) == chunk_bytes) ≡ false
    part = ground (arith, longer)

module _ (o : SnowflakeId) (chunk_bytes chunk_size : ℕ) (channel : Channel)
    (closed : channel.is_closed 0 ≡ true) where
  loop-Leaves :
      (readings : List ℕ) (m generated : ℕ) (filled : List ℕ) (generator : ℕ)
      → length filled + m * 8 < chunk_bytes
      → generated + m ≡ chunk_size
      → m ≤ length (issued o readings generator)
      → Leaves
          (filled ++ packed_ids m (issued o readings generator))
          (handle_loop o chunk_bytes chunk_size channel readings generated filled generator [])
  loop-Leaves readings zero generated filled generator space count enough =
      rw
        (
          append-nil filled,
          loop_done o chunk_bytes chunk_size channel readings generated filled generator []
              (ground arith),
        )
        (flush-Leaves channel filled generator closed)
  loop-Leaves [] (suc m) generated filled generator space count enough =
      absurd (omega (arith, issued_none o generator))
  loop-Leaves (now ∷ rest) (suc m) generated filled generator space count enough =
      elim (Poll-cases (poll_id o now generator).0) [
        | inr (d, e) ↦
            rw
              (
                issued_waits o now rest generator d e,
                loop_waits o chunk_bytes chunk_size channel now rest generated filled generator [] d
                    more e,
              )
              (loop-Leaves rest (suc m) generated filled (poll_id o now generator).1 space count
                (rw (issued_waits o now rest generator d e) at enough))
        | inl (id, e) ↦
            rw
              (
                issued_one o now rest generator id e,
                loop_writes o chunk_bytes chunk_size channel now rest generated filled generator []
                    id (filled ++ to_le_bytes 8 id) [] more e
                    (write_id_part chunk_bytes channel filled id (omega arith)),
                ← append_assoc filled (to_le_bytes 8 id)
                    (packed_ids m (issued o rest (poll_id o now generator).1)),
              )
              (loop-Leaves rest m (generated + 1) (filled ++ to_le_bytes 8 id)
                (poll_id o now generator).1 (omega (arith, longer id)) (omega arith)
                (omega
                  (arith, ap (λ (t : List ℕ). length t) (issued_one o now rest generator id e))))
      ]
    where
      more : ltb generated chunk_size ≡ true
      more = lt→ltb _ _ (omega arith)

      longer : (id : ℕ) → length (filled ++ to_le_bytes 8 id) ≡ length filled + 8
      longer id =
          length-append filled _ ∙ ap (λ (t : ℕ). length filled + t) (length-to_le_bytes 8 id)

pub length-packed_ids : (m : ℕ) (ids : List ℕ) → m ≤ length ids → length (packed_ids m ids) ≡ m * 8
length-packed_ids zero ids h = refl
length-packed_ids (suc m) [] h = absurd (omega arith)
length-packed_ids (suc m) (id ∷ ids) h =
    length-append (to_le_bytes 8 id) _
    ∙ omega (arith, length-to_le_bytes 8 id, length-packed_ids m ids (omega arith))

-- What the first of two requests leaves.
abbrev pub left : SnowflakeId → ℕ → ℕ → Channel → List ℕ → ℕ → Handled
left o ids_per_chunk gone channel readings generator =
    handle_stream_request o (ids_per_chunk * 8) gone channel readings [] generator

-- A request for fewer IDs than a chunk holds, whose channel is closed when they are to be sent, leaves
-- them in the buffer of the worker. The next request to that worker, on an open channel, sends them
-- before its own: its client gets all of them beyond those that it asked for.
pub leftover_delivered :
    (o : SnowflakeId) (ids_per_chunk gone asked : ℕ) (channel : Channel)
    (readings readings' : List ℕ) (generator : ℕ)
    → channel.is_closed 0 ≡ true
    → gone < ids_per_chunk
    → gone ≤ length (issued o readings generator)
    → asked
      ≤ length (issued o readings' (left o ids_per_chunk gone channel readings generator).generator)
    → Leaves
        (packed_ids gone (issued o readings generator))
        (left o ids_per_chunk gone channel readings generator)
      × Serves
          (packed_ids gone (issued o readings generator)
            ++ packed_ids asked (
                issued o readings'
                  (left o ids_per_chunk gone channel readings generator).generator))
          (handle_stream_request o
            (ids_per_chunk * 8)
            asked
            open_channel
            readings'
            (left o ids_per_chunk gone channel readings generator).filled
            (left o ids_per_chunk gone channel readings generator).generator)
unfolding handle_stream_request
leftover_delivered o ids_per_chunk gone asked channel readings readings' generator closed few enough
      enough' =
    let (done, filled, sent) =
      loop-Leaves o (ids_per_chunk * 8) gone channel closed readings gone 0 [] generator
        (omega arith) (omega arith) enough in
    (
      (done, filled, sent),
      rw filled (
          loop-Serves o ids_per_chunk asked readings' asked 0
            (packed_ids gone (issued o readings generator)) _ []
            (gone, length-packed_ids gone _ enough, few) (omega arith) enough'),
    )
