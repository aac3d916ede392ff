-- ===== src/Server/Processor/Closed.antt =====
-- What a request whose client is gone leaves to the next one.
use mathlib.Core.List.{append_assoc, append-nil}
use mathlib.Core.Path.{subst}
use ferroid.Common.{
  ℕ, zero, suc, ◌+◌, ◌*◌, ◌≤◌, ◌<◌, ◌≡◌, refl, ap, ◌∙◌, arith, inl, inr, Bool-cases, true, false,
  List, [], ◌∷◌, ◌++◌, length, length-append, ltb, lt→ltb, ◌==◌, ==_iff,
}
use ferroid.Id.Snowflake.{SnowflakeId}
use ferroid.Generator.Poll.{ready, Poll-cases}
use ferroid.Generator.Snowflake.Basic.{poll_id, issued}
use ferroid.Server.Processor.{
  to_le_bytes, Channel, Handled, early_return, out_of_range, returned_early, panicked, write_id,
  flush, handle_loop, handle_stream_request,
}
use ferroid.Server.Processor.Packs.{
  packed_ids, length-to_le_bytes, loop_waits, loop_writes, issued_waits, issued_one, issued_none,
}
use ferroid.Server.Processor.Leftover.{write_id_part}
use ferroid.Server.Processor.Sends.{write_id_cases}

longer : (filled : List ℕ) (id : ℕ) → length (filled ++ to_le_bytes 8 id) ≡ length filled + 8
longer filled id =
    length-append filled _ ∙ ap (λ (t : ℕ). length filled + t) (length-to_le_bytes 8 id)

write_closed :
    (chunk_bytes : ℕ) (channel : Channel) (filled : List ℕ) (id : ℕ)
    → length filled + 8 ≡ chunk_bytes
    → channel.is_closed 0 ≡ true
    → write_id chunk_bytes channel filled [] id ≡ early_return (filled ++ to_le_bytes 8 id)
unfolding write_id
write_closed chunk_bytes channel filled id last closed = rw (fits, full, closed, write_id) refl
  where
    fits : ltb chunk_bytes (length filled + 8) ≡ false
    fits = ground arith

    full : (length (filled ++ to_le_bytes 8 id) == chunk_bytes) ≡ true
    full = (==_iff _ _).1 (longer filled id ∙ last)

-- An early return is one with a full buffer.
write_early :
    (chunk_bytes : ℕ) (channel : Channel) (filled : List ℕ) (sent : List (List ℕ)) (id : ℕ)
    (filled' : List ℕ)
    → write_id chunk_bytes channel filled sent id ≡ early_return filled'
    → length filled' ≡ chunk_bytes
unfolding write_id
write_early chunk_bytes channel filled sent id filled' e = ground arith

write_full :
    (chunk_bytes : ℕ) (channel : Channel) (filled : List ℕ) (id : ℕ)
    → length filled ≡ chunk_bytes
    → write_id chunk_bytes channel filled [] id ≡ out_of_range
unfolding write_id
write_full chunk_bytes channel filled id full = rw (beyond, write_id) refl
  where
    beyond : ltb chunk_bytes (length filled + 8) ≡ true
    beyond = lt→ltb _ _ (omega arith)

-- A request that returned early with these bytes in the buffer, and has sent nothing.
abbrev pub ReturnsEarly : List ℕ → Handled → Type 0
ReturnsEarly bytes h = (h.exit ≡ returned_early) × (h.filled ≡ bytes) × (h.sent ≡ [])

-- What is said of a request that has returned early.
abbrev IsFull : ℕ → Handled → Type 0
IsFull chunk_bytes h = h.exit ≡ returned_early → length h.filled ≡ chunk_bytes

module _ (o : SnowflakeId) (chunk_bytes size : ℕ) (channel : Channel) where
  flush-IsFull :
      (filled : List ℕ) (generator : ℕ) (sent : List (List ℕ))
      → IsFull chunk_bytes (flush channel filled generator sent)
  unfolding flush
  flush-IsFull filled generator sent = ground arith

  loop-IsFull :
      (readings : List ℕ) (generated : ℕ) (filled : List ℕ) (generator : ℕ) (sent : List (List ℕ))
      → IsFull chunk_bytes
          (handle_loop o chunk_bytes size channel readings generated filled generator sent)
  unfolding handle_loop
  loop-IsFull [] generated filled generator sent = elim (Bool-cases (ltb generated size)) [
    | inl more ↦ rw (more, handle_loop) (λ e. absurd (cc))
    | inr done ↦ rw (done, handle_loop) (flush-IsFull filled generator sent)
  ]
  loop-IsFull (now ∷ rest) generated filled generator sent =
      elim (Bool-cases (ltb generated size)) [
        | inr done ↦ rw (done, handle_loop) (flush-IsFull filled generator sent)
        | inl more ↦ elim (Poll-cases (poll_id o now generator).0) [
          | inr (d, e) ↦
              rw
                (loop_waits o chunk_bytes size channel now rest generated filled generator sent d
                  more e)
                (loop-IsFull rest generated filled (poll_id o now generator).1 sent)
          | inl (id, e) ↦ elim (write_id_cases chunk_bytes channel filled sent id) [
            | inl w ↦ rw (more, e, w, handle_loop) (λ x. absurd (cc))
            | inr (inl w) ↦
                rw (more, e, w, handle_loop)
                  (λ x. write_early chunk_bytes channel filled sent id _ w)
            | inr (inr (inl w)) ↦
                rw
                  (loop_writes o chunk_bytes size channel now rest generated filled generator sent
                    id _ _ more e w)
                  (loop-IsFull rest (generated + 1) _ (poll_id o now generator).1 _)
            | inr (inr (inr w)) ↦
                rw
                  (loop_writes o chunk_bytes size channel now rest generated filled generator sent
                    id _ _ more e w)
                  (loop-IsFull rest (generated + 1) _ (poll_id o now generator).1 _)
          ]
        ]
      ]

  -- A request on a full buffer polls until its first ID.
  loop_panics :
      (readings : List ℕ) (filled : List ℕ) (generator : ℕ)
      → 0 < size
      → length filled ≡ chunk_bytes
      → 0 < length (issued o readings generator)
      → (handle_loop o chunk_bytes size channel readings 0 filled generator []).exit ≡ panicked
  unfolding handle_loop
  loop_panics [] filled generator some full one = absurd (omega (arith, issued_none o generator))
  loop_panics (now ∷ rest) filled generator some full one =
      elim (Poll-cases (poll_id o now generator).0) [
        | inr (d, e) ↦
            rw
              (loop_waits o chunk_bytes size channel now rest 0 filled generator [] d
                (lt→ltb 0 size some) e)
              (loop_panics rest filled (poll_id o now generator).1 some full
                (rw (issued_waits o now rest generator d e) at one))
        | inl (id, e) ↦
            rw (lt→ltb 0 size some, e, write_full chunk_bytes channel filled id full, handle_loop)
              refl
      ]

  -- With `m` IDs and one more to fill the buffer.
  loop-ReturnsEarly :
      (readings : List ℕ) (m generated : ℕ) (filled : List ℕ) (generator : ℕ)
      → channel.is_closed 0 ≡ true
      → length filled + suc m * 8 ≡ chunk_bytes
      → generated + suc m ≤ size
      → suc m ≤ length (issued o readings generator)
      → ReturnsEarly
          (filled ++ packed_ids (suc m) (issued o readings generator))
          (handle_loop o chunk_bytes size channel readings generated filled generator [])
  unfolding handle_loop
  loop-ReturnsEarly [] m generated filled generator closed space count enough =
      absurd (omega (arith, issued_none o generator))
  loop-ReturnsEarly (now ∷ rest) m generated filled generator closed space count enough =
      elim (Poll-cases (poll_id o now generator).0) [
        | inr (d, e) ↦
            rw
              (
                issued_waits o now rest generator d e,
                loop_waits o chunk_bytes size channel now rest generated filled generator [] d more
                    e,
              )
              (loop-ReturnsEarly rest m generated filled (poll_id o now generator).1 closed space
                count (rw (issued_waits o now rest generator d e) at enough))
        | inl (id, e) ↦ rw (issued_one o now rest generator id e) (
            written m id e space count
              (omega (arith, ap (λ (t : List ℕ). length t) (issued_one o now rest generator id e)))
              (λ k.
                loop-ReturnsEarly rest k (generated + 1) (filled ++ to_le_bytes 8 id)
                  (poll_id o now generator).1 closed))
      ]
    where
      more : ltb generated size ≡ true
      more = lt→ltb _ _ (omega arith)

      written :
          (m id : ℕ)
          → (poll_id o now generator).0 ≡ ready id
          → length filled + suc m * 8 ≡ chunk_bytes
          → generated + suc m ≤ size
          → m ≤ length (issued o rest (poll_id o now generator).1)
          → ((k : ℕ)
              → length (filled ++ to_le_bytes 8 id) + suc k * 8 ≡ chunk_bytes
              → generated + 1 + suc k ≤ size
              → suc k ≤ length (issued o rest (poll_id o now generator).1)
              → ReturnsEarly
                  ((filled ++ to_le_bytes 8 id)
                    ++ packed_ids (suc k) (issued o rest (poll_id o now generator).1))
                  (handle_loop o chunk_bytes size channel rest
                    (generated + 1)
                    (filled ++ to_le_bytes 8 id)
                    (poll_id o now generator).1
                    []))
          → ReturnsEarly
              (filled
                ++ (to_le_bytes 8 id ++ packed_ids m (issued o rest (poll_id o now generator).1)))
              (handle_loop o chunk_bytes size channel (now ∷ rest) generated filled generator [])
      written zero id e space count enough later =
          rw
            (
              append-nil (to_le_bytes 8 id),
              more,
              e,
              write_closed chunk_bytes channel filled id (omega arith) closed,
              handle_loop,
            )
            (refl, refl, refl)
      written (suc k) id e space count enough later =
          rw
            (
              loop_writes o chunk_bytes size channel now rest generated filled generator [] id
                  (filled ++ to_le_bytes 8 id) [] more e
                  (write_id_part chunk_bytes channel filled id (omega arith)),
              ← append_assoc filled (to_le_bytes 8 id)
                  (packed_ids (suc k) (issued o rest (poll_id o now generator).1)),
            )
            (later k (omega (arith, longer filled id)) (omega arith) enough)

-- A request whose IDs fill the buffer of the worker, whatever was in it before, and whose channel is
-- closed when they first do: it returns early, has sent nothing, and leaves the buffer with what was
-- there and the IDs that its generator handed out, in order.
pub closed-ReturnsEarly :
    (o : SnowflakeId) (chunk_bytes size m : ℕ) (channel : Channel) (readings filled : List ℕ)
    (generator : ℕ)
    → channel.is_closed 0 ≡ true
    → length filled + suc m * 8 ≡ chunk_bytes
    → suc m ≤ size
    → suc m ≤ length (issued o readings generator)
    → ReturnsEarly
        (filled ++ packed_ids (suc m) (issued o readings generator))
        (handle_stream_request o chunk_bytes size channel readings filled generator)
unfolding handle_stream_request
closed-ReturnsEarly o chunk_bytes size m channel readings filled generator closed space count
      enough =
    loop-ReturnsEarly o chunk_bytes size channel readings m 0 filled generator closed space
      (omega arith) enough

-- A request that has returned early leaves the buffer full, also after chunks that it has sent. The next
-- request on that worker for at least one ID, whatever its channel is, panics if its generator hands out
-- an ID at its readings.
pub early_return_panics :
    (o : SnowflakeId) (chunk_bytes size size' : ℕ) (channel channel' : Channel)
    (readings readings' filled : List ℕ) (generator : ℕ) {h : Handled}
    → handle_stream_request o chunk_bytes size channel readings filled generator ≡ h
    → h.exit ≡ returned_early
    → 0 < size'
    → 0 < length (issued o readings' h.generator)
    → (length h.filled ≡ chunk_bytes)
      × ((handle_stream_request o chunk_bytes size' channel' readings' h.filled h.generator).exit
          ≡ panicked)
unfolding handle_stream_request
early_return_panics o chunk_bytes size size' channel channel' readings readings' filled generator
      {h} result early some one =
    let full : length h.filled ≡ chunk_bytes =
      subst (IsFull chunk_bytes) result
        (loop-IsFull o chunk_bytes size channel readings 0 filled generator []) early in
    (full, loop_panics o chunk_bytes size' channel' readings' h.filled h.generator some full one)
