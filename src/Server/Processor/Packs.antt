-- ===== src/Server/Processor/Packs.antt =====
-- What a worker sends for a request while the channel stays open.
use mathlib.Core.List.{append_assoc, append-nil}
use ferroid.Common.{
  ℕ, zero, suc, ◌+◌, ◌*◌, ◌/◌, ◌≤◌, ◌<◌, ◌≡◌, inl, inr, refl, sym, ap, ◌∙◌, arith, true, false,
  Bool-cases, List, [], ◌∷◌, ◌++◌, length, length-append, ltb, lt→ltb, ◌==◌,
}
use ferroid.Id.Snowflake.{SnowflakeId}
use ferroid.Generator.Poll.{ready, pending, Poll-cases}
use ferroid.Generator.Snowflake.Basic.{poll_id, issued}
use ferroid.Server.Processor.{
  to_le_bytes, Channel, Written, go_on, Handled, completed, write_id, flush, handle_loop,
  handle_stream_request,
}

abbrev pub flat : List (List ℕ) → List ℕ
flat [] = []
flat (x ∷ xs) = x ++ flat xs

-- The bytes of the first `n` IDs, in order.
abbrev pub packed_ids : ℕ → List ℕ → List ℕ
packed_ids zero ids = []
packed_ids (suc n) [] = []
packed_ids (suc n) (id ∷ ids) = to_le_bytes 8 id ++ packed_ids n ids

abbrev pub open_channel : Channel
open_channel = record { is_closed = λ _. false; send_fails = λ _. false }

pub length-to_le_bytes : (k x : ℕ) → length (to_le_bytes k x) ≡ k
unfolding to_le_bytes
length-to_le_bytes zero x = refl
length-to_le_bytes (suc k) x = ap suc (length-to_le_bytes k (x / 256))

flat-append : (xs : List (List ℕ)) (y : List ℕ) → flat (xs ++ y ∷ []) ≡ flat xs ++ y
flat-append [] y = append-nil y
flat-append (x ∷ xs) y =
    ap (λ (t : List ℕ). x ++ t) (flat-append xs y) ∙ sym (append_assoc x (flat xs) y)

-- The buffer holds some number of whole IDs, and is not full.
abbrev pub IsOpen : ℕ → List ℕ → Type 0
IsOpen ids_per_chunk filled = (j : ℕ) × (length filled ≡ j * 8) × (j < ids_per_chunk)

-- Writing an ID goes on: the bytes sent and buffered are those before with those of the ID.
abbrev pub Wrote : ℕ → List ℕ → List (List ℕ) → ℕ → Written → Type 0
Wrote ids_per_chunk filled sent id w =
    (filled' : List ℕ) × (sent' : List (List ℕ)) × (w ≡ go_on filled' sent')
    × IsOpen ids_per_chunk filled'
    × (flat sent' ++ filled' ≡ (flat sent ++ filled) ++ to_le_bytes 8 id)

pub write_id-Wrote :
    (ids_per_chunk : ℕ) (filled : List ℕ) (sent : List (List ℕ)) (id : ℕ)
    → IsOpen ids_per_chunk filled
    → Wrote ids_per_chunk filled sent id (write_id (ids_per_chunk * 8) open_channel filled sent id)
unfolding write_id
write_id-Wrote ids_per_chunk filled sent id (j, e, lt) =
    elim (Bool-cases (length (filled ++ to_le_bytes 8 id) == ids_per_chunk * 8)) [
      | inl full ↦ (
        [],
        sent ++ (filled ++ to_le_bytes 8 id) ∷ [],
        rw (fits, full, write_id) refl,
        (0, refl, omega arith),
        append-nil _ ∙ flat-append sent _ ∙ sym (append_assoc (flat sent) filled _),
      )
      | inr part ↦ (
        filled ++ to_le_bytes 8 id,
        sent,
        rw (fits, part, write_id) refl,
        (j + 1, omega (arith, longer), ground (arith, longer, part)),
        sym (append_assoc (flat sent) filled _),
      )
    ]
  where
    longer : length (filled ++ to_le_bytes 8 id) ≡ length filled + 8
    longer = length-append filled _ ∙ ap (λ (t : ℕ). length filled + t) (length-to_le_bytes 8 id)

    fits : ltb (ids_per_chunk * 8) (length filled + 8) ≡ false
    fits = ground arith

-- A request that is served to the end, with these bytes sent.
abbrev pub Serves : List ℕ → Handled → Type 0
Serves bytes h = (h.exit ≡ completed) × (h.filled ≡ []) × (flat h.sent ≡ bytes)

flush-Serves :
    (filled : List ℕ) (generator : ℕ) (sent : List (List ℕ))
    → Serves (flat sent ++ filled) (flush open_channel filled generator sent)
unfolding flush
flush-Serves [] generator sent = (refl, refl, sym (append-nil _))
flush-Serves (b ∷ filled) generator sent =
    rw (some_bytes, flush) (refl, refl, flat-append sent (b ∷ filled))
  where
    some_bytes : ltb 0 (length (b ∷ filled)) ≡ true
    some_bytes = lt→ltb _ _ (omega arith)

module _ (o : SnowflakeId) (chunk_bytes chunk_size : ℕ) (channel : Channel) where
  pub loop_done :
      (readings : List ℕ) (generated : ℕ) (filled : List ℕ) (generator : ℕ) (sent : List (List ℕ))
      → ltb generated chunk_size ≡ false
      → handle_loop o chunk_bytes chunk_size channel readings generated filled generator sent
        ≡ flush channel filled generator sent
  unfolding handle_loop
  loop_done [] generated filled generator sent e = rw (e, handle_loop) refl
  loop_done (now ∷ rest) generated filled generator sent e = rw (e, handle_loop) refl

  pub loop_waits :
      (now : ℕ) (rest : List ℕ) (generated : ℕ) (filled : List ℕ) (generator : ℕ)
      (sent : List (List ℕ)) (d : ℕ)
      → ltb generated chunk_size ≡ true
      → (poll_id o now generator).0 ≡ pending d
      → handle_loop o chunk_bytes chunk_size channel (now ∷ rest) generated filled generator sent
        ≡ handle_loop o chunk_bytes chunk_size channel rest generated filled
            (poll_id o now generator).1
            sent
  unfolding handle_loop
  loop_waits now rest generated filled generator sent d more e = rw (more, e, handle_loop) refl

  pub loop_writes :
      (now : ℕ) (rest : List ℕ) (generated : ℕ) (filled : List ℕ) (generator : ℕ)
      (sent : List (List ℕ)) (id : ℕ) (filled' : List ℕ) (sent' : List (List ℕ))
      → ltb generated chunk_size ≡ true
      → (poll_id o now generator).0 ≡ ready id
      → write_id chunk_bytes channel filled sent id ≡ go_on filled' sent'
      → handle_loop o chunk_bytes chunk_size channel (now ∷ rest) generated filled generator sent
        ≡ handle_loop o chunk_bytes chunk_size channel rest
            (generated + 1)
            filled'
            (poll_id o now generator).1
            sent'
  unfolding handle_loop
  loop_writes now rest generated filled generator sent id filled' sent' more e w =
      rw (more, e, w, handle_loop) refl

module _ (o : SnowflakeId) where
  pub issued_waits :
      (now : ℕ) (rest : List ℕ) (generator d : ℕ)
      → (poll_id o now generator).0 ≡ pending d
      → issued o (now ∷ rest) generator ≡ issued o rest (poll_id o now generator).1
  unfolding issued
  issued_waits now rest generator d e = rw (e, issued) refl

  pub issued_one :
      (now : ℕ) (rest : List ℕ) (generator id : ℕ)
      → (poll_id o now generator).0 ≡ ready id
      → issued o (now ∷ rest) generator ≡ id ∷ issued o rest (poll_id o now generator).1
  unfolding issued
  issued_one now rest generator id e = rw (e, issued) refl

  pub issued_none : (generator : ℕ) → length (issued o [] generator) ≡ 0
  unfolding issued
  issued_none generator = refl

module _ (o : SnowflakeId) (ids_per_chunk chunk_size : ℕ) where
  pub loop-Serves :
      (readings : List ℕ) (m generated : ℕ) (filled : List ℕ) (generator : ℕ) (sent : List (List ℕ))
      → IsOpen ids_per_chunk filled
      → generated + m ≡ chunk_size
      → m ≤ length (issued o readings generator)
      → Serves ((flat sent ++ filled) ++ packed_ids m (issued o readings generator)) (
          handle_loop o
            (ids_per_chunk * 8)
            chunk_size
            open_channel
            readings
            generated
            filled
            generator
            sent)
  loop-Serves readings zero generated filled generator sent space count enough =
      rw
        (
          append-nil (flat sent ++ filled),
          loop_done o (ids_per_chunk * 8) chunk_size open_channel readings generated filled
              generator sent (ground arith),
        )
        (flush-Serves filled generator sent)
  loop-Serves [] (suc m) generated filled generator sent space count enough =
      absurd (omega (arith, issued_none o generator))
  loop-Serves (now ∷ rest) (suc m) generated filled generator sent space count enough =
      elim (Poll-cases (poll_id o now generator).0) [
        | inr (d, e) ↦
            rw
              (
                issued_waits o now rest generator d e,
                loop_waits o (ids_per_chunk * 8) chunk_size open_channel now rest generated filled
                    generator sent d more e,
              )
              (loop-Serves rest (suc m) generated filled (poll_id o now generator).1 sent space
                count (rw (issued_waits o now rest generator d e) at enough))
        | inl (id, e) ↦
            let (filled', sent', w, space', bytes) =
              write_id-Wrote ids_per_chunk filled sent id space in
            rw
              (
                issued_one o now rest generator id e,
                loop_writes o (ids_per_chunk * 8) chunk_size open_channel now rest generated filled
                    generator sent id filled' sent' more e w,
                ← append_assoc (flat sent ++ filled) (to_le_bytes 8 id)
                    (packed_ids m (issued o rest (poll_id o now generator).1)),
                ← bytes,
              )
              (loop-Serves rest m (generated + 1) filled' (poll_id o now generator).1 sent' space'
                (omega arith)
                (omega
                  (arith, ap (λ (t : List ℕ). length t) (issued_one o now rest generator id e))))
      ]
    where
      more : ltb generated chunk_size ≡ true
      more = lt→ltb _ _ (omega arith)

-- On an open channel, with room for at least one ID, an empty buffer, and enough readings for
-- the generator to hand out the IDs: the request is served, the chunks sent are together the bytes
-- of exactly the first `chunk_size` IDs that the generator hands out, in order, and the buffer is
-- left empty for the next request. No write is out of range.
pub handle_stream_request-Serves :
    (o : SnowflakeId) (ids_per_chunk chunk_size : ℕ) (readings : List ℕ) (generator : ℕ)
    → 0 < ids_per_chunk
    → chunk_size ≤ length (issued o readings generator)
    → Serves
        (packed_ids chunk_size (issued o readings generator))
        (handle_stream_request o (ids_per_chunk * 8) chunk_size open_channel readings [] generator)
unfolding handle_stream_request
handle_stream_request-Serves o ids_per_chunk chunk_size readings generator room enough =
    loop-Serves o ids_per_chunk chunk_size readings chunk_size 0 [] generator [] (0, refl, room)
      (omega arith) enough
