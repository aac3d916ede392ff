-- ===== src/Server/Processor/Keeps.antt =====
-- What a request leaves of the generator: it stands at the last ID that it handed out.
use mathlib.Core.Path.{subst}
use native.Mathlib.Nat.{le_refl}
use ferroid.Common.{
  ℕ, zero, suc, ◌+◌, ◌*◌, ◌≤◌, ◌<◌, ◌≡◌, inl, inr, refl, ap, arith, true, List, [], ◌∷◌, length,
  All, take, ltb, lt→ltb,
}
use ferroid.Id.Snowflake.{SnowflakeId, IsLawful}
use ferroid.Generator.Poll.{ready, pending, Poll-cases}
use ferroid.Generator.Snowflake.Basic.{poll_id, issued}
use ferroid.Generator.Snowflake.Basic.Step.{PollSpec, poll_id-PollSpec}
use ferroid.Generator.Snowflake.Basic.Run.{FromMachine, keeps_machine}
use ferroid.Server.Processor.{flush, handle_loop, handle_stream_request}
use ferroid.Server.Processor.Packs.{
  open_channel, IsOpen, write_id-Wrote, loop_done, loop_waits, loop_writes, issued_waits,
  issued_one, issued_none,
}

flush_keeps :
    (filled : List ℕ) (generator : ℕ) (sent : List (List ℕ))
    → (flush open_channel filled generator sent).generator ≡ generator
unfolding flush
flush_keeps [] generator sent = refl
flush_keeps (b ∷ filled) generator sent = rw (some_bytes, flush) refl
  where
    some_bytes : ltb 0 (length (b ∷ filled)) ≡ true
    some_bytes = lt→ltb _ _ (omega arith)

module _ (o : SnowflakeId) where
  -- From the generator state `before`, with these IDs handed out, to `after`.
  pub record Keeps (machine before : ℕ) (ids : List ℕ) (after : ℕ) : Type 0 where
    pub from_machine : FromMachine o machine after
    pub not_before : before ≤ after
    pub covers : All (λ id. id ≤ after) ids

  pub waits :
      (now state d : ℕ)
      → (poll_id o now state).0 ≡ pending d
      → PollSpec o now state (poll_id o now state).0 (poll_id o now state).1
      → (poll_id o now state).1 ≡ state
  waits now state d e spec = (subst (λ p. PollSpec o now state p (poll_id o now state).1) e spec).0

  pub hands :
      (now state id : ℕ)
      → (poll_id o now state).0 ≡ ready id
      → PollSpec o now state (poll_id o now state).0 (poll_id o now state).1
      → ((poll_id o now state).1 ≡ id) × (state < id)
  hands now state id e spec =
      let spec' : PollSpec o now state (ready id) (poll_id o now state).1 =
        subst (λ p. PollSpec o now state p (poll_id o now state).1) e spec in
      (spec'.0, spec'.1.after)

  Keeps-one :
      (machine before id mid : ℕ) (ids : List ℕ) (after : ℕ)
      → mid ≡ id
      → before < id
      → Keeps machine mid ids after
      → Keeps machine before (id ∷ ids) after
  Keeps-one machine before id mid ids after e lt k =
      let le : mid ≤ after = k.not_before in
      record {
        from_machine = k.from_machine;
        not_before = omega arith;
        covers = (omega arith, k.covers);
      }

  Keeps-later :
      (machine before mid : ℕ) (ids : List ℕ) (after : ℕ)
      → before ≤ mid
      → Keeps machine mid ids after
      → Keeps machine before ids after
  Keeps-later machine before mid ids after le k =
      let le' : mid ≤ after = k.not_before in
      record { from_machine = k.from_machine; not_before = omega arith; covers = k.covers }

module _ (o : SnowflakeId) (law : IsLawful o) (ids_per_chunk chunk_size machine : ℕ) where
  loop-Keeps :
      (readings : List ℕ) (m generated : ℕ) (filled : List ℕ) (generator : ℕ) (sent : List (List ℕ))
      → IsOpen ids_per_chunk filled
      → generated + m ≡ chunk_size
      → m ≤ length (issued o readings generator)
      → FromMachine o machine generator
      → All (λ now. now ≤ o.max_timestamp) readings
      → Keeps o machine generator
          (take m (issued o readings generator))
          (handle_loop o
            (ids_per_chunk * 8)
            chunk_size
            open_channel
            readings
            generated
            filled
            generator
            sent).generator
  loop-Keeps readings zero generated filled generator sent space count enough f fits =
      rw
        (
          loop_done o (ids_per_chunk * 8) chunk_size open_channel readings generated filled
              generator sent (ground arith),
          flush_keeps filled generator sent,
        )
        (record { from_machine = f; not_before = le_refl generator; covers = tt })
  loop-Keeps [] (suc m) generated filled generator sent space count enough f fits =
      absurd (omega (arith, issued_none o generator))
  loop-Keeps (now ∷ rest) (suc m) generated filled generator sent space count enough f (fit, fits) =
      elim (Poll-cases (poll_id o now generator).0) [
        | inr (d, e) ↦
            let spec = waits o now generator d e (poll_id-PollSpec o law now generator f.1 fit) in
            rw
              (
                issued_waits o now rest generator d e,
                loop_waits o (ids_per_chunk * 8) chunk_size open_channel now rest generated filled
                    generator sent d more e,
              )
              (Keeps-later o machine generator (poll_id o now generator).1 _ _ (omega arith) (
                loop-Keeps rest (suc m) generated filled (poll_id o now generator).1 sent space
                  count (rw (issued_waits o now rest generator d e) at enough)
                  (keeps_machine o now generator machine _ _ f
                    (poll_id-PollSpec o law now generator f.1 fit))
                  fits))
        | inl (id, e) ↦
            let (filled', sent', w, space', bytes) =
              write_id-Wrote ids_per_chunk filled sent id space in
            let (stored, after) =
              hands o now generator id e (poll_id-PollSpec o law now generator f.1 fit) in
            rw
              (
                issued_one o now rest generator id e,
                loop_writes o (ids_per_chunk * 8) chunk_size open_channel now rest generated filled
                    generator sent id filled' sent' more e w,
              )
              (Keeps-one o machine generator id (poll_id o now generator).1 _ _ stored after (
                loop-Keeps rest m (generated + 1) filled' (poll_id o now generator).1 sent' space'
                  (omega arith)
                  (omega
                    (arith, ap (λ (t : List ℕ). length t) (issued_one o now rest generator id e)))
                  (keeps_machine o now generator machine _ _ f
                    (poll_id-PollSpec o law now generator f.1 fit))
                  fits))
      ]
    where
      more : ltb generated chunk_size ≡ true
      more = lt→ltb _ _ (omega arith)

  -- A request that is served on an open channel leaves a valid state of the same machine, which no ID
  -- that it handed out is above.
  pub handle_stream_request-Keeps :
      (readings : List ℕ) (generator : ℕ)
      → 0 < ids_per_chunk
      → chunk_size ≤ length (issued o readings generator)
      → FromMachine o machine generator
      → All (λ now. now ≤ o.max_timestamp) readings
      → Keeps o machine generator
          (take chunk_size (issued o readings generator))
          (handle_stream_request o
            (ids_per_chunk * 8)
            chunk_size
            open_channel
            readings
            []
            generator).generator
  unfolding handle_stream_request
  handle_stream_request-Keeps readings generator room enough f fits =
      loop-Keeps readings chunk_size 0 [] generator [] (0, refl, room) (omega arith) enough f fits
