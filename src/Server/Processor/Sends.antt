-- ===== src/Server/Processor/Sends.antt =====
-- What a worker sends for a request on any channel, also one that closes or fails, and from any buffer
-- that earlier requests have left.
use mathlib.Core.List.{append-nil}
use ferroid.Common.{
  ℕ, ◌+◌, ◌≤◌, ◌≡◌, ◌⊎◌, inl, inr, refl, sym, ap, ◌∙◌, arith, true, Bool-cases, List, [], ◌∷◌, ◌++◌,
  length, All, All-mono, ltb, ◌==◌,
}
use ferroid.Id.Snowflake.{SnowflakeId, IsLawful}
use ferroid.Generator.Poll.{ready, Poll-cases}
use ferroid.Generator.Snowflake.Basic.{poll_id}
use ferroid.Generator.Snowflake.Basic.Step.{PollSpec, poll_id-PollSpec}
use ferroid.Generator.Snowflake.Basic.Run.{FromMachine, keeps_machine}
use ferroid.Server.Processor.{
  to_le_bytes, Channel, go_on, early_return, out_of_range, Handled, returned_early, panicked,
  still_polling, write_id, handle_loop, handle_stream_request,
}
use ferroid.Server.Processor.Packs.{loop_waits, loop_writes, loop_done}
use ferroid.Server.Processor.Keeps.{waits, hands}
use ferroid.Server.Pool.Worker.Serves.{bytes_of, bytes_of-append}
use ferroid.Server.Processor.Between.{
  Between, Sends, Between-append, Between-none, Between-one, Sends-none, Sends-chunk, flush-Sends,
}

module _ (chunk_bytes : ℕ) (channel : Channel) (filled : List ℕ) (sent : List (List ℕ))
    (id : ℕ) where
  abbrev pub with_id : List ℕ
  with_id = filled ++ to_le_bytes 8 id

  -- The outcomes of a write.
  pub write_id_cases :
      (write_id chunk_bytes channel filled sent id ≡ out_of_range)
      ⊎ (write_id chunk_bytes channel filled sent id ≡ early_return with_id)
      ⊎ (write_id chunk_bytes channel filled sent id ≡ go_on [] (sent ++ with_id ∷ []))
      ⊎ (write_id chunk_bytes channel filled sent id ≡ go_on with_id sent)
  unfolding write_id
  write_id_cases = elim (Bool-cases (ltb chunk_bytes (length filled + 8))) [
    | inl long ↦ inl (rw (long, write_id) refl)
    | inr fits ↦ elim (Bool-cases (length with_id == chunk_bytes)) [
      | inr part ↦ inr (inr (inr (rw (fits, part, write_id) refl)))
      | inl full ↦ elim (Bool-cases (channel.is_closed (length sent))) [
        | inl closed ↦ inr (inl (rw (fits, full, closed, write_id) refl))
        | inr opened ↦ elim (Bool-cases (channel.send_fails (length sent))) [
          | inl fails ↦ inr (inl (rw (fits, full, opened, fails, write_id) refl))
          | inr works ↦ inr (inr (inl (rw (fits, full, opened, works, write_id) refl)))
        ]
      ]
    ]
  ]

module _ (o : SnowflakeId) (law : IsLawful o) (machine chunk_bytes chunk_size : ℕ)
    (channel : Channel) where
  abbrev loop : List ℕ → ℕ → List ℕ → ℕ → List (List ℕ) → Handled
  loop readings generated pend generator sent =
      handle_loop o chunk_bytes chunk_size channel readings generated (bytes_of pend) generator sent

  -- An ID behind those in the buffer.
  with_id-bytes_of :
      (pend : List ℕ) (id : ℕ) → bytes_of pend ++ to_le_bytes 8 id ≡ bytes_of (pend ++ id ∷ [])
  with_id-bytes_of pend id =
      ap (λ (t : List ℕ). bytes_of pend ++ t) (sym (append-nil (to_le_bytes 8 id)))
      ∙ sym (bytes_of-append pend (id ∷ []))

  loop_returns :
      (now : ℕ) (rest : List ℕ) (generated : ℕ) (filled : List ℕ) (generator : ℕ)
      (sent : List (List ℕ)) (id : ℕ) (filled' : List ℕ)
      → ltb generated chunk_size ≡ true
      → (poll_id o now generator).0 ≡ ready id
      → write_id chunk_bytes channel filled sent id ≡ early_return filled'
      → handle_loop o chunk_bytes chunk_size channel (now ∷ rest) generated filled generator sent
        ≡ record {
          filled = filled';
          generator = (poll_id o now generator).1;
          sent = sent;
          exit = returned_early;
        }
  unfolding handle_loop
  loop_returns now rest generated filled generator sent id filled' more e w =
      rw (more, e, w, handle_loop) refl

  loop_panics :
      (now : ℕ) (rest : List ℕ) (generated : ℕ) (filled : List ℕ) (generator : ℕ)
      (sent : List (List ℕ)) (id : ℕ)
      → ltb generated chunk_size ≡ true
      → (poll_id o now generator).0 ≡ ready id
      → write_id chunk_bytes channel filled sent id ≡ out_of_range
      → handle_loop o chunk_bytes chunk_size channel (now ∷ rest) generated filled generator sent
        ≡ record {
          filled = filled;
          generator = (poll_id o now generator).1;
          sent = sent;
          exit = panicked;
        }
  unfolding handle_loop
  loop_panics now rest generated filled generator sent id more e w =
      rw (more, e, w, handle_loop) refl

  loop_stops :
      (generated : ℕ) (filled : List ℕ) (generator : ℕ) (sent : List (List ℕ))
      → ltb generated chunk_size ≡ true
      → handle_loop o chunk_bytes chunk_size channel [] generated filled generator sent
        ≡ record { filled = filled; generator = generator; sent = sent; exit = still_polling }
  unfolding handle_loop
  loop_stops generated filled generator sent more = rw (more, handle_loop) refl

  -- An ID that a poll hands out goes behind those in the buffer.
  Between-polled :
      (now generator low id : ℕ) (pend : List ℕ)
      → Between o machine low pend generator
      → (poll_id o now generator).0 ≡ ready id
      → now ≤ o.max_timestamp
      → Between o machine low (pend ++ id ∷ []) (poll_id o now generator).1
  Between-polled now generator low id pend b e fit =
      let spec = poll_id-PollSpec o law now generator b.state.1 fit in
      let (stored, after) = hands o now generator id e spec in
      let f = keeps_machine o now generator machine _ _ b.state spec in
      rw stored (
        Between-append o machine low generator id pend (id ∷ []) b
          (Between-one o machine generator id after (rw stored at f)))

  -- The IDs in the buffer, where the generator has gone on.
  Between-later :
      (low generator generator' : ℕ) (ids : List ℕ)
      → Between o machine low ids generator
      → generator ≤ generator'
      → FromMachine o machine generator'
      → Between o machine low ids generator'
  Between-later low generator generator' ids b le f = record {
    ordered = omega (arith, b.ordered);
    ascending = b.ascending;
    above = b.above;
    below = All-mono _ _ ids (λ id h. omega arith) b.below;
    from = b.from;
    state = f;
  }

  loop-Sends :
      (readings : List ℕ) (generated generator low : ℕ) (pend : List ℕ) (sent : List (List ℕ))
      → Between o machine low pend generator
      → All (λ now. now ≤ o.max_timestamp) readings
      → Sends o machine low sent (loop readings generated pend generator sent)
  loop-Sends [] generated generator low pend sent b fits =
      elim (Bool-cases (ltb generated chunk_size)) [
        | inr done ↦
            rw
              (loop_done o chunk_bytes chunk_size channel [] generated (bytes_of pend) generator
                sent done)
              (flush-Sends o machine channel low generator pend sent b)
        | inl more ↦
            rw (loop_stops generated (bytes_of pend) generator sent more)
              (Sends-none o machine low generator pend sent still_polling b)
      ]
  loop-Sends (now ∷ rest) generated generator low pend sent b (fit, fits) =
      elim (Bool-cases (ltb generated chunk_size)) [
        | inr done ↦
            rw
              (loop_done o chunk_bytes chunk_size channel (now ∷ rest) generated (bytes_of pend)
                generator sent done)
              (flush-Sends o machine channel low generator pend sent b)
        | inl more ↦ elim (Poll-cases (poll_id o now generator).0) [
          | inr (d, e) ↦
              let same = waits o now generator d e spec in
              rw
                (loop_waits o chunk_bytes chunk_size channel now rest generated (bytes_of pend)
                  generator sent d more e)
                (loop-Sends rest generated generator' low pend sent
                  (Between-later low generator generator' pend b (omega arith) kept) fits)
          | inl (id, e) ↦
              let with_it = Between-polled now generator low id pend b e fit in
              let (stored, after) = hands o now generator id e spec in
              elim (write_id_cases chunk_bytes channel (bytes_of pend) sent id) [
                | inl w ↦
                    rw (loop_panics now rest generated (bytes_of pend) generator sent id more e w) (
                      Sends-none o machine low generator' pend sent panicked
                        (Between-later low generator generator' pend b (omega arith) kept))
                | inr (inl w) ↦
                    rw
                      (
                        loop_returns now rest generated (bytes_of pend) generator sent id _ more e
                            w,
                        with_id-bytes_of pend id,
                      )
                      (Sends-none o machine low generator' (pend ++ id ∷ []) sent returned_early
                        with_it)
                | inr (inr (inl w)) ↦
                    rw
                      (
                        loop_writes o chunk_bytes chunk_size channel now rest generated
                            (bytes_of pend) generator sent id _ _ more e w,
                        with_id-bytes_of pend id,
                      )
                      (Sends-chunk o machine low generator' (pend ++ id ∷ []) sent
                        (loop rest (generated + 1) [] generator'
                          (sent ++ bytes_of (pend ++ id ∷ []) ∷ []))
                        with_it
                        (loop-Sends rest (generated + 1) generator' generator' []
                          (sent ++ bytes_of (pend ++ id ∷ []) ∷ [])
                          (Between-none o machine generator' generator' (omega arith) kept) fits))
                | inr (inr (inr w)) ↦
                    rw
                      (
                        loop_writes o chunk_bytes chunk_size channel now rest generated
                            (bytes_of pend) generator sent id _ _ more e w,
                        with_id-bytes_of pend id,
                      )
                      (loop-Sends rest (generated + 1) generator' low (pend ++ id ∷ []) sent with_it
                        fits)
              ]
        ]
      ]
    where
      generator' : ℕ
      generator' = (poll_id o now generator).1

      spec : PollSpec o now generator (poll_id o now generator).0 generator'
      spec = poll_id-PollSpec o law now generator b.state.1 fit

      kept : FromMachine o machine generator'
      kept = keeps_machine o now generator machine _ _ b.state spec

  -- With readings that the timestamp field can hold, from a buffer of whole IDs between `low` and the
  -- generator: the chunks sent and what is left in the buffer are whole IDs that ascend strictly from
  -- above `low` to the new state of the generator and carry its machine number, whatever the channel
  -- does and however the request ends.
  pub handle_stream_request-Sends :
      (readings : List ℕ) (generator low : ℕ) (pend : List ℕ)
      → Between o machine low pend generator
      → All (λ now. now ≤ o.max_timestamp) readings
      → Sends o machine low [] (
          handle_stream_request o chunk_bytes chunk_size channel readings (bytes_of pend) generator)
  unfolding handle_stream_request
  handle_stream_request-Sends readings generator low pend b fits =
      loop-Sends readings 0 generator low pend [] b fits
