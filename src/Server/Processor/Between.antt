-- ===== src/Server/Processor/Between.antt =====
-- IDs between two states of a generator, and chunks of such IDs.
use mathlib.Core.List.{append_assoc, append-nil}
use ferroid.Common.{
  ℕ, ◌≤◌, ◌<◌, ◌≡◌, inl, inr, refl, sym, ◌∙◌, arith, Bool-cases, List, [], ◌∷◌, ◌++◌, map, length,
  All, All-append, All-mono, IsAscending, IsAscending-append, ltb,
}
use ferroid.Id.Snowflake.{SnowflakeId}
use ferroid.Generator.Snowflake.Basic.Run.{FromMachine}
use ferroid.Server.Processor.{Channel, Handled, Exit, completed, flush}
use ferroid.Server.Processor.Packs.{flat}
use ferroid.Server.Pool.Worker.Serves.{bytes_of}

module _ (o : SnowflakeId) (machine : ℕ) where
  -- IDs of one machine that ascend from above `low` up to the state of its generator.
  pub record Between (low : ℕ) (ids : List ℕ) (generator : ℕ) : Type 0 where
    pub ordered : low ≤ generator
    pub ascending : IsAscending ids
    pub above : All (λ id. low < id) ids
    pub below : All (λ id. id ≤ generator) ids
    pub from : All (FromMachine o machine) ids
    pub state : FromMachine o machine generator

  -- From `low` to `mid`, and from there on.
  pub Between-append :
      (low mid generator : ℕ) (xs ys : List ℕ)
      → Between low xs mid
      → Between mid ys generator
      → Between low (xs ++ ys) generator
  Between-append low mid generator xs ys b c = record {
    ordered = omega (arith, b.ordered, c.ordered);
    ascending = IsAscending-append mid xs ys b.ascending c.ascending b.below c.above;
    above =
        All-append _ xs ys b.above
          (All-mono _ _ ys (λ id lt. omega (arith, b.ordered, lt)) c.above);
    below =
        All-append _ xs ys (All-mono _ _ xs (λ id le. omega (arith, c.ordered, le)) b.below)
          c.below;
    from = All-append _ xs ys b.from c.from;
    state = c.state;
  }

  -- None of the IDs.
  pub Between-none :
      (low generator : ℕ)
      → low ≤ generator
      → FromMachine o machine generator
      → Between low [] generator
  Between-none low generator le f = record {
    ordered = le;
    ascending = tt;
    above = tt;
    below = tt;
    from = tt;
    state = f;
  }

  pub Between-one : (low id : ℕ) → low < id → FromMachine o machine id → Between low (id ∷ []) id
  Between-one low id lt f = record {
    ordered = omega arith;
    ascending = (tt, tt);
    above = (lt, tt);
    below = (omega arith, tt);
    from = (f, tt);
    state = f;
  }

  -- The chunks sent after those in `before`, and what is left in the buffer, are whole IDs between
  -- `low` and the generator.
  abbrev pub Sends : ℕ → List (List ℕ) → Handled → Type 0
  Sends low before h =
      (chunks : List (List ℕ)) × (left : List ℕ) × (h.sent ≡ before ++ map bytes_of chunks)
      × (h.filled ≡ bytes_of left)
      × Between low (flat chunks ++ left) h.generator

  -- Nothing more is sent.
  pub Sends-none :
      (low generator : ℕ) (left : List ℕ) (before : List (List ℕ)) (exit : Exit)
      → Between low left generator
      → Sends low before
          (record { filled = bytes_of left; generator = generator; sent = before; exit = exit })
  Sends-none low generator left before exit b = ([], left, sym (append-nil before), refl, b)

  -- A chunk is sent, and then more.
  pub Sends-chunk :
      (low mid : ℕ) (chunk : List ℕ) (before : List (List ℕ)) (h : Handled)
      → Between low chunk mid
      → Sends mid (before ++ bytes_of chunk ∷ []) h
      → Sends low before h
  Sends-chunk low mid chunk before h b (chunks, left, sent, filled, c) = (
    chunk ∷ chunks,
    left,
    sent ∙ append_assoc before (bytes_of chunk ∷ []) (map bytes_of chunks),
    filled,
    rw (append_assoc chunk (flat chunks) left)
        (Between-append low mid h.generator chunk (flat chunks ++ left) b c),
  )

  pub flush-Sends :
      (channel : Channel) (low generator : ℕ) (pend : List ℕ) (sent : List (List ℕ))
      → Between low pend generator
      → Sends low sent (flush channel (bytes_of pend) generator sent)
  unfolding flush
  flush-Sends channel low generator pend sent b =
      elim (Bool-cases (ltb 0 (length (bytes_of pend)))) [
        | inr none ↦ rw (none, flush) (Sends-none low generator pend sent completed b)
        | inl some ↦ elim (Bool-cases (channel.is_closed (length sent))) [
          | inl closed ↦ rw (some, closed, flush) (Sends-none low generator pend sent completed b)
          | inr opened ↦ elim (Bool-cases (channel.send_fails (length sent))) [
            | inl fails ↦
                rw (some, opened, fails, flush)
                  (Sends-none low generator [] sent completed
                    (Between-none low generator b.ordered b.state))
            | inr works ↦
                rw (some, opened, works, flush)
                  (Sends-chunk low generator pend sent
                    (record {
                      filled = [];
                      generator = generator;
                      sent = sent ++ bytes_of pend ∷ [];
                      exit = completed;
                    })
                    b
                    (Sends-none generator generator [] _ completed
                      (Between-none generator generator (omega arith) b.state)))
          ]
        ]
      ]
