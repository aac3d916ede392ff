-- ===== src/Server/Streams/Marks.antt =====
-- How far each worker has sent its IDs.
use mathlib.Core.Path.{subst}
use mathlib.Core.List.{append_assoc}
use ferroid.Common.{
  ℕ, ◌≤◌, ◌<◌, ◌≡◌, ◌≢◌, inl, inr, refl, sym, ap, ◌∙◌, arith, Bool, Bool-cases, true, List, [],
  ◌++◌, map, length, All, All-append, All-mono, IsAscending, get_or, set, length-set,
  get_or-set_same, get_or-set_other, ◌==◌, ==_iff, if◌then◌else◌,
}
use ferroid.Id.Snowflake.{SnowflakeId}
use ferroid.Generator.Snowflake.Basic.Run.{FromMachine}
use ferroid.Server.Processor.{Handled}
use ferroid.Server.Processor.Packs.{flat}
use ferroid.Server.Processor.Between.{Between, Sends}
use ferroid.Server.Pool.Worker.Serves.{bytes_of}
use ferroid.Server.Stream.{Task, no_task, forward}
use ferroid.Server.Stream.Unique.{IsDistinct, flat-append, All-both}
use ferroid.Server.Streams.Chunks.{
  All-front, All-back, IsAscending-front, IsAscending-back, split_at, forward-front,
  IsAscending-IsDistinct, IsDistinct-join, chunks_of, chunks_of-append, map-bytes_of-append,
}

module _ (o : SnowflakeId) (n : ℕ) (machine : ℕ → ℕ) where
  -- An ID that a worker has sent, at or below its mark.
  abbrev pub IsOld : (ℕ → ℕ) → ℕ → Type 0
  IsOld mark id = (i : ℕ) × (i < n) × FromMachine o (machine i) id × (id ≤ mark i)

  -- The buffer of a worker holds IDs between its mark and its generator.
  abbrev pub Kept : ℕ → ℕ → Task → Type 0
  Kept i mark task =
      (pend : List ℕ) × (task.filled ≡ bytes_of pend)
      × Between o (machine i) mark pend task.generator

  -- What holds of the workers and of the chunks that clients have got.
  pub record Sound (tasks : List Task) (delivered : List (ℕ × List ℕ)) : Type 0 where
    pub number : length tasks ≡ n
    pub mark : ℕ → ℕ
    pub kept : (i : ℕ) → i < n → Kept i (mark i) (get_or tasks i no_task)
    pub chunks : List (List ℕ)
    pub bytes : chunks_of delivered ≡ map bytes_of chunks
    pub distinct : IsDistinct (flat chunks)
    pub old : All (IsOld mark) (flat chunks)

  abbrev pub raise : (ℕ → ℕ) → ℕ → ℕ → ℕ → ℕ
  raise mark i m j = if i == j then m else mark j

  -- What was old stays so when a mark is raised.
  raise-IsOld : (mark : ℕ → ℕ) (i m id : ℕ) → mark i ≤ m → IsOld mark id → IsOld (raise mark i m) id
  raise-IsOld mark i m id le (j, hj, f, below) = (
    j,
    hj,
    f,
    elim (Bool-cases (i == j)) [
      | inl e ↦
          let same : i ≡ j = (==_iff i j).0 e in
          let b : id ≤ mark i = subst (λ (k : ℕ). id ≤ mark k) (sym same) below in
          rw e (omega arith)
      | inr e ↦ rw e below
    ],
  )

  -- The chunks that a worker sends, of which the client gets those up to some place.
  abbrev pub Splits : ℕ → ℕ → (ℕ → Bool) → Handled → Type 0
  Splits low w resp_fails h =
      (front : List (List ℕ)) × (left : List ℕ) × (mid : ℕ) × ((forward resp_fails 0 h.sent).0
        ≡ map bytes_of front)
      × (h.filled ≡ bytes_of left)
      × (low ≤ mid)
      × Between o (machine w) mid left h.generator
      × IsAscending (flat front)
      × All (λ id. low < id) (flat front)
      × All (λ id. id ≤ mid) (flat front)
      × All (FromMachine o (machine w)) (flat front)

  pub Sends-Splits :
      (low w : ℕ) (resp_fails : ℕ → Bool) (h : Handled)
      → Sends o (machine w) low [] h
      → Splits low w resp_fails h
  Sends-Splits low w resp_fails h (chunks, left, sent, filled, b) =
      let (front, rest, e, got) = forward-front resp_fails 0 chunks in
      let shape : flat chunks ++ left ≡ flat front ++ (flat rest ++ left) =
        ap (λ (t : List (List ℕ)). flat t ++ left) e
        ∙ ap (λ (t : List ℕ). t ++ left) (flat-append front rest)
        ∙ append_assoc (flat front) (flat rest) left in
      let c : Between o (machine w) low (flat front ++ (flat rest ++ left)) h.generator =
        subst (λ (t : List ℕ). Between o (machine w) low t h.generator) shape b in
      let (mid, low', top, below, above) =
        split_at low h.generator (flat front) (flat rest ++ left) c.ordered c.ascending c.above
          c.below in
      (
        front,
        left,
        mid,
        rw sent got,
        filled,
        low',
        record {
          ordered = top;
          ascending =
              IsAscending-back (flat rest) left
                (IsAscending-back (flat front) (flat rest ++ left) c.ascending);
          above = All-back _ (flat rest) left above;
          below = All-back _ (flat rest) left (All-back _ (flat front) (flat rest ++ left) c.below);
          from = All-back _ (flat rest) left (All-back _ (flat front) (flat rest ++ left) c.from);
          state = c.state;
        },
        IsAscending-front (flat front) (flat rest ++ left) c.ascending,
        All-front _ (flat front) (flat rest ++ left) c.above,
        below,
        All-front _ (flat front) (flat rest ++ left) c.from,
      )

  -- The worker `w` has served a chunk.
  pub served-Sound :
      (tasks : List Task) (delivered : List (ℕ × List ℕ)) (w i : ℕ) (resp_fails : ℕ → Bool)
      (h : Handled)
      → ((j k : ℕ) → j < n → k < n → machine j ≡ machine k → j ≡ k)
      → (s : Sound tasks delivered) → w < n
      → Splits (s.mark w) w resp_fails h
      → Sound
          (set tasks w (record { filled = h.filled; generator = h.generator }))
          (delivered ++ map (λ (msg : List ℕ). (i, msg)) (forward resp_fails 0 h.sent).0)
  served-Sound tasks delivered w i resp_fails h different s lt
        (front, left, mid, got, filled, le, state, asc, above, below, from) =
      record {
        number = length-set tasks w _ ∙ s.number;
        mark = raise s.mark w mid;
        kept = kept';
        chunks = s.chunks ++ front;
        bytes =
            chunks_of-append delivered i (forward resp_fails 0 h.sent).0
            ∙ rw (s.bytes, got) (sym (map-bytes_of-append s.chunks front));
        distinct = rw (flat-append s.chunks front) (
            IsDistinct-join (flat s.chunks) (flat front) s.distinct
              (IsAscending-IsDistinct (flat front) asc)
              (All-mono _ _ (flat s.chunks)
                (λ x old.
                  All-mono _ _ (flat front) (λ y new. apart x y old new)
                    (All-both _ _ (flat front) from above))
                s.old));
        old = rw (flat-append s.chunks front) (
            All-append _ (flat s.chunks) (flat front)
              (All-mono _ _ (flat s.chunks) (λ x. raise-IsOld s.mark w mid x le) s.old)
              (All-mono _ _ (flat front) (λ y (f, b). (w, lt, f, rw (self, raise) b))
                (All-both _ _ (flat front) from below)));
      }
    where
      self : (w == w) ≡ true
      self = (==_iff w w).1 refl

      new_task : Task
      new_task = record { filled = h.filled; generator = h.generator }

      kept' :
          (j : ℕ) → j < n → Kept j (raise s.mark w mid j) (get_or (set tasks w new_task) j no_task)
      kept' j hj = elim (Bool-cases (w == j)) [
        | inl e ↦
            let same : w ≡ j = (==_iff w j).0 e in
            rw e (
              subst (λ (k : ℕ). Kept k mid (get_or (set tasks w new_task) k no_task)) same
                (rw (get_or-set_same tasks w new_task no_task (omega (arith, s.number)))
                  (left, filled, state)))
        | inr e ↦ rw (e, get_or-set_other tasks w j new_task no_task e) (s.kept j hj)
      ]

      apart : (x y : ℕ) → IsOld s.mark x → FromMachine o (machine w) y × (s.mark w < y) → x ≢ y
      apart x y (j, hj, f, b) (f', a) e =
          let same : j ≡ w = different j w hj lt (sym f.0 ∙ ap o.machine_id e ∙ f'.0) in
          let b' : x ≤ s.mark w = subst (λ (k : ℕ). x ≤ s.mark k) same b in
          absurd (omega (arith, e))
