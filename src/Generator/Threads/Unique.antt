-- ===== src/Generator/Threads/Unique.antt =====
-- No interleaving hands out an ID twice.
use mathlib.Core.Path.{subst}
use ferroid.Common.{
  ℕ, ◌≤◌, ◌<◌, ◌≡◌, ◌⊎◌, inl, inr, arith, List, [], ◌∷◌, All, All-mono, IsDescending, Bool-cases,
  ◌==◌,
}
use ferroid.Generator.Poll.{Poll, ready, pending, collect}
use ferroid.Generator.Snowflake.Atomic.{Plan, exchange}
use ferroid.Generator.Threads.{
  Local, idle, timed, planned, System, update, In, Step, read, load_and_plan, load_and_return,
  attempt, Reach, here, later,
}

held : (P : ℕ → Type 0) (v : ℕ) (xs : List ℕ) → All P xs → In v xs → P v
held P v [] all i = absurd i
held P v (x ∷ xs) (hx, hxs) (inl e) = rw e hx
held P v (x ∷ xs) (hx, hxs) (inr i) = held P v xs hxs i

-- An exchange hands out the next ID where the word is as it was loaded, and else leaves it.
abbrev pub Exchanges : (ℕ → ℕ → ℕ → Poll × ℕ) → Type 0
Exchanges publish =
    (c n state : ℕ)
    → ((publish c n state ≡ (ready n, n)) × (state ≡ c)) ⊎ (publish c n state ≡ (pending 0, state))

-- From a good word a plan at a reading gets to a good one above it.
abbrev pub Advances : {R : Type 0} → (R → Type 0) → (R → ℕ → Plan) → (ℕ → Type 0) → Type 0
Advances {R} IsReading plan IsGood =
    (reading : R) (current_raw next_id : ℕ)
    → IsGood current_raw
    → IsReading reading
    → plan reading current_raw ≡ exchange next_id
    → (current_raw < next_id) × IsGood next_id

module _ (IsGood : ℕ → Type 0) where
  -- What holds of the shared word, its past and the IDs handed out.
  record IsSound (state : ℕ) (past handed : List ℕ) : Type 0 where
    values : All IsGood (state ∷ past)
    descending : IsDescending handed
    below : All (λ id. id ≤ state) handed
    good : All IsGood handed

  exchanged-IsSound :
      (state n : ℕ) (past handed : List ℕ)
      → IsSound state past handed
      → state < n
      → IsGood n
      → IsSound n (state ∷ past) (n ∷ handed)
  exchanged-IsSound state n past handed s lt f = record {
    values = (f, s.values);
    descending = (
      All-mono (λ id. id ≤ state) (λ id. id < n) handed (λ id h. omega arith) s.below,
      s.descending,
    );
    below = (
      omega arith,
      All-mono (λ id. id ≤ state) (λ id. id ≤ n) handed (λ id h. omega arith) s.below,
    );
    good = (f, s.good);
  }

  attempt-IsSound :
      (publish : ℕ → ℕ → ℕ → Poll × ℕ)
      → Exchanges publish
      → (c n state : ℕ) (past handed : List ℕ) → IsSound state past handed
      → (c < n) × IsGood n
      → IsSound (publish c n state).1 (state ∷ past) (collect (publish c n state).0 handed)
  attempt-IsSound publish exchanges c n state past handed s (lt, f) = elim (exchanges c n state) [
    | inl (e, same) ↦ rw e (exchanged-IsSound state n past handed s (omega arith) f)
    | inr e ↦ rw e (record {
      values = (s.values.0, s.values);
      descending = s.descending;
      below = s.below;
      good = s.good;
    })
  ]

module _ {R : Type 0} (IsReading : R → Type 0) (plan : R → ℕ → Plan)
    (publish : ℕ → ℕ → ℕ → Poll × ℕ) (IsGood : ℕ → Type 0) where
  -- What holds of a thread's local variables.
  abbrev Fits : Local R → Type 0
  Fits idle = Unit
  Fits (timed reading) = IsReading reading
  Fits (planned current_raw next_id) = (current_raw < next_id) × IsGood next_id

  record Inv (s : System R) : Type 0 where
    sound : IsSound IsGood s.state s.past s.handed
    locals : (j : ℕ) → Fits (s.local j)

  update-Fits :
      (f : ℕ → Local R) (i : ℕ) (x : Local R)
      → ((j : ℕ) → Fits (f j))
      → Fits x
      → (j : ℕ) → Fits (update f i x j)
  update-Fits f i x fits fx j = elim (Bool-cases (i == j)) [
    | inl b ↦ rw b fx
    | inr b ↦ rw b (fits j)
  ]

  module _ (exchanges : Exchanges publish) (advances : Advances IsReading plan IsGood) where
    Step-Inv : {s t : System R} → Inv s → Step IsReading plan publish s t → Inv t
    Step-Inv {s} inv (read i reading fit at) = record {
      sound = inv.sound;
      locals = update-Fits s.local i _ inv.locals fit;
    }
    Step-Inv {s} inv (load_and_plan i reading c n at seen e) = record {
      sound = inv.sound;
      locals = update-Fits s.local i _ inv.locals (
          advances reading c n (held IsGood c (s.state ∷ s.past) inv.sound.values seen)
            (subst Fits at (inv.locals i)) e);
    }
    Step-Inv {s} inv (load_and_return i reading c p at seen e) = record {
      sound = inv.sound;
      locals = update-Fits s.local i _ inv.locals tt;
    }
    Step-Inv {s} inv (attempt i c n at) = record {
      sound =
          attempt-IsSound IsGood publish exchanges c n s.state s.past s.handed inv.sound
            (subst Fits at (inv.locals i));
      locals = update-Fits s.local i _ inv.locals tt;
    }

    Reach-Inv : {id : ℕ} {s : System R} → IsGood id → Reach IsReading plan publish id s → Inv s
    Reach-Inv f here = record {
      sound = record { values = (f, tt); descending = tt; below = tt; good = tt };
      locals = λ j. tt;
    }
    Reach-Inv f (later r st) = Step-Inv (Reach-Inv f r) st

    -- From a good word, the IDs handed out so far descend strictly from the latest back; all are good
    -- and lie at or below the shared word.
    pub Reach-IsDescending :
        {id : ℕ} {s : System R}
        → IsGood id
        → Reach IsReading plan publish id s
        → IsDescending s.handed × All IsGood s.handed × All (λ x. x ≤ s.state) s.handed
    Reach-IsDescending f r =
        let inv = Reach-Inv f r in (inv.sound.descending, inv.sound.good, inv.sound.below)
