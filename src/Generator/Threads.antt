-- ===== src/Generator/Threads.antt =====
-- Threads that poll one atomic generator, interleaved in any order. A relaxed load may return any
-- value that the word has held; a compare-exchange acts on the latest. `R` is what a poll reads
-- before its load, `plan` what it makes of that and of the loaded word, and `publish` its
-- compare-exchange.
pub mod Unique
use ferroid.Common.{ℕ, ◌≡◌, ◌⊎◌, List, [], ◌∷◌, if◌then◌else◌, ◌==◌}
use ferroid.Generator.Poll.{Poll, collect}
use ferroid.Generator.Snowflake.Atomic.{Plan, return_early, exchange}

-- Where a thread stands in `poll_id`, with its local variables.
pub data Local (R : Type 0) : Type 0 where
  idle : Local R
  timed : (reading : R) → Local R
  planned : (current_raw next_id : ℕ) → Local R

pub record System (R : Type 0) : Type 0 where
  pub state : ℕ  -- the shared word
  pub past : List ℕ  -- what it held before, the latest first
  pub handed : List ℕ  -- the IDs that some thread has been given, the latest first
  pub local : ℕ → Local R

abbrev pub update : {R : Type 0} → (ℕ → Local R) → ℕ → Local R → ℕ → Local R
update f i x j = if i == j then x else f j

abbrev pub In : ℕ → List ℕ → Type 0
In v [] = ⊥
In v (x ∷ xs) = (v ≡ x) ⊎ In v xs

module _ {R : Type 0} (IsReading : R → Type 0) (plan : R → ℕ → Plan)
    (publish : ℕ → ℕ → ℕ → Poll × ℕ) where
  pub data Step (s : System R) : System R → Type 0 where
    read :
        (i : ℕ) (reading : R)
        → IsReading reading
        → s.local i ≡ idle
        → Step s (record s { local = update s.local i (timed reading) })
    load_and_plan :
        (i : ℕ) (reading : R) (current_raw next_id : ℕ)
        → s.local i ≡ timed reading
        → In current_raw (s.state ∷ s.past)
        → plan reading current_raw ≡ exchange next_id
        → Step s (record s { local = update s.local i (planned current_raw next_id) })
    load_and_return :
        (i : ℕ) (reading : R) (current_raw : ℕ) (outcome : Poll)
        → s.local i ≡ timed reading
        → In current_raw (s.state ∷ s.past)
        → plan reading current_raw ≡ return_early outcome
        → Step s (record s { local = update s.local i idle })
    attempt :
        (i current_raw next_id : ℕ)
        → s.local i ≡ planned current_raw next_id
        → Step s (record {
          state = (publish current_raw next_id s.state).1;
          past = s.state ∷ s.past;
          handed = collect (publish current_raw next_id s.state).0 s.handed;
          local = update s.local i idle;
        })

  abbrev pub start : ℕ → System R
  start id = record { state = id; past = []; handed = []; local = λ _. idle }

  pub data Reach (id : ℕ) : System R → Type 0 where
    here : Reach id (start id)
    later : {s t : System R} → Reach id s → Step s t → Reach id t
