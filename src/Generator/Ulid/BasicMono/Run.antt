-- ===== src/Generator/Ulid/BasicMono/Run.antt =====
-- Many polls of the monotonic generator.
use ferroid.Common.{ℕ, ◌≤◌, ◌<◌, List, [], ◌∷◌, All, All-above, IsAscending}
use ferroid.Id.Ulid.{UlidId, IsLawful, IsCanonical}
use ferroid.Generator.Poll.{Poll, ready, pending, collect}
use ferroid.Generator.Ulid.BasicMono.{Reading, poll_id, issued}
use ferroid.Generator.Ulid.BasicMono.Step.{MonoSpec, poll_id-MonoSpec}

module _ (o : UlidId) where
  abbrev RunSpec : ℕ → List ℕ → Type 0
  RunSpec state ids = IsAscending ids × All (λ id. state < id) ids × All (IsCanonical o) ids

  keeps_IsCanonical :
      (now rand state : ℕ) (p : Poll) (state' : ℕ)
      → IsCanonical o state
      → MonoSpec o now rand state p state'
      → IsCanonical o state'
  keeps_IsCanonical now rand state (ready id) state' c (same, issue, _) = rw same issue.canonical
  keeps_IsCanonical now rand state (pending d) state' c (same, _, _) = rw same c

  collect-RunSpec :
      (now rand state : ℕ) (p : Poll) (state' : ℕ) (ids : List ℕ)
      → MonoSpec o now rand state p state'
      → RunSpec state' ids
      → RunSpec state (collect p ids)
  collect-RunSpec now rand state (ready id) state' ids (same, issue, _) (asc, above, good) =
      let above' : All (λ x. id < x) ids = rw same at above in
      (
        (above', asc),
        (issue.after, All-above state id ids issue.after above'),
        (issue.canonical, good),
      )
  collect-RunSpec now rand state (pending d) state' ids (same, _, _) run = rw same at run

module _ (o : UlidId) (law : IsLawful o) where
  -- From a valid state, whatever readings the clock gives that the timestamp field can hold, and
  -- whatever the source of randomness gives: the IDs ascend strictly, lie above the
  -- state, and have no reserved bit set.
  pub mono_issued-IsAscending :
      (readings : List Reading) (state : ℕ)
      → IsCanonical o state
      → All (λ r. r.now ≤ o.max_timestamp) readings
      → IsAscending (issued o readings state)
        × All (λ id. state < id) (issued o readings state)
        × All (IsCanonical o) (issued o readings state)
  unfolding issued
  mono_issued-IsAscending [] state c fits = (tt, tt, tt)
  mono_issued-IsAscending (r ∷ rest) state c (fit, fits) =
      let spec = poll_id-MonoSpec o law r.now r.rand state c fit in
      let state' = (poll_id o r.now r.rand state).1 in
      collect-RunSpec o r.now r.rand state (poll_id o r.now r.rand state).0 state'
        (issued o rest state') spec
        (mono_issued-IsAscending rest state'
          (keeps_IsCanonical o r.now r.rand state _ state' c spec) fits)
