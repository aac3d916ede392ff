-- ===== src/Generator/Snowflake/Basic/Run.antt =====
-- Many polls of the basic generator: order, machine number, and the end of the loop.
use ferroid.Common.{ℕ, ◌≤◌, ◌<◌, ◌≡◌, ◌∙◌, List, [], ◌∷◌, All, All-above, IsAscending}
use ferroid.Id.Snowflake.{SnowflakeId, IsLawful, IsCanonical}
use ferroid.Generator.Poll.{Poll, ready, pending, collect}
use ferroid.Generator.Snowflake.Basic.{poll_id, issued}
use ferroid.Generator.Snowflake.Basic.Step.{PollSpec, poll_id-PollSpec}

module _ (o : SnowflakeId) where
  -- An ID that a generator of machine `m` may hand out.
  abbrev pub FromMachine : ℕ → ℕ → Type 0
  FromMachine m id = (o.machine_id id ≡ m) × IsCanonical o id

  abbrev RunSpec : ℕ → ℕ → List ℕ → Type 0
  RunSpec state m ids = IsAscending ids × All (λ id. state < id) ids × All (FromMachine m) ids

  -- A poll keeps the state an ID of the same machine.
  pub keeps_machine :
      (now state m : ℕ) (p : Poll) (state' : ℕ)
      → FromMachine m state
      → PollSpec o now state p state'
      → FromMachine m state'
  keeps_machine now state m (ready id) state' (e, c) (same, issue, _) =
      rw same (issue.same_machine ∙ e, issue.canonical)
  keeps_machine now state m (pending d) state' f (same, _, _) = rw same f

  collect-RunSpec :
      (now state m : ℕ) (p : Poll) (state' : ℕ) (ids : List ℕ)
      → FromMachine m state
      → PollSpec o now state p state'
      → RunSpec state' m ids
      → RunSpec state m (collect p ids)
  collect-RunSpec now state m (ready id) state' ids f (same, issue, w) (asc, above, from) =
      let above' : All (λ x. id < x) ids = rw same at above in
      (
        (above', asc),
        (issue.after, All-above state id ids issue.after above'),
        ((issue.same_machine ∙ f.0, issue.canonical), from),
      )
  collect-RunSpec now state m (pending d) state' ids f (same, _, _) run = rw same at run

module _ (o : SnowflakeId) (law : IsLawful o) where
  -- From a valid state of machine `m`, whatever readings the clock gives that the timestamp field can
  -- hold, also ones that jump back: the IDs ascend strictly, lie
  -- above the state, are valid, and carry the machine number of the state.
  pub issued-IsAscending :
      (readings : List ℕ) (state m : ℕ)
      → FromMachine o m state
      → All (λ now. now ≤ o.max_timestamp) readings
      → IsAscending (issued o readings state)
        × All (λ id. state < id) (issued o readings state)
        × All (FromMachine o m) (issued o readings state)
  unfolding issued
  issued-IsAscending [] state m f fits = (tt, tt, tt)
  issued-IsAscending (now ∷ rest) state m f (fit, fits) =
      let spec = poll_id-PollSpec o law now state f.1 fit in
      let state' = (poll_id o now state).1 in
      collect-RunSpec o now state m (poll_id o now state).0 state' (issued o rest state') f spec
        (issued-IsAscending rest state' m (keeps_machine o now state m _ state' f spec) fits)
