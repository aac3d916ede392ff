-- ===== src/Generator/Interface.antt =====
-- The traits `SnowflakeGenerator` and `UlidGenerator` of crates/ferroid/src/generator/snowflake/interface.rs
-- and ulid/interface.rs, and their implementations. The two traits are the same but for what `new` takes,
-- `A`, and what a poll reads, `R`. `S` is the state; the generator's clock and source of randomness give
-- the readings.
pub mod Looping
pub mod Instances
pub mod Implements
pub mod Agree
use ferroid.Common.{ℕ, List, [], ◌∷◌, Option, none, some}
use ferroid.Generator.Poll
use ferroid.Generator.Poll.{Poll, ready, pending}

-- Rust's `Result`.
pub data Result (A E : Type 0) : Type 0 where
  ok : A → Result A E
  err : E → Result A E

-- `match e.into() {}`, where the error type has no values.
abbrev pub value_of : {A E : Type 0} → (E → ⊥) → Result A E → A
value_of into (ok a) = a
value_of into (err e) = absurd (into e)

module _ {A E S : Type 0} where
  -- The provided methods.
  unfoldable pub provided_next_id : (E → ⊥) → Option (Result A E × S) → Option (A × S)
  provided_next_id into none = none
  provided_next_id into (some (result, s)) = some (value_of into result, s)

  unfoldable pub provided_poll_id : (E → ⊥) → Result A E × S → A × S
  provided_poll_id into (result, s) = (value_of into result, s)

-- The operations with the state that they leave; `none` if the readings do not suffice. `next_id` and
-- `poll_id` ask for an error type that is `Into<Infallible>`.
pub record Generator (A R S : Type 0) : Type 1 where
  pub Err : Type 0
  pub new : A → S
  pub next_id : (Err → ⊥) → List R → S → Option (ℕ × S)
  pub try_next_id : List R → S → Option (Result ℕ Err × S)
  pub poll_id : (Err → ⊥) → R → S → Poll × S
  pub try_poll_id : R → S → Result Poll Err × S

abbrev pub ok_next : {S : Type 0} → Option (ℕ × S) → Option (Result ℕ ⊥ × S)
ok_next none = none
ok_next (some (id, s)) = some (ok id, s)

abbrev pub ok_poll : {S : Type 0} → Poll × S → Result Poll ⊥ × S
ok_poll (status, s) = (ok status, s)

module _ {A R S : Type 0} where
  -- The implementation for a generator that cannot fail, which is the same for all five of them.
  abbrev pub infallible :
      (A → S) → (List R → S → Option (ℕ × S)) → (R → S → Poll × S) → Generator A R S
  infallible new next_id poll_id = record {
    Err = ⊥;
    new = new;
    next_id = λ into readings s. next_id readings s;
    try_next_id = λ readings s. ok_next (next_id readings s);
    poll_id = λ into r s. poll_id r s;
    try_poll_id = λ r s. ok_poll (poll_id r s);
  }

  -- The implementation for a generator behind a mutex, with the provided methods.
  abbrev pub fallible :
      {E : Type 0}
      → (A → S)
      → (List R → S → Option (Result ℕ E × S))
      → (R → S → Result Poll E × S)
      → Generator A R S
  fallible {E} new try_next_id try_poll_id = record {
    Err = E;
    new = new;
    next_id = λ into readings s. provided_next_id into (try_next_id readings s);
    try_next_id = try_next_id;
    poll_id = λ into r s. provided_poll_id into (try_poll_id r s);
    try_poll_id = try_poll_id;
  }

-- The results of the locked generators of the standard build.
abbrev pub result_of : {A : Type 0} → Poll.Result A → Result A Poll.Error
result_of (Poll.ok a) = ok a
result_of (Poll.err e) = err e
