-- ===== src/Generator/Poll.antt =====
-- `Poll` of crates/ferroid/src/generator/status.rs, `Error` of error.rs, and the `Result` that the
-- fallible operations return.
use ferroid.Common.{ℕ, ◌≡◌, ◌⊎◌, inl, inr, refl, List, ◌∷◌}

pub data Poll : Type 0 where
  ready : (id : ℕ) → Poll
  pending : (yield_for : ℕ) → Poll

-- `LockPoisoned` is the one variant that a value can have.
pub data Error : Type 0 where
  lock_poisoned : Error

pub data Result {ℓ} (A : Type ℓ) : Type ℓ where
  ok : A → Result A
  err : Error → Result A

-- An ID that was handed out, with those that follow.
abbrev pub collect : Poll → List ℕ → List ℕ
collect (ready id) ids = id ∷ ids
collect (pending _) ids = ids

pub Poll-cases : (p : Poll) → ((id : ℕ) × (p ≡ ready id)) ⊎ ((d : ℕ) × (p ≡ pending d))
Poll-cases (ready id) = inl (id, refl)
Poll-cases (pending d) = inr (d, refl)

pub Result-cases :
    (p : Result Poll)
    → ((e : Error) × (p ≡ err e))
      ⊎ ((id : ℕ) × (p ≡ ok (ready id)))
      ⊎ ((d : ℕ) × (p ≡ ok (pending d)))
Result-cases (err e) = inl (e, refl)
Result-cases (ok (ready id)) = inr (inl (id, refl))
Result-cases (ok (pending d)) = inr (inr (d, refl))
