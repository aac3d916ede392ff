-- ===== src/Generator/Interface/Looping.antt =====
-- What an implementation of the traits promises, and what follows for its clients.
use ferroid.Common.{ℕ, ◌≡◌, ◌⊎◌, inl, inr, refl, sym, ap, ◌∙◌, List, [], ◌∷◌, Option, none, some}
use ferroid.Generator.Poll.{Poll, ready, pending, Poll-cases}
use ferroid.Generator.Interface.{
  Result, ok, err, Generator, provided_next_id, provided_poll_id, ok_next, ok_poll, infallible,
  fallible,
}

-- Polls until the first ID or error.
abbrev pub until_ready :
    {R S E : Type 0} → (R → S → Result Poll E × S) → List R → S → Option (Result ℕ E × S)
until_ready poll [] s = none
until_ready poll (r ∷ rest) s =
    let (outcome, s') = poll r s in
    let later = until_ready poll rest s' in
    elim outcome [
      | err e ↦ some (err e, s')
      | ok (ready id) ↦ some (ok id, s')
      | ok (pending yield_for) ↦ later
    ]

-- The same for polls that do not fail.
abbrev pub first_ready : {R S : Type 0} → (R → S → Poll × S) → List R → S → Option (ℕ × S)
first_ready poll [] s = none
first_ready poll (r ∷ rest) s =
    let (outcome, s') = poll r s in
    let later = first_ready poll rest s' in
    elim outcome [ ready id ↦ some (id, s') | pending yield_for ↦ later ]

-- `try_next_id` polls until the first ID or error, and where there are no errors, the methods without
-- them give what those with them do.
pub record IsGenerator {A R S : Type 0} (g : Generator A R S) : Type 0 where
  pub loops :
      (readings : List R) (s : S) → g.try_next_id readings s ≡ until_ready g.try_poll_id readings s
  pub next :
      (into : g.Err → ⊥) (readings : List R) (s : S)
      → g.next_id into readings s ≡ provided_next_id into (g.try_next_id readings s)
  pub poll :
      (into : g.Err → ⊥) (r : R) (s : S)
      → g.poll_id into r s ≡ provided_poll_id into (g.try_poll_id r s)

until_ready-ok_poll :
    {R S : Type 0} (poll : R → S → Poll × S) (readings : List R) (s : S)
    → until_ready (λ r s. ok_poll (poll r s)) readings s ≡ ok_next (first_ready poll readings s)
until_ready-ok_poll poll [] s = refl
until_ready-ok_poll poll (r ∷ rest) s = elim (Poll-cases (poll r s).0) [
  | inl (id, e) ↦ rw (e, until_ready, first_ready) refl
  | inr (d, e) ↦ rw (e, until_ready, first_ready) (until_ready-ok_poll poll rest (poll r s).1)
]

provided-ok_next :
    {S : Type 0} (into : ⊥ → ⊥) (n : Option (ℕ × S)) → provided_next_id into (ok_next n) ≡ n
unfolding provided_next_id
provided-ok_next into none = refl
provided-ok_next into (some n) = refl

module _ {A R S : Type 0} where
  pub infallible-IsGenerator :
      (new : A → S) (next_id : List R → S → Option (ℕ × S)) (poll_id : R → S → Poll × S)
      → ((readings : List R) (s : S) → next_id readings s ≡ first_ready poll_id readings s)
      → IsGenerator (infallible new next_id poll_id)
  unfolding provided_poll_id
  infallible-IsGenerator new next_id poll_id loop = record {
    loops =
        λ readings s. ap ok_next (loop readings s) ∙ sym (until_ready-ok_poll poll_id readings s);
    next = λ into readings s. sym (provided-ok_next into (next_id readings s));
    poll = λ into r s. refl;
  }

  pub fallible-IsGenerator :
      {E : Type 0} (new : A → S) (try_next_id : List R → S → Option (Result ℕ E × S))
      (try_poll_id : R → S → Result Poll E × S)
      → ((readings : List R) (s : S) → try_next_id readings s ≡ until_ready try_poll_id readings s)
      → IsGenerator (fallible new try_next_id try_poll_id)
  fallible-IsGenerator new try_next_id try_poll_id loop = record {
    loops = loop;
    next = λ into readings s. refl;
    poll = λ into r s. refl;
  }

pub answers :
    {E : Type 0} (p : Result Poll E)
    → ((e : E) × (p ≡ err e)) ⊎ ((id : ℕ) × (p ≡ ok (ready id))) ⊎ ((d : ℕ) × (p ≡ ok (pending d)))
answers (err e) = inl (e, refl)
answers (ok (ready id)) = inr (inl (id, refl))
answers (ok (pending d)) = inr (inr (d, refl))

pub provided-until_ready :
    {R S E : Type 0} (into : E → ⊥) (poll : R → S → Result Poll E × S) (readings : List R) (s : S)
    → provided_next_id into (until_ready poll readings s)
      ≡ first_ready (λ r s. provided_poll_id into (poll r s)) readings s
unfolding provided_next_id provided_poll_id
provided-until_ready into poll [] s = refl
provided-until_ready into poll (r ∷ rest) s = elim (answers (poll r s).0) [
  | inl (e, h) ↦ absurd (into e)
  | inr (inl (id, h)) ↦ rw (h, until_ready, first_ready, provided_next_id, provided_poll_id) refl
  | inr (inr (d, h)) ↦
      rw (h, until_ready, first_ready, provided_next_id, provided_poll_id)
        (provided-until_ready into poll rest (poll r s).1)
]
