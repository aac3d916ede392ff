-- ===== src/Time/MonoClock/Rising.antt =====
-- A reader of the clock never sees it go back.
use native.Mathlib.Nat.{mod-eq_of_lt, le_refl, le-div_iff_mul-le, div-mul-le_self}
use ferroid.Common.{
  ℕ, zero, suc, ◌+◌, ◌/◌, ◌%◌, ◌^◌, ◌≤◌, ◌<◌, ◌≡◌, refl, ap, arith, List, [], ◌∷◌, ◌++◌, length,
  length-append, All, All-append, All-mono, All-get_or, get_or, map,
}
use ferroid.Time.MonoClock.{
  Phase, sleeping, measured, Clock, Reaches, begun, passes, wakes, stores, loads, current_millis,
}

-- No number is below one that stands before it.
abbrev pub IsRising : List ℕ → Type 0
IsRising [] = Unit
IsRising (x ∷ xs) = All (λ y. x ≤ y) xs × IsRising xs

-- No number is above one that stands before it.
abbrev pub IsFalling : List ℕ → Type 0
IsFalling [] = Unit
IsFalling (x ∷ xs) = All (λ y. y ≤ x) xs × IsFalling xs

IsRising-append :
    (xs : List ℕ) (v : ℕ) → IsRising xs → All (λ x. x ≤ v) xs → IsRising (xs ++ v ∷ [])
IsRising-append [] v h below = (tt, tt)
IsRising-append (x ∷ xs) v (first, h) (le, below) =
    (All-append _ xs (v ∷ []) first (le, tt), IsRising-append xs v h below)

-- Later places hold no lower values.
rising_places :
    (xs : List ℕ) (i j : ℕ) → IsRising xs → i ≤ j → j < length xs → get_or xs i 0 ≤ get_or xs j 0
rising_places [] i j h le within = absurd (omega arith)
rising_places (x ∷ xs) zero zero h le within = omega arith
rising_places (x ∷ xs) (suc i) zero h le within = absurd (omega arith)
rising_places (x ∷ xs) zero (suc j) (first, h) le within =
    All-get_or (λ y. x ≤ y) xs j 0 first (omega arith)
rising_places (x ∷ xs) (suc i) (suc j) (first, h) le within =
    rising_places xs i j h (omega arith) (omega arith)

get_or-append : (xs ys : List ℕ) (i : ℕ) → i < length xs → get_or (xs ++ ys) i 0 ≡ get_or xs i 0
get_or-append [] ys i h = absurd (omega arith)
get_or-append (x ∷ xs) ys zero h = refl
get_or-append (x ∷ xs) ys (suc i) h = get_or-append xs ys i (omega arith)

-- What is stored next is not below what the counter has held.
abbrev IsUpcoming : List ℕ → ℕ → Phase → Type 0
IsUpcoming history e (sleeping tick) = All (λ v. v ≤ tick) history
IsUpcoming history e (measured now_ms) = All (λ v. v ≤ now_ms) history × (now_ms ≤ e)

record Holds (c : Clock) (read : List ℕ) : Type 0 where
  rising : IsRising c.history
  past : All (λ v. v ≤ c.elapsed) c.history
  next : IsUpcoming c.history c.elapsed c.phase
  place : c.seen < length c.history
  falling : IsFalling read
  below : All (λ v. v ≤ get_or c.history c.seen 0) read

weaker : (m n : ℕ) (xs : List ℕ) → m ≤ n → All (λ v. v ≤ m) xs → All (λ v. v ≤ n) xs
weaker m n xs h all = All-mono (λ v. v ≤ m) (λ v. v ≤ n) xs (λ v le. omega arith) all

later_phase :
    (history : List ℕ) (e e' : ℕ) (p : Phase)
    → e ≤ e'
    → IsUpcoming history e p
    → IsUpcoming history e' p
later_phase history e e' (sleeping tick) h next = next
later_phase history e e' (measured now_ms) h (all, le) = (all, omega arith)

-- While the milliseconds since the start fit the counter.
Reaches-Holds : (c : Clock) (read : List ℕ) → Reaches c read → c.elapsed + 1 < 2 ^ 64 → Holds c read
Reaches-Holds _ _ begun fits = record {
  rising = (tt, tt);
  past = (omega arith, tt);
  next = (omega arith, tt);
  place = omega arith;
  falling = tt;
  below = tt;
}
Reaches-Holds _ _ (passes c read e r h) fits =
    let i = Reaches-Holds c read r (omega arith) in
    record {
      rising = i.rising;
      past = weaker c.elapsed e c.history h i.past;
      next = later_phase c.history c.elapsed e c.phase h i.next;
      place = i.place;
      falling = i.falling;
      below = i.below;
    }
Reaches-Holds _ _ (wakes e tick history seen read r h) fits =
    let i = Reaches-Holds _ read r fits in
    record {
      rising = i.rising;
      past = i.past;
      next =
          rw (mod-eq_of_lt {n = e} {m = 2 ^ 64} (omega arith))
            (weaker tick e history h i.next, omega arith);
      place = i.place;
      falling = i.falling;
      below = i.below;
    }
Reaches-Holds _ _ (stores e now_ms history seen read r) fits =
    let i = Reaches-Holds _ read r fits in
    let (all, le) : All (λ v. v ≤ now_ms) history × (now_ms ≤ e) = i.next in
    let one_more : (now_ms + 1) % 2 ^ 64 ≡ now_ms + 1 = mod-eq_of_lt (omega arith) in
    record {
      rising = IsRising-append history now_ms i.rising all;
      past = All-append _ history (now_ms ∷ []) i.past (le, tt);
      next = rw one_more (
          All-append _ history (now_ms ∷ []) (weaker now_ms (now_ms + 1) history (omega arith) all)
            (omega arith, tt));
      place = omega (arith, i.place, length-append history (now_ms ∷ []));
      falling = i.falling;
      below = rw (get_or-append history (now_ms ∷ []) seen i.place) i.below;
    }
Reaches-Holds _ _ (loads c read at r le within) fits =
    let i = Reaches-Holds c read r fits in
    let all : All (λ v. v ≤ get_or c.history at 0) read =
      weaker _ _ read (rising_places c.history c.seen at i.rising le within) i.below in
    record {
      rising = i.rising;
      past = i.past;
      next = i.next;
      place = within;
      falling = (all, i.falling);
      below = (omega arith, all);
    }

module _ (n offset e : ℕ) (some_unit : 0 < n) (fits : offset + e + 1 < 2 ^ 64) where
  no_wrap : (v : ℕ) → v ≤ e → current_millis n offset v ≡ (offset + v) / n
  unfolding current_millis
  no_wrap v h = ap (λ (t : ℕ). t / n) (mod-eq_of_lt (omega arith))

  current_millis_mono :
      (v w : ℕ) → v ≤ w → w ≤ e → current_millis n offset v ≤ current_millis n offset w
  current_millis_mono v w h le =
      rw (no_wrap v (omega arith), no_wrap w le)
        ((le-div_iff_mul-le some_unit).1 (omega (arith, div-mul-le_self (offset + v) n)))

  map-below :
      (w : ℕ) (read : List ℕ)
      → w ≤ e
      → All (λ v. v ≤ w) read
      → All (λ t. t ≤ current_millis n offset w) (map (current_millis n offset) read)
  map-below w [] le h = tt
  map-below w (v ∷ read) le (hv, h) = (current_millis_mono v w hv le, map-below w read le h)

  map-IsFalling :
      (read : List ℕ)
      → IsFalling read
      → All (λ v. v ≤ e) read
      → IsFalling (map (current_millis n offset) read)
  map-IsFalling [] f h = tt
  map-IsFalling (v ∷ read) (first, f) (hv, h) = (map-below v read hv first, map-IsFalling read f h)

-- Whatever the ticker and the reader do, and however old the values are that the loads return, as long
-- as the time fits 64 bits: what `current_millis` returns to one thread never goes back, and is never
-- ahead of the time.
pub current_millis-IsFalling :
    (c : Clock) (read : List ℕ) (n offset : ℕ)
    → Reaches c read
    → 0 < n
    → offset + c.elapsed + 1 < 2 ^ 64
    → IsFalling (map (current_millis n offset) read)
      × All (λ t. t ≤ (offset + c.elapsed) / n) (map (current_millis n offset) read)
current_millis-IsFalling c read n offset r some_unit fits =
    let i = Reaches-Holds c read r (omega arith) in
    let past : All (λ v. v ≤ c.elapsed) read =
      weaker _ _ read (All-get_or (λ v. v ≤ c.elapsed) c.history c.seen 0 i.past i.place) i.below in
    (
      map-IsFalling n offset c.elapsed some_unit fits read i.falling past,
      rw (← no_wrap n offset c.elapsed some_unit fits c.elapsed (le_refl _))
          (map-below n offset c.elapsed some_unit fits c.elapsed read (le_refl _) past),
    )
