-- ===== src/Server/Streams/Chunks.antt =====
-- Halves of ascending lists, and chunks without their streams.
use ferroid.Common.{
  ℕ, ◌+◌, ◌≤◌, ◌<◌, ◌≡◌, ◌≢◌, inl, inr, refl, ap, arith, Bool, Bool-cases, List, [], ◌∷◌, ◌++◌, map,
  All, All-append, All-mono, IsAscending,
}
use ferroid.Server.Pool.Worker.Serves.{bytes_of}
use ferroid.Server.Stream.{forward}
use ferroid.Server.Stream.Unique.{IsDistinct}

pub All-front {ℓ κ} : {A : Type ℓ} (P : A → Type κ) (xs ys : List A) → All P (xs ++ ys) → All P xs
All-front P [] ys all = tt
All-front P (x ∷ xs) ys (h, all) = (h, All-front P xs ys all)

pub All-back {ℓ κ} : {A : Type ℓ} (P : A → Type κ) (xs ys : List A) → All P (xs ++ ys) → All P ys
All-back P [] ys all = all
All-back P (x ∷ xs) ys (h, all) = All-back P xs ys all

pub IsAscending-front : (xs ys : List ℕ) → IsAscending (xs ++ ys) → IsAscending xs
IsAscending-front [] ys asc = tt
IsAscending-front (x ∷ xs) ys (above, asc) = (All-front _ xs ys above, IsAscending-front xs ys asc)

pub IsAscending-back : (xs ys : List ℕ) → IsAscending (xs ++ ys) → IsAscending ys
IsAscending-back [] ys asc = asc
IsAscending-back (x ∷ xs) ys (above, asc) = IsAscending-back xs ys asc

-- A number between the two halves of an ascending list.
pub split_at :
    (low top : ℕ) (xs ys : List ℕ)
    → low ≤ top
    → IsAscending (xs ++ ys)
    → All (λ x. low < x) (xs ++ ys)
    → All (λ x. x ≤ top) (xs ++ ys)
    → (mid : ℕ) × (low ≤ mid) × (mid ≤ top) × All (λ x. x ≤ mid) xs × All (λ y. mid < y) ys
split_at low top [] ys le asc above below = (low, omega arith, le, tt, above)
split_at low top (x ∷ xs) ys le (first, asc) (lt, above) (b, below) =
    let (mid, low', top', below', above') = split_at x top xs ys b asc first below in
    (mid, omega arith, top', (low', below'), above')

-- A client gets the messages from the first on.
pub forward-front :
    (resp_fails : ℕ → Bool) (forwarded : ℕ) (chunks : List (List ℕ))
    → (front : List (List ℕ)) × (rest : List (List ℕ)) × (chunks ≡ front ++ rest)
      × ((forward resp_fails forwarded (map bytes_of chunks)).0 ≡ map bytes_of front)
unfolding forward
forward-front resp_fails forwarded [] = ([], [], refl, refl)
forward-front resp_fails forwarded (c ∷ chunks) = elim (Bool-cases (resp_fails forwarded)) [
  | inl fails ↦ ([], c ∷ chunks, refl, rw (fails, forward) refl)
  | inr works ↦
      let (front, rest, e, got) = forward-front resp_fails (forwarded + 1) chunks in
      (
        c ∷ front,
        rest,
        ap (λ (t : List (List ℕ)). c ∷ t) e,
        rw (works, forward) (ap (λ (t : List (List ℕ)). bytes_of c ∷ t) got),
      )
]

pub IsAscending-IsDistinct : (xs : List ℕ) → IsAscending xs → IsDistinct xs
IsAscending-IsDistinct [] asc = tt
IsAscending-IsDistinct (x ∷ xs) (above, asc) =
    (All-mono _ _ xs (λ y lt e. omega arith) above, IsAscending-IsDistinct xs asc)

pub IsDistinct-join :
    (xs ys : List ℕ)
    → IsDistinct xs
    → IsDistinct ys
    → All (λ x. All (λ y. x ≢ y) ys) xs
    → IsDistinct (xs ++ ys)
IsDistinct-join [] ys dx dy apart = dy
IsDistinct-join (x ∷ xs) ys (first, dx) dy (own, apart) =
    (All-append _ xs ys first own, IsDistinct-join xs ys dx dy apart)

-- The chunks without their streams.
abbrev pub chunks_of : List (ℕ × List ℕ) → List (List ℕ)
chunks_of delivered = map (λ (d : ℕ × List ℕ). d.1) delivered

pub chunks_of-append :
    (delivered : List (ℕ × List ℕ)) (i : ℕ) (msgs : List (List ℕ))
    → chunks_of (delivered ++ map (λ (msg : List ℕ). (i, msg)) msgs) ≡ chunks_of delivered ++ msgs
chunks_of-append [] i [] = refl
chunks_of-append [] i (m ∷ msgs) = ap (λ (t : List (List ℕ)). m ∷ t) (chunks_of-append [] i msgs)
chunks_of-append (d ∷ delivered) i msgs =
    ap (λ (t : List (List ℕ)). d.1 ∷ t) (chunks_of-append delivered i msgs)

pub map-bytes_of-append :
    (xs ys : List (List ℕ)) → map bytes_of (xs ++ ys) ≡ map bytes_of xs ++ map bytes_of ys
map-bytes_of-append [] ys = refl
map-bytes_of-append (x ∷ xs) ys =
    ap (λ (t : List (List ℕ)). bytes_of x ∷ t) (map-bytes_of-append xs ys)
