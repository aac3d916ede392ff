-- ===== src/Tests/Clocks.antt =====
-- The monotonic clock.
use ferroid.Common.{◌+◌, ◌/◌, ◌≤◌, ◌≡◌, refl, arith, [], ◌∷◌, All, map, some}
use ferroid.Time.MonoClock.{
  Clock, Reaches, begun, passes, wakes, stores, loads, current_millis, with_epoch, base_system_now,
  twitter_epoch, initial, sleeping,
}
use ferroid.Time.MonoClock.Rising.{IsFalling, current_millis-IsFalling}

-- The ticker stores 3; a reader loads it, and again while the time passes.
abbrev later : Clock
later = record { elapsed = 9; phase = sleeping 4; history = 0 ∷ 3 ∷ []; seen = 1 }

later_reached : Reaches later (3 ∷ 3 ∷ 0 ∷ [])
later_reached =
    let one = loads initial [] 0 begun (omega arith) (omega arith) in
    let ticked =
      stores 3 3 (0 ∷ []) 0 (0 ∷ []) (
        wakes 3 0 (0 ∷ []) 0 (0 ∷ []) (passes initial (0 ∷ []) 3 one (omega arith))
          (omega arith)) in
    let two = loads _ (0 ∷ []) 1 ticked (omega arith) (omega arith) in
    let three = loads _ (3 ∷ 0 ∷ []) 1 two (omega arith) (omega arith) in
    passes _ (3 ∷ 3 ∷ 0 ∷ []) 9 three (omega arith)

current_millis-IsFalling_example :
    IsFalling (map (current_millis 2 100) (3 ∷ 3 ∷ 0 ∷ []))
    × All (λ t. t ≤ (100 + later.elapsed) / 2) (map (current_millis 2 100) (3 ∷ 3 ∷ 0 ∷ []))
current_millis-IsFalling_example =
    current_millis-IsFalling later (3 ∷ 3 ∷ 0 ∷ []) 2 100 later_reached (omega arith) (omega arith)

offset_of_twitter : with_epoch (base_system_now (some 1288834974700)) twitter_epoch ≡ 43
unfolding with_epoch base_system_now
offset_of_twitter = refl
