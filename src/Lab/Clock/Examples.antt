-- ===== src/Lab/Clock/Examples.antt =====
-- A clock whose wall reading jumps backwards, and a saturated counter.
use local_first_architecture.Base.{◌+◌, ◌≤◌, ◌≡◌, refl, true, List, [], ◌∷◌, arith}
use local_first_architecture.Base.Int64.{plus}
use local_first_architecture.Lab.Clock.{
  Hlc, Clock, Call, calls_now, observes, max_uint32, before, observe, issued,
}
use local_first_architecture.Lab.Clock.Monotonic.{Rises, observe_after, issued-Rises}

abbrev saturated : Hlc
saturated = record { wall = plus 50; logical = max_uint32; node = "b" }

abbrev readings : List Call
readings = calls_now (plus 100) ∷ calls_now (plus 40) ∷ observes (plus 41) saturated ∷ []

abbrev clock_a : Clock
clock_a = record { id = "a"; last = record { wall = plus 0; logical = 0; node = "a" } }

carries :
    (observe clock_a (plus 10) saturated).last ≡ record { wall = plus 51; logical = 0; node = "a" }
unfolding observe
carries = refl

observe_after_example :
    let t = (observe clock_a (plus 10) saturated).last in
    (before clock_a.last t ≡ true)
    × (before saturated t ≡ true)
    × (plus 10 ≤ t.wall)
    × (t.wall ≤ plus 50 + 1)
observe_after_example =
    observe_after clock_a (plus 10) saturated (plus 50) (omega arith) (omega arith) (omega arith)
      (omega arith)

issued-Rises_example : Rises clock_a.last (issued clock_a readings)
issued-Rises_example =
    issued-Rises clock_a readings (plus 100) (plus 100) (omega arith) (omega arith) (omega arith)
      (omega arith) (omega arith)
