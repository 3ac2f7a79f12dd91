-- ===== src/LocalFirst/Clock/Examples.antt =====
-- A clock whose wall jumps backwards, and the ends of the integer ranges.
use local_first_architecture.Base.{◌-◌, ◌^◌, ◌≡◌, refl, Ordering, false, List, [], ◌∷◌, arith}
use local_first_architecture.Base.Int64.{min_int, plus, sub_int}
use local_first_architecture.LocalFirst.Clock.{
  Hlc, Clock, Call, calls_now, observes, compare, before, now, advance, lift, lift_all, issued,
}
use local_first_architecture.LocalFirst.Clock.Order.{by_parts, compare-by_parts}
use local_first_architecture.LocalFirst.Clock.Advance.{Rises, clock-Rises}

abbrev early : Hlc
early = record { wall = plus 5; logical = 7; node_id = "b" }

abbrev late : Hlc
late = record { wall = plus 9; logical = 0; node_id = "a" }

compare-by_parts_example : compare early late ≡ by_parts early late
compare-by_parts_example = compare-by_parts early late (omega arith) (omega arith)

abbrev clock_a : Clock
clock_a = record { node_id = "a"; last = late }

abbrev readings : List Call
readings = calls_now (plus 9) ∷ calls_now (plus 1) ∷ observes (plus 2) early ∷ []

clock-Rises_example : Rises late (issued clock_a readings)
clock-Rises_example =
    clock-Rises clock_a readings 7 7 (omega arith) (omega arith) (omega arith) (omega arith)

-- The smallest wall sorts behind every positive one: the difference overflows.
overflows : compare (record late { wall = min_int }) late ≡ Ordering.gt
unfolding compare sub_int
overflows = refl

-- Past the last counter the clock steps back.
steps_back :
    before
      (record late { logical = 2 ^ 32 - 1 })
      (now (record clock_a { last = record late { logical = 2 ^ 32 - 1 } }) (plus 9)).last
    ≡ false
unfolding before compare sub_int now advance lift lift_all
steps_back = refl
