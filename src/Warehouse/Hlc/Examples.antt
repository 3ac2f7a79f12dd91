-- ===== src/Warehouse/Hlc/Examples.antt =====
-- A saturated counter, and a wall clock that has stepped back.
use local_first_architecture.Base.{ℕ, Ordering, ◌≡◌, refl, arith}
use local_first_architecture.Base.Int64.{plus, add_int}
use local_first_architecture.Warehouse.Hlc.{Hlc, compare, tick, merge, bump, max_uint32}
use local_first_architecture.Warehouse.Hlc.Advance.{tick-After, merge-After}

abbrev last_of : ℕ → Hlc
last_of t = record { wall = plus t; counter = max_uint32; node = "a" }

carried : tick (last_of 9) (plus 4) "b" ≡ record { wall = plus 10; counter = 0; node = "b" }
unfolding tick bump add_int
carried = refl

tick-After_example : compare (last_of 9) (tick (last_of 9) (plus 4) "b") ≡ Ordering.lt
tick-After_example = tick-After (last_of 9) (plus 4) "b" (ground arith, ground arith)

merge-After_example :
    (compare (last_of 9) (merge (last_of 9) (last_of 8) (plus 4) "b") ≡ Ordering.lt)
    × (compare (last_of 8) (merge (last_of 9) (last_of 8) (plus 4) "b") ≡ Ordering.lt)
merge-After_example =
    merge-After (last_of 9) (last_of 8) (plus 4) "b" (ground arith, ground arith)
      (ground arith, ground arith)
