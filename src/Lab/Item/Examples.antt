-- ===== src/Lab/Item/Examples.antt =====
-- The item of the samples, merged in two orders.
use mathlib.Core.List.{Perm, Permᴰ}
use local_first_architecture.Base.{◌≡◌, refl, ◌↔◌, true, false}
use local_first_architecture.Base.Int64.{minus, add_int, sub_int, neg_int}
use local_first_architecture.Base.Table.{insert, lookup}
use local_first_architecture.Lab.Item.{new_item_state, apply, fold, quantity, maps_equal, equal}
use local_first_architecture.Lab.Samples.{at_a, at_b, at_a-IsStamped}
use local_first_architecture.Lab.Item.Convergence.{SameState, fold-perm}
use local_first_architecture.Lab.Item.Quantity.{total_delta, quantity-fold}
use local_first_architecture.Lab.Item.Equal.{equal_iff, fold-IsState, fold-equal}

same_events : Perm at_a at_b
same_events = ∣ Permᴰ.swap refl refl ∣₁

fold-perm_example : SameState (fold new_item_state at_a) (fold new_item_state at_b)
fold-perm_example = fold-perm new_item_state at_a at_b at_a-IsStamped same_events

fold-equal_example : equal (fold new_item_state at_a) (fold new_item_state at_b) ≡ true
fold-equal_example = fold-equal at_a at_b at_a-IsStamped same_events

-- Two replicas with counters of two nodes and a register each.
equal_iff_example :
    (equal (fold new_item_state at_a) (fold new_item_state at_b) ≡ true)
    ↔ SameState (fold new_item_state at_a) (fold new_item_state at_b)
equal_iff_example =
    equal_iff (fold new_item_state at_a) (fold new_item_state at_b)
      (fold-IsState new_item_state at_a (record { pos_map = tt; neg_map = tt }))
      (fold-IsState new_item_state at_b (record { pos_map = tt; neg_map = tt }))

told_apart : equal (fold new_item_state at_a) new_item_state ≡ false
unfolding equal maps_equal fold apply insert lookup
told_apart = refl

quantity-fold_example :
    quantity (fold new_item_state at_a) ≡ add_int (quantity new_item_state) (total_delta at_a)
quantity-fold_example = quantity-fold new_item_state at_a

-- An overdrawn item shows a negative quantity.
overdrawn : quantity (fold new_item_state at_a) ≡ minus 3
unfolding quantity fold apply add_int sub_int neg_int insert lookup
overdrawn = refl
