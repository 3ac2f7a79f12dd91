-- ===== src/LocalFirst/Clock/Advance.antt =====
-- A clock's timestamps rise, as long as its counter stays inside uint32.

use local_first_architecture.Base.{
  ℕ, ◌+◌, ◌%◌, ◌^◌, ◌≤◌, ◌<◌, ◌≡◌, ◌⊎◌, true, List, [], ◌∷◌, All, length, arith,
}
use local_first_architecture.Base.Int64.{Int64}
use local_first_architecture.LocalFirst.Clock.{
  Hlc, Clock, before, lift, lift_all, advance, now, observe, Call, calls_now, observes, step,
  issued,
}
use local_first_architecture.LocalFirst.Clock.Order.{compare-by_parts}

-- `p` is passed by `q` on the wall and the counter alone.
abbrev Passes : Hlc → Hlc → Type 0
Passes p q = (p.wall < q.wall) ⊎ ((p.wall ≡ q.wall) × (p.logical < q.logical))

-- A dated timestamp with a counter of at most `b`.
abbrev pub IsWithin : ℕ → Hlc → Type 0
IsWithin b h = (2 ^ 63 ≤ h.wall) × (h.wall < 2 ^ 64) × (h.logical ≤ b)

Passes-before :
    (b : ℕ) (p q : Hlc) → b < 2 ^ 32 → IsWithin b p → IsWithin b q → Passes p q → before p q ≡ true
unfolding before
Passes-before b p q small w v h =
    let same = compare-by_parts p q (omega arith) (omega arith) in rw same (ground arith)

module _ (next p : Hlc) {b : ℕ} (w : IsWithin b p) (small : b + 1 < 2 ^ 32) where
  carry : (p.logical + 1) % 2 ^ 32 ≡ p.logical + 1
  carry = omega arith

  lift-Passes : Passes p (lift next p)
  unfolding lift
  lift-Passes = ground (arith, carry)

  lift_keeps : (q : Hlc) → Passes q next → Passes q (lift next p)
  unfolding lift
  lift_keeps q h = ground (arith, carry)

  lift-IsWithin : IsWithin (b + 1) next → IsWithin (b + 1) (lift next p)
  unfolding lift
  lift-IsWithin v = ground (arith, carry)

  lift-wall : next.wall ≤ (lift next p).wall
  unfolding lift
  lift-wall = ground arith

abbrev start : Clock → Int64 → Hlc
start c physical = record { wall = physical; logical = 0; node_id = c.node_id }

-- The timestamp of an Observe is after the clock's last one and after the peer's, and no earlier than
-- the wall reading. The conditions are that all three are from 1970 on and that the counters are below
-- math.MaxUint32.
pub observe_past :
    (c : Clock) (physical : Int64) (remote : Hlc) (b : ℕ)
    → IsWithin b c.last
    → IsWithin b remote
    → 2 ^ 63 ≤ physical
    → physical < 2 ^ 64
    → b + 1 < 2 ^ 32
    → let t = (observe c physical remote).last in
      (before c.last t ≡ true) × (before remote t ≡ true) × (physical ≤ t.wall) × IsWithin (b + 1) t
unfolding observe advance lift_all
observe_past c physical remote b w v low high small =
    let first = lift (start c physical) remote in
    let t = lift first c.last in
    let near =
      lift-IsWithin first c.last w small
        (lift-IsWithin (start c physical) remote v small (omega arith)) in
    (
      Passes-before (b + 1) c.last t small (omega arith) near (lift-Passes first c.last w small),
      Passes-before (b + 1) remote t small (omega arith) near
          (lift_keeps first c.last w small remote (lift-Passes (start c physical) remote v small)),
      omega (arith, lift-wall (start c physical) remote v small, lift-wall first c.last w small),
      near,
    )

now_after :
    (c : Clock) (physical : Int64) (b : ℕ)
    → IsWithin b c.last
    → 2 ^ 63 ≤ physical
    → physical < 2 ^ 64
    → b + 1 < 2 ^ 32
    → (before c.last (now c physical).last ≡ true) × IsWithin (b + 1) (now c physical).last
unfolding now advance lift_all
now_after c physical b w low high small =
    let t = lift (start c physical) c.last in
    let near = lift-IsWithin (start c physical) c.last w small (omega arith) in
    (
      Passes-before (b + 1) c.last t small (omega arith) near
          (lift-Passes (start c physical) c.last w small),
      near,
    )

abbrev pub CallIsWithin : ℕ → Call → Type 0
CallIsWithin b (calls_now physical) = (2 ^ 63 ≤ physical) × (physical < 2 ^ 64)
CallIsWithin b (observes physical remote) =
    (2 ^ 63 ≤ physical) × (physical < 2 ^ 64) × IsWithin b remote

-- Each timestamp is after the one before it.
abbrev pub Rises : Hlc → List Hlc → Type 0
Rises h [] = Unit
Rises h (x ∷ xs) = (before h x ≡ true) × Rises x xs

step_after :
    (c : Clock) (x : Call) (a b : ℕ)
    → a ≤ b
    → IsWithin b c.last
    → CallIsWithin a x
    → b + 1 < 2 ^ 32
    → (before c.last (step c x).last ≡ true) × IsWithin (b + 1) (step c x).last
step_after c (calls_now physical) a b le w h small = now_after c physical b w h.0 h.1 small
step_after c (observes physical remote) a b le w h small =
    let r = observe_past c physical remote b w (omega (arith, h.2)) h.0 h.1 small in (r.0, r.3)

-- Over any history of Now and Observe calls, every timestamp issued is strictly after the one before
-- it, whatever way the wall clock jumps. The condition is that the readings and the peers' walls are
-- from 1970 on, and that no counter that the clock meets comes closer to math.MaxUint32 than one a
-- call.
pub clock-Rises :
    (c : Clock) (xs : List Call) (a b : ℕ)
    → IsWithin b c.last
    → All (CallIsWithin a) xs
    → a ≤ b
    → b + length xs < 2 ^ 32
    → Rises c.last (issued c xs)
unfolding issued
clock-Rises c [] a b w h le small = tt
clock-Rises c (x ∷ xs) a b w h le small =
    let (later, near) = step_after c x a b le w h.0 (omega arith) in
    (later, clock-Rises (step c x) xs a (b + 1) near h.1 (omega arith) (omega arith))
