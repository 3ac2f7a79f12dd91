-- ===== src/Lab/Clock/Monotonic.antt =====
-- A clock never runs backwards, as long as its wall component stays inside int64.
use local_first_architecture.Base.{
  ℕ, ◌+◌, ◌^◌, ◌-◌, ◌≤◌, ◌<◌, ◌≡◌, true, ◌⊎◌, List, [], ◌∷◌, All, length, arith,
}
use local_first_architecture.Base.Int64.{Int64}
use local_first_architecture.Lab.Clock.{
  Hlc, Clock, before, now, observe, tick, pass, Call, calls_now, observes, step, issued,
}

-- `p` is passed by `q` on the wall and the counter alone.
abbrev Passes : Hlc → Hlc → Type 0
Passes p q = (p.wall < q.wall) ⊎ ((p.wall ≡ q.wall) × (p.logical < q.logical))

-- A timestamp with a wall of at most `b`, and a counter inside uint32.
abbrev pub IsWithin : ℕ → Hlc → Type 0
IsWithin b h = (h.wall ≤ b) × (h.logical < 2 ^ 32)

abbrev pub CallIsWithin : ℕ → Call → Type 0
CallIsWithin b (calls_now reading) = reading ≤ b
CallIsWithin b (observes reading remote) = (reading ≤ b) × IsWithin b remote

Passes-before : (p q : Hlc) → Passes p q → before p q ≡ true
unfolding before
Passes-before p q h = ground arith

module _ (next prior : Hlc) {b : ℕ} (w : IsWithin b prior) (small : b < 2 ^ 64 - 1) where
  pass-Passes : Passes prior (pass next prior)
  unfolding pass
  pass-Passes = ground arith

  -- Passing a second timestamp keeps the first one passed.
  pass_keeps : (p : Hlc) → Passes p next → Passes p (pass next prior)
  unfolding pass
  pass_keeps p q = ground arith

  -- It moves the wall by a millisecond past the bound at most, and never back.
  pass-IsWithin : IsWithin (b + 1) next → IsWithin (b + 1) (pass next prior)
  unfolding pass
  pass-IsWithin v = ground arith

  pass-wall : next.wall ≤ (pass next prior).wall
  unfolding pass
  pass-wall = ground arith

abbrev start : Clock → Int64 → Hlc
start c reading = record { wall = reading; logical = 0; node = c.id }

module _ (c : Clock) (reading : Int64) (floor : Hlc) {b : ℕ} (w : IsWithin b c.last) where
  module _ (f : IsWithin b floor) (small : b < 2 ^ 64 - 1) where
    tick-Passes :
        Passes c.last (tick c reading floor).last × Passes floor (tick c reading floor).last
    unfolding tick
    tick-Passes =
        let next = pass (start c reading) c.last in
        (
          pass_keeps next floor f small c.last (pass-Passes (start c reading) c.last w small),
          pass-Passes next floor f small,
        )

    tick-IsWithin : reading ≤ b → IsWithin (b + 1) (tick c reading floor).last
    unfolding tick
    tick-IsWithin r =
        pass-IsWithin (pass (start c reading) c.last) floor f small
          (pass-IsWithin (start c reading) c.last w small (omega arith))

    tick-wall : reading ≤ (tick c reading floor).last.wall
    unfolding tick
    tick-wall =
        let next = pass (start c reading) c.last in
        omega (arith, pass-wall (start c reading) c.last w small, pass-wall next floor f small)

no_floor : (c : Clock) (b : ℕ) → 2 ^ 63 ≤ b → IsWithin b (start c (2 ^ 63))
no_floor c b h = omega arith

-- `Observe` returns a timestamp after the clock's last one and after the peer's, which is no
-- earlier than the wall reading and at most one millisecond above the latest of the three walls.
-- The condition is that the walls are below math.MaxInt64 and the counters inside uint32.
pub observe_after :
    (c : Clock) (reading : Int64) (remote : Hlc) (b : ℕ)
    → IsWithin b c.last
    → IsWithin b remote
    → reading ≤ b
    → b < 2 ^ 64 - 1
    → let t = (observe c reading remote).last in
      (before c.last t ≡ true) × (before remote t ≡ true) × (reading ≤ t.wall) × (t.wall ≤ b + 1)
unfolding observe
observe_after c reading remote b w f r small =
    let t = (tick c reading remote).last in
    let passes = tick-Passes c reading remote w f small in
    (
      Passes-before c.last t passes.0,
      Passes-before remote t passes.1,
      tick-wall c reading remote w f small,
      (tick-IsWithin c reading remote w f small r).0,
    )

pub now_after :
    (c : Clock) (reading : Int64) (b : ℕ)
    → IsWithin b c.last
    → reading ≤ b
    → 2 ^ 63 ≤ b
    → b < 2 ^ 64 - 1
    → (before c.last (now c reading).last ≡ true) × IsWithin (b + 1) (now c reading).last
unfolding now
now_after c reading b w r low small =
    let f = no_floor c b low in
    (
      Passes-before c.last (tick c reading (start c (2 ^ 63))).last
          (tick-Passes c reading (start c (2 ^ 63)) w f small).0,
      tick-IsWithin c reading (start c (2 ^ 63)) w f small r,
    )

-- Each timestamp is after the one before it.
abbrev pub Rises : Hlc → List Hlc → Type 0
Rises h [] = Unit
Rises h (x ∷ xs) = (before h x ≡ true) × Rises x xs

pub step_after :
    (c : Clock) (x : Call) (b : ℕ)
    → IsWithin b c.last
    → CallIsWithin b x
    → 2 ^ 63 ≤ b
    → b < 2 ^ 64 - 1
    → (before c.last (step c x).last ≡ true) × IsWithin (b + 1) (step c x).last
step_after c (calls_now reading) b w h low small = now_after c reading b w h low small
step_after c (observes reading remote) b w h low small = (
  (observe_after c reading remote b w h.1 h.0 small).0,
  unfold observe in tick-IsWithin c reading remote w h.1 small h.0,
)

CallIsWithin-le : (x : Call) (a b : ℕ) → a ≤ b → CallIsWithin a x → CallIsWithin b x
CallIsWithin-le (calls_now reading) a b h w = omega arith
CallIsWithin-le (observes reading remote) a b h w = omega arith

-- Over any history of `Now` and `Observe` calls, whatever the wall clock and the peers read (jumps
-- backwards included), every timestamp issued is strictly after the one before it. The condition
-- is that no wall that the clock meets comes closer to math.MaxInt64 than one millisecond a call.
pub issued-Rises :
    (c : Clock) (xs : List Call) (a b : ℕ)
    → IsWithin b c.last
    → All (CallIsWithin a) xs
    → a ≤ b
    → 2 ^ 63 ≤ b
    → b + length xs < 2 ^ 64
    → Rises c.last (issued c xs)
unfolding issued
issued-Rises c [] a b w h le low small = tt
issued-Rises c (x ∷ xs) a b w h le low small =
    let (later, w') = step_after c x b w (CallIsWithin-le x a b le h.0) low (omega arith) in
    (later, issued-Rises (step c x) xs a (b + 1) w' h.1 (omega arith) (omega arith) (omega arith))
