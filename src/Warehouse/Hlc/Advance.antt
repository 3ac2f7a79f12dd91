-- ===== src/Warehouse/Hlc/Advance.antt =====
-- Tick and Merge go forward, as long as the wall component stays inside int64.
use local_first_architecture.Base.{
  ℕ, ◌^◌, ◌<◌, ◌≤◌, Ordering, String, ◌≡◌, ◌⊎◌, inl, inr, ◌&&◌, ltb, nat_beq, arith, Bool-cases,
}
use local_first_architecture.Base.Int64.{Int64, max_int, add_int}
use local_first_architecture.Warehouse.Hlc.{Hlc, compare, bump, tick, max_of, merge}

-- A reading whose carry does not overflow.
abbrev pub IsWithin : Hlc → Type 0
IsWithin h = (h.wall < max_int) × (h.counter < 2 ^ 32)

-- An event that is emitted after another one sorts after it, whatever the wall clock says, also where
-- the counter is saturated; only the last wall that an int64 has is excepted.
pub tick-After :
    (prev : Hlc) (now_millis : Int64) (node : String)
    → IsWithin prev
    → compare prev (tick prev now_millis node) ≡ Ordering.lt
unfolding compare tick bump add_int
tick-After prev now_millis node h = ground arith

-- A reading that lies at or before a wall and a counter.
abbrev IsUpTo : Hlc → Int64 → ℕ → Type 0
IsUpTo h wall counter = (h.wall < wall) ⊎ ((h.wall ≡ wall) × (h.counter ≤ counter))

bump-After :
    (h : Hlc) (wall : Int64) (counter : ℕ) (node : String)
    → IsUpTo h wall counter
    → wall < max_int
    → counter < 2 ^ 32
    → compare h (bump wall counter node) ≡ Ordering.lt
unfolding compare bump add_int
bump-After h wall counter node up small fits = ground arith

wall-After :
    (h : Hlc) (wall : Int64) (node : String)
    → h.wall < wall
    → compare h (record { wall = wall; counter = 0; node = node }) ≡ Ordering.lt
unfolding compare
wall-After h wall node up = ground arith

-- A reading that is a step past a wall and a counter that both readings lie before.
abbrev IsStep : Hlc → Hlc → String → Hlc → Int64 → ℕ → Type 0
IsStep local remote node m wall counter =
    (m ≡ bump wall counter node)
    × IsUpTo local wall counter
    × IsUpTo remote wall counter
    × (wall < max_int)
    × (counter < 2 ^ 32)

-- Where Merge takes its reading from: the wall clock, or a step past both readings.
merge-cases :
    (local remote : Hlc) (now_millis : Int64) (node : String)
    → IsWithin local
    → IsWithin remote
    → ((merge local remote now_millis node ≡ record { wall = now_millis; counter = 0; node = node })
        × (local.wall < now_millis)
        × (remote.wall < now_millis))
      ⊎ ((wall : Int64) × (counter : ℕ) × IsStep local remote node
            (merge local remote now_millis node)
            wall
            counter)
unfolding merge
merge-cases local remote now_millis node h k =
    elim (Bool-cases (ltb local.wall now_millis && ltb remote.wall now_millis)) [
      | inl late ↦ inl (ground (arith, late))
      | inr early ↦ elim (Bool-cases (nat_beq local.wall remote.wall)) [
        | inl same ↦
            inr (local.wall, max_of local.counter remote.counter, ground (arith, early, same))
        | inr differ ↦ elim (Bool-cases (ltb local.wall remote.wall)) [
          | inl ahead ↦ inr (remote.wall, remote.counter, ground (arith, early, differ, ahead))
          | inr behind ↦ inr (local.wall, local.counter, ground (arith, early, differ, behind))
        ]
      ]
    ]

-- A reading that is merged sorts after the local and after the remote one, whatever the wall clock
-- says, also where a counter is saturated; only the last wall that an int64 has is excepted.
pub merge-After :
    (local remote : Hlc) (now_millis : Int64) (node : String)
    → IsWithin local
    → IsWithin remote
    → (compare local (merge local remote now_millis node) ≡ Ordering.lt)
      × (compare remote (merge local remote now_millis node) ≡ Ordering.lt)
merge-After local remote now_millis node h k = elim (merge-cases local remote now_millis node h k) [
  | inl (new, l, r) ↦
      rw new (wall-After local now_millis node l, wall-After remote now_millis node r)
  | inr (wall, counter, (new, l, r, small, fits)) ↦ rw new (
    bump-After local wall counter node l small fits,
    bump-After remote wall counter node r small fits,
  )
]
