-- ===== src/LocalFirst/Clock/Order.antt =====
-- Where the difference of two walls does not overflow, Compare is the order by wall, counter and node.
use Prim.Native.Nat.{compare as compare_ℕ}
use Prim.Native.String.{compare as compare_text}
use local_first_architecture.Base.{
  ◌^◌, ◌≤◌, ◌<◌, Ordering, String, ◌≡◌, inl, inr, false, nat_beq, ◌==◌, text_comparable, arith,
  Bool-cases,
}
use local_first_architecture.Base.Int64.{Int64, plus, sub_int}
use local_first_architecture.Base.Order.{or_else, text-IsTotal}
use local_first_architecture.LocalFirst.Clock.{Hlc, sign, text_sign, compare}

-- By wall, then counter, then node.
abbrev pub by_parts : Hlc → Hlc → Ordering
by_parts h o =
    or_else (compare_ℕ h.wall o.wall)
      (or_else (compare_ℕ h.logical o.logical) (compare_text h.node_id o.node_id))

-- A wall from 1970 on, and a counter in its uint32.
abbrev pub IsDated : Hlc → Type 0
IsDated h = (2 ^ 63 ≤ h.wall) × (h.wall < 2 ^ 64) × (h.logical < 2 ^ 32)

sign-sub_int :
    (a b : Int64)
    → 2 ^ 63 ≤ a
    → a < 2 ^ 64
    → 2 ^ 63 ≤ b
    → b < 2 ^ 64
    → nat_beq a b ≡ false
    → sign (sub_int a b) ≡ compare_ℕ a b
unfolding sub_int
sign-sub_int a b la ha lb hb h = ground arith

text_sign-compare :
    (s t : String) → (s == t) ≡ false → text_sign (compare_text s t) ≡ compare_text s t
text_sign-compare s t h = ground (arith, text_comparable.same_iff s t, text-IsTotal.cmp_eq s t)

-- On timestamps from 1970 on, Compare is the order by wall, then counter, then node.
pub compare-by_parts : (h o : Hlc) → IsDated h → IsDated o → compare h o ≡ by_parts h o
unfolding compare
compare-by_parts h o a b = elim (Bool-cases (nat_beq h.wall o.wall)) [
  | inr differ ↦ rw (differ, sign-sub_int h.wall o.wall a.0 a.1 b.0 b.1 differ) (ground arith)
  | inl same ↦ elim (Bool-cases (nat_beq h.logical o.logical)) [
    | inr differ ↦
        rw
          (
            same,
            differ,
            sign-sub_int (plus h.logical) (plus o.logical) (omega arith) (omega arith) (omega arith)
                (omega arith) (ground arith),
          )
          (ground arith)
    | inl same' ↦ elim (Bool-cases (h.node_id == o.node_id)) [
      | inr differ ↦
          rw (same, same', differ, text_sign-compare h.node_id o.node_id differ) (ground arith)
      | inl equal ↦
          rw (same, same', equal)
            (ground (
              arith,
              text_comparable.same_iff h.node_id o.node_id,
              text-IsTotal.cmp_self h.node_id,
            ))
    ]
  ]
]
