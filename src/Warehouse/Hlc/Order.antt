-- ===== src/Warehouse/Hlc/Order.antt =====
-- Compare orders the readings by wall, counter and node.
use Prim.Native.Nat.{compare as compare_ℕ}
use Prim.Native.String.{compare as compare_text}
use mathlib.Core.Path.{subst, fun_ext}
use local_first_architecture.Base.{
  ℕ, Ordering, String, ◌≡◌, sym, inl, inr, false, nat_beq, ◌==◌, text_comparable, arith, Bool-cases,
}
use local_first_architecture.Base.Order.{
  is_lt, or_else, IsTotal, nat-IsTotal, text-IsTotal, lex-IsTotal,
}
use local_first_architecture.Warehouse.Hlc.{Hlc, sign_of, compare}

-- By wall, then counter, then node.
abbrev by_parts : Hlc → Hlc → Ordering
by_parts h o =
    or_else (compare_ℕ h.wall o.wall)
      (or_else (compare_ℕ h.counter o.counter) (compare_text h.node o.node))

sign_of-text :
    (s t : String) → (s == t) ≡ false → sign_of (is_lt (compare_text s t)) ≡ compare_text s t
sign_of-text s t h = ground (arith, text_comparable.same_iff s t, text-IsTotal.cmp_eq s t)

compare-parts : (h o : Hlc) → compare h o ≡ by_parts h o
unfolding compare
compare-parts h o = elim (Bool-cases (nat_beq h.wall o.wall)) [
  | inr differ ↦ rw differ (ground arith)
  | inl same ↦ elim (Bool-cases (nat_beq h.counter o.counter)) [
    | inr differ ↦ rw (same, differ) (ground arith)
    | inl same' ↦ elim (Bool-cases (h.node == o.node)) [
      | inr differ ↦ rw (same, same', differ, sign_of-text h.node o.node differ) (ground arith)
      | inl equal ↦
          rw (same, same', equal)
            (ground (arith, text_comparable.same_iff h.node o.node, text-IsTotal.cmp_self h.node))
    ]
  ]
]

by_parts-IsTotal : IsTotal by_parts
by_parts-IsTotal =
    lex-IsTotal {X = Hlc} {B = ℕ × String} nat-IsTotal
      (lex-IsTotal nat-IsTotal text-IsTotal (λ p. p.0) (λ p. p.1) (λ x y h k. ground arith))
      (λ h. h.wall) (λ h. (h.counter, h.node)) (λ x y h k. ground arith)

-- Compare is a strict total order: it says 0 of equal readings alone, changing the sides changes the
-- sign, and "before" is transitive.
pub compare-IsTotal : IsTotal compare
compare-IsTotal = subst IsTotal (fun_ext λ h. fun_ext λ o. sym (compare-parts h o)) by_parts-IsTotal
