-- ===== src/Base/Order.antt =====
-- Three-way comparison, as Go's `cmp.Compare` and the hand-written `Compare` methods return it.
-- Go compares strings by their bytes, which on UTF-8 is the order of the code points.
use Prim.Native.Nat.{compare as compare_ℕ, Ordering}
use Prim.Native.String.compare
use Prim.Native.String.{String, [], ◌∷◌, compare}
use mathlib.Core.Path.{◌≡◌}
use mathlib.Core.Bool.{Bool, true, false}
use native.Mathlib.Omega.{arith}
use text.Mathlib.TextEquality.{path_by_compare, codes_equal}
use text.Mathlib.TextPositions.{compare_refl}

abbrev pub flip : Ordering → Ordering
flip Ordering.lt = Ordering.gt
flip Ordering.eq = Ordering.eq
flip Ordering.gt = Ordering.lt

abbrev pub is_lt : Ordering → Bool
is_lt Ordering.lt = true
is_lt _ = false

-- The first difference decides.
abbrev pub or_else : Ordering → Ordering → Ordering
or_else Ordering.lt r = Ordering.lt
or_else Ordering.eq r = r
or_else Ordering.gt r = Ordering.gt

-- The laws of a strict total order.
pub record IsTotal {ℓ} {A : Type ℓ} (cmp : A → A → Ordering) : Type ℓ where
  pub cmp_self : (a : A) → cmp a a ≡ Ordering.eq
  pub cmp_eq : (a b : A) → cmp a b ≡ Ordering.eq → a ≡ b
  pub cmp_flip : (a b : A) → cmp b a ≡ flip (cmp a b)
  pub cmp_trans :
      (a b c : A) → cmp a b ≡ Ordering.lt → cmp b c ≡ Ordering.lt → cmp a c ≡ Ordering.lt

pub nat-IsTotal : IsTotal compare_ℕ
nat-IsTotal = record {
  cmp_self = λ a. ground arith;
  cmp_eq = λ a b h. ground arith;
  cmp_flip = λ a b. ground arith;
  cmp_trans = λ a b c h k. ground arith;
}

-- Two orders joined: the second decides where the first finds no difference.
module _ {ℓ} {X A B : Type ℓ} (c : A → A → Ordering) (d : B → B → Ordering) where
  abbrev pub lex : (X → A) → (X → B) → X → X → Ordering
  lex f g x y = or_else (c (f x) (f y)) (d (g x) (g y))

module _ {ℓ} {X A B : Type ℓ} {c : A → A → Ordering} {d : B → B → Ordering} where
  pub lex-IsTotal :
      IsTotal c
      → IsTotal d
      → (f : X → A) (g : X → B) → ((x y : X) → f x ≡ f y → g x ≡ g y → x ≡ y)
      → IsTotal (lex c d f g)
  lex-IsTotal tc td f g inj = record {
    cmp_self = λ x. ground (arith, tc.cmp_self (f x), td.cmp_self (g x));
    cmp_eq = λ x y h. ground (arith, tc.cmp_eq (f x) (f y), td.cmp_eq (g x) (g y), inj x y);
    cmp_flip = λ x y. ground (arith, tc.cmp_flip (f x) (f y), td.cmp_flip (g x) (g y));
    cmp_trans = λ x y z h k. ground (
      arith,
      tc.cmp_trans (f x) (f y) (f z),
      td.cmp_trans (g x) (g y) (g z),
      tc.cmp_eq (f x) (f y),
      tc.cmp_eq (f y) (f z),
    );
  }

text_flip : (s t : String) → compare t s ≡ flip (compare s t)
text_flip [] [] = compare.nil-nil
text_flip [] (d ∷ t) = ground (arith, compare.nil-cons d t, compare.cons-nil d t)
text_flip (c ∷ s) [] = ground (arith, compare.nil-cons c s, compare.cons-nil c s)
text_flip (c ∷ s) (d ∷ t) =
    ground (arith, compare.cons-cons c d s t, compare.cons-cons d c t s, text_flip s t)

text_trans :
    (s t u : String)
    → compare s t ≡ Ordering.lt
    → compare t u ≡ Ordering.lt
    → compare s u ≡ Ordering.lt
text_trans [] [] u h k = k
text_trans [] (d ∷ t) [] h k = ground (arith, compare.cons-nil d t)
text_trans [] (d ∷ t) (e ∷ u) h k = compare.nil-cons e u
text_trans (c ∷ s) [] u h k = ground (arith, compare.cons-nil c s)
text_trans (c ∷ s) (d ∷ t) [] h k = ground (arith, compare.cons-nil d t)
text_trans (c ∷ s) (d ∷ t) (e ∷ u) h k = ground (
  arith,
  compare.cons-cons c d s t,
  compare.cons-cons d e t u,
  compare.cons-cons c e s u,
  text_trans s t u,
  codes_equal c d,
  codes_equal d e,
)

pub text-IsTotal : IsTotal compare
text-IsTotal = record {
  cmp_self = compare_refl;
  cmp_eq = path_by_compare;
  cmp_flip = text_flip;
  cmp_trans = text_trans;
}
