-- ===== src/Base/Lists.antt =====
-- Lists measured by native numbers, and predicates on lists.
use Prim.Native.Nat.{ℕ, suc, ◌+◌}
use mathlib.Core.Path.{◌≡◌, refl, ap, subst, subst₂}
use mathlib.Core.Bool.{Bool, true, not}
use mathlib.Core.Logic.{◌⊎◌, inl, inr}
use mathlib.Core.List.{List, [], ◌∷◌, ◌++◌, Permᴰ}
use mathlib.Core.List.Permᴰ
use native.Mathlib.Omega.{arith}
use local_first_architecture.Base.Tests.{if◌then◌else◌, Bool-cases}

module _ {ℓ} {A : Type ℓ} where
  abbrev pub length : List A → ℕ
  length [] = 0
  length (x ∷ xs) = suc (length xs)

  pub append-nil : (xs : List A) → xs ++ [] ≡ xs
  append-nil [] = refl
  append-nil (x ∷ xs) = ap (λ ys. x ∷ ys) (append-nil xs)

  pub append_assoc : (xs ys zs : List A) → (xs ++ ys) ++ zs ≡ xs ++ (ys ++ zs)
  append_assoc [] ys zs = refl
  append_assoc (x ∷ xs) ys zs = ap (λ ws. x ∷ ws) (append_assoc xs ys zs)

  pub length-append : (xs ys : List A) → length (xs ++ ys) ≡ length xs + length ys
  length-append [] ys = omega arith
  length-append (x ∷ xs) ys = omega (arith, length-append xs ys)

  -- The elements that pass a Boolean test.
  abbrev pub filter : (A → Bool) → List A → List A
  filter p [] = []
  filter p (x ∷ xs) = let rest = filter p xs in if p x then x ∷ rest else rest

-- A predicate by recursion computes to tuples, which the tactics read and build.
abbrev pub All {ℓ κ} : {A : Type ℓ} → (A → Type κ) → List A → Type κ
All P [] = Unit
All P (x ∷ xs) = P x × All P xs

-- Each two elements are related; the relation is meant to be symmetric.
abbrev pub Each2 {ℓ κ} : {A : Type ℓ} → (A → A → Type κ) → List A → Type κ
Each2 R [] = Unit
Each2 R (x ∷ xs) = All (R x) xs × Each2 R xs

module _ {ℓ κ} {A : Type ℓ} where
  pub All-perm : (P : A → Type κ) {xs ys : List A} → Permᴰ xs ys → All P xs → All P ys
  All-perm P Permᴰ.nil h = h
  All-perm P (Permᴰ.cons e p) h = (subst P e h.0, All-perm P p h.1)
  All-perm P (Permᴰ.swap e f) h = (subst P f h.1.0, (subst P e h.0, h.1.1))
  All-perm P (Permᴰ.trans p q) h = All-perm P q (All-perm P p h)

  pub Each2-perm :
      (R : A → A → Type κ)
      → ((x y : A) → R x y → R y x)
      → {xs ys : List A} → Permᴰ xs ys
      → Each2 R xs
      → Each2 R ys
  Each2-perm R flip Permᴰ.nil h = h
  Each2-perm R flip (Permᴰ.cons {l₂ = l} e p) h =
      (subst (λ x. All (R x) l) e (All-perm (R _) p h.0), Each2-perm R flip p h.1)
  Each2-perm R flip (Permᴰ.swap {a = a} {b = b} {l = l} e f) h = (
    (subst₂ R f e (flip a b h.0.0), subst (λ x. All (R x) l) f h.1.0),
    (subst (λ x. All (R x) l) e h.0.1, h.1.1),
  )
  Each2-perm R flip (Permᴰ.trans p q) h = Each2-perm R flip q (Each2-perm R flip p h)

module _ {ℓ κ κ'} {A : Type ℓ} {P : A → Type κ} {Q : A → Type κ'} where
  pub All-map : ((x : A) → P x → Q x) → (xs : List A) → All P xs → All Q xs
  All-map f [] h = tt
  All-map f (x ∷ xs) h = (f x h.0, All-map f xs h.1)

module _ {ℓ} {A : Type ℓ} where
  -- A filter that keeps what a second one keeps does not show through it.
  pub filter-filter :
      (q p : A → Bool)
      → ((x : A) → q x ≡ true → p x ≡ true)
      → (xs : List A) → filter q (filter p xs) ≡ filter q xs
  filter-filter q p imp [] = refl
  filter-filter q p imp (x ∷ xs) = ground (arith, imp x, filter-filter q p imp xs)

  -- Two filters at once, over what a third keeps.
  pub filter-within :
      (p r q : A → Bool)
      → ((x : A) → p x ≡ true → r x ≡ true → q x ≡ true)
      → (xs : List A) → filter p (filter r (filter q xs)) ≡ filter p (filter r xs)
  filter-within p r q imp [] = refl
  filter-within p r q imp (x ∷ xs) = ground (arith, imp x, filter-within p r q imp xs)

  pub filter-append :
      (p : A → Bool) (xs ys : List A) → filter p (xs ++ ys) ≡ filter p xs ++ filter p ys
  filter-append p [] ys = refl
  filter-append p (x ∷ xs) ys = ground (arith, filter-append p xs ys)

  pub filter-All : (p : A → Bool) (xs : List A) → All (λ x. p x ≡ true) xs → filter p xs ≡ xs
  filter-All p [] h = refl
  filter-All p (x ∷ xs) h = rw (h.0, filter-All p xs h.1) refl

  -- The elements that pass a test, and behind them the others.
  pub filter-partition :
      (p : A → Bool) (xs : List A) → Permᴰ (filter p xs ++ filter (λ x. not (p x)) xs) xs
  filter-partition p [] = Permᴰ.nil
  filter-partition p (x ∷ xs) = elim (Bool-cases (p x)) [
    | inl kept ↦ rw kept (Permᴰ.cons refl (filter-partition p xs))
    | inr dropped ↦ rw dropped (
        Permᴰ.trans (Permᴰ.middle x (filter p xs) (filter (λ y. not (p y)) xs))
          (Permᴰ.cons refl (filter-partition p xs)))
  ]

module _ {ℓ κ} {A : Type ℓ} where
  pub All-filter : (P : A → Type κ) (p : A → Bool) (xs : List A) → All P xs → All P (filter p xs)
  All-filter P p [] h = tt
  All-filter P p (x ∷ xs) h = elim (Bool-cases (p x)) [
    | inl kept ↦ rw kept (h.0, All-filter P p xs h.1)
    | inr dropped ↦ rw dropped (All-filter P p xs h.1)
  ]

  pub All-snoc : (P : A → Type κ) (x : A) (xs : List A) → All P xs → P x → All P (xs ++ (x ∷ []))
  All-snoc P x [] h p = (p, tt)
  All-snoc P x (y ∷ xs) h p = (h.0, All-snoc P x xs h.1 p)

  pub Each2-snoc :
      (R : A → A → Type κ) (x : A) (xs : List A)
      → Each2 R xs
      → All (λ y. R y x) xs
      → Each2 R (xs ++ (x ∷ []))
  Each2-snoc R x [] h p = (tt, tt)
  Each2-snoc R x (y ∷ xs) h p = (All-snoc (R y) x xs h.0 p.0, Each2-snoc R x xs h.1 p.1)

  pub Each2-filter :
      (R : A → A → Type κ) (p : A → Bool) (xs : List A) → Each2 R xs → Each2 R (filter p xs)
  Each2-filter R p [] h = tt
  Each2-filter R p (x ∷ xs) h = elim (Bool-cases (p x)) [
    | inl kept ↦ rw kept (All-filter (R x) p xs h.0, Each2-filter R p xs h.1)
    | inr dropped ↦ rw dropped (Each2-filter R p xs h.1)
  ]

-- To split on a computed list and keep the equation.
pub List-cases {ℓ} :
    {A : Type ℓ} (xs : List A) → (xs ≡ []) ⊎ ((x : A) × (ys : List A) × (xs ≡ x ∷ ys))
List-cases [] = inl refl
List-cases (x ∷ ys) = inr (x, ys, refl)
