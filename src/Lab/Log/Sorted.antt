-- ===== src/Lab/Log/Sorted.antt =====
-- The statements' ORDER BY: the rows in timestamp order, whatever is filtered out before or after.
use mathlib.Core.List.{Permᴰ}
use mathlib.Core.List.Permᴰ
use local_first_architecture.Base.{
  ◌≡◌, refl, ◌∙◌, inl, inr, Bool, true, false, List, [], ◌∷◌, filter, if◌then◌else◌, arith,
  Bool-cases, All, All-map, All-filter,
}
use local_first_architecture.Lab.Clock.{before}
use local_first_architecture.Lab.Clock.Order.{compare-IsTotal}
use local_first_architecture.Lab.Event.{Event}
use local_first_architecture.Lab.Log.{place, order_by_hlc}

-- y does not stand before x
abbrev pub NotAfter : Event → Event → Type 0
NotAfter x y = before y.hlc x.hlc ≡ false

abbrev pub IsSorted : List Event → Type 0
IsSorted [] = Unit
IsSorted (x ∷ xs) = All (NotAfter x) xs × IsSorted xs

NotAfter-trans : (x y z : Event) → NotAfter x y → NotAfter y z → NotAfter x z
unfolding before
NotAfter-trans x y z h k = ground (
  arith,
  compare-IsTotal.cmp_flip x.hlc y.hlc,
  compare-IsTotal.cmp_flip y.hlc z.hlc,
  compare-IsTotal.cmp_flip x.hlc z.hlc,
  compare-IsTotal.cmp_trans x.hlc y.hlc z.hlc,
  compare-IsTotal.cmp_eq x.hlc y.hlc,
  compare-IsTotal.cmp_eq y.hlc z.hlc,
  compare-IsTotal.cmp_trans z.hlc x.hlc y.hlc,
  compare-IsTotal.cmp_trans y.hlc z.hlc x.hlc,
)

before-NotAfter : (x y : Event) → before x.hlc y.hlc ≡ true → NotAfter x y
unfolding before
before-NotAfter x y h = ground (arith, compare-IsTotal.cmp_flip x.hlc y.hlc)

place-All : (P : Event → Type 0) (e : Event) (xs : List Event) → P e → All P xs → All P (place e xs)
unfolding place
place-All P e [] p h = (p, tt)
place-All P e (x ∷ xs) p h = elim (Bool-cases (before x.hlc e.hlc)) [
  | inl below ↦ rw below (h.0, place-All P e xs p h.1)
  | inr above ↦ rw above (p, h)
]

place-IsSorted : (e : Event) (xs : List Event) → IsSorted xs → IsSorted (place e xs)
unfolding place
place-IsSorted e [] h = (tt, tt)
place-IsSorted e (x ∷ xs) h = elim (Bool-cases (before x.hlc e.hlc)) [
  | inl below ↦
      rw below
        (place-All (NotAfter x) e xs (before-NotAfter x e below) h.0, place-IsSorted e xs h.1)
  | inr above ↦ rw above ((above, All-map (λ y k. NotAfter-trans e x y above k) xs h.0), h)
]

pub order_by_hlc-IsSorted : (es : List Event) → IsSorted (order_by_hlc es)
unfolding order_by_hlc
order_by_hlc-IsSorted [] = tt
order_by_hlc-IsSorted (e ∷ es) = place-IsSorted e (order_by_hlc es) (order_by_hlc-IsSorted es)

place-Permᴰ : (e : Event) (xs : List Event) → Permᴰ (e ∷ xs) (place e xs)
unfolding place
place-Permᴰ e [] = Permᴰ.refl (e ∷ [])
place-Permᴰ e (x ∷ xs) = elim (Bool-cases (before x.hlc e.hlc)) [
  | inl below ↦ rw below (Permᴰ.trans (Permᴰ.swap refl refl) (Permᴰ.cons refl (place-Permᴰ e xs)))
  | inr above ↦ rw above (Permᴰ.refl (e ∷ x ∷ xs))
]

pub order_by_hlc-Permᴰ : (es : List Event) → Permᴰ es (order_by_hlc es)
unfolding order_by_hlc
order_by_hlc-Permᴰ [] = Permᴰ.nil
order_by_hlc-Permᴰ (e ∷ es) =
    Permᴰ.trans (Permᴰ.cons refl (order_by_hlc-Permᴰ es)) (place-Permᴰ e (order_by_hlc es))

module _ (p : Event → Bool) where
  place-first : (e : Event) (xs : List Event) → All (NotAfter e) xs → place e xs ≡ e ∷ xs
  unfolding place
  place-first e [] h = refl
  place-first e (x ∷ xs) h = rw h.0 refl

  filter-place :
      (e : Event) (xs : List Event)
      → IsSorted xs
      → filter p (place e xs) ≡ (if p e then place e (filter p xs) else filter p xs)
  unfolding place
  filter-place e [] h = ground arith
  filter-place e (x ∷ xs) h = elim (Bool-cases (before x.hlc e.hlc)) [
    | inl below ↦ ground (arith, filter-place e xs h.1)
    | inr above ↦
        let first : place e (filter p xs) ≡ e ∷ filter p xs =
          place-first e (filter p xs)
            (All-filter (NotAfter e) p xs (All-map (λ y k. NotAfter-trans e x y above k) xs h.0)) in
        ground (arith, first)
  ]

  pub filter-order_by_hlc :
      (es : List Event) → filter p (order_by_hlc es) ≡ order_by_hlc (filter p es)
  unfolding order_by_hlc
  filter-order_by_hlc [] = refl
  filter-order_by_hlc (e ∷ es) =
      filter-place e (order_by_hlc es) (order_by_hlc-IsSorted es)
      ∙ ground (arith, filter-order_by_hlc es)
