-- ===== src/Lab/Projector/OneMore.antt =====
-- What one more event does to the next read.
use mathlib.Core.List.{Permᴰ}
use mathlib.Core.List.Permᴰ
use local_first_architecture.Base.{
  String, ◌≡◌, refl, ap, ◌∙◌, inl, inr, Bool, true, false, not, Option, some, List, [], ◌∷◌, ◌++◌,
  filter, ◌==◌, text_comparable, arith, Option-cases, filter-append, Each2-filter, Each2-perm,
  same_refl,
}
use local_first_architecture.Lab.Clock.{Hlc, before}
use local_first_architecture.Lab.Clock.Order.{compare-IsTotal}
use local_first_architecture.Lab.Event.{Event}
use local_first_architecture.Lab.Vector.{VersionVector, contains}
use local_first_architecture.Lab.Item.{ItemState, apply, fold}
use local_first_architecture.Lab.Item.Convergence.{
  SameStamp, SameStamp-flip, IsStamped, SameState, fold-append, fold-perm,
}
use local_first_architecture.Lab.Log.{Log, order_by_hlc, load_snapshot}
use local_first_architecture.Lab.Log.Sorted.{order_by_hlc-Permᴰ}
use local_first_architecture.Lab.Projector.{start_of, project}
use local_first_architecture.Lab.Projector.Reading.{
  rows_for, events_for_sku-rows_for, project-some, project-none,
}

rows_for-append :
    (es : List Event) (e : Event) (sku : String) (covers : VersionVector)
    → e.sku ≡ sku
    → contains covers e.id ≡ false
    → rows_for (es ++ (e ∷ [])) sku covers ≡ rows_for es sku covers ++ (e ∷ [])
rows_for-append es e sku covers named fresh =
    let p : Event → Bool = λ x. not (contains covers x.id) in
    let r : Event → Bool = λ x. x.sku == sku in
    let one : filter r (e ∷ []) ≡ e ∷ [] = rw (named, same_refl sku) refl in
    let two : filter p (e ∷ []) ≡ e ∷ [] = rw fresh refl in
    ap (filter p) (filter-append r es (e ∷ []) ∙ ap (λ xs. filter r es ++ xs) one)
    ∙ filter-append p (filter r es) (e ∷ [])
    ∙ ap (λ xs. filter p (filter r es) ++ xs) two

not_before_self : (a : Hlc) → before a a ≡ false
unfolding before
not_before_self a = ground (arith, compare-IsTotal.cmp_self a)

-- A stamp behind is another stamp.
pub SameStamp-before : (x e : Event) → before x.hlc e.hlc ≡ true → SameStamp x e
SameStamp-before x e h p = absurd (cc (h, p, not_before_self e.hlc))

IsStamped-rows :
    (es : List Event) (sku : String) (covers : VersionVector)
    → IsStamped es
    → IsStamped (rows_for es sku covers)
IsStamped-rows es sku covers h =
    Each2-filter SameStamp (λ x. not (contains covers x.id)) (filter (λ x. x.sku == sku) es)
      (Each2-filter SameStamp (λ x. x.sku == sku) es h)

-- Folding the rows with one more, in timestamp order, is folding the rows and applying the new one.
fold_one_more :
    (s : ItemState) (rows : List Event) (e : Event)
    → IsStamped (rows ++ (e ∷ []))
    → SameState (apply (fold s (order_by_hlc rows)) e) (fold s (order_by_hlc (rows ++ (e ∷ []))))
fold_one_more s rows e h =
    let there : Permᴰ (order_by_hlc rows ++ (e ∷ [])) (rows ++ (e ∷ [])) =
      Permᴰ.append_right (e ∷ []) (Permᴰ.symm (order_by_hlc-Permᴰ rows)) in
    let all = Permᴰ.trans there (order_by_hlc-Permᴰ (rows ++ (e ∷ []))) in
    let last : fold s (order_by_hlc rows ++ (e ∷ [])) ≡ apply (fold s (order_by_hlc rows)) e =
      fold-append s (order_by_hlc rows) (e ∷ []) ∙ (unfold fold in refl) in
    rw (← last) (
      fold-perm s (order_by_hlc rows ++ (e ∷ [])) (order_by_hlc (rows ++ (e ∷ [])))
        (Each2-perm SameStamp SameStamp-flip (Permᴰ.symm there) h) ∣ all ∣₁)

module _ {B : Type 0} (marshal : ItemState → B) (unmarshal : B → Option ItemState) where
  -- The read after one more row of the SKU that the snapshot does not cover.
  pub project-append :
      (l : Log B) (sku : String) (e : Event) (s : ItemState)
      → e.sku ≡ sku
      → ((from : ItemState × VersionVector)
          → start_of marshal unmarshal l sku ≡ some from
          → contains from.1 e.id ≡ false)
      → IsStamped (l.events ++ (e ∷ []))
      → project marshal unmarshal l sku ≡ some s
      → (t : ItemState) × (project marshal unmarshal
            (record l { events = l.events ++ (e ∷ []) })
            sku
          ≡ some t)
        × SameState (apply s e) t
  project-append l sku e s named fresh stamped was =
      elim (Option-cases (start_of marshal unmarshal l sku)) [
        | inl bad ↦ absurd (cc (project-none marshal unmarshal l sku bad, was))
        | inr (from, fine) ↦
            let more : Log B = record l { events = l.events ++ (e ∷ []) } in
            let rows = rows_for l.events sku from.1 in
            let before_is : s ≡ fold from.0 (order_by_hlc rows) = cc (
              was,
              project-some marshal unmarshal l sku from fine,
              events_for_sku-rows_for l sku from.1,
            ) in
            let longer = rows_for-append l.events e sku from.1 named (fresh from fine) in
            (
              fold from.0 (order_by_hlc (rows ++ (e ∷ []))),
              project-some marshal unmarshal more sku from ((unfold load_snapshot in fine))
                  ∙ ap (λ es. some (fold from.0 es))
                      (events_for_sku-rows_for more sku from.1 ∙ ap order_by_hlc longer),
              rw before_is (
                  fold_one_more from.0 rows e
                    (rw (← longer) (IsStamped-rows (l.events ++ (e ∷ [])) sku from.1 stamped))),
            )
      ]
