-- ===== src/Lab/Projector/Rising.antt =====
-- Where the timestamps of each node rise with its numbers, the test of MaybeSnapshot's loop against the
-- coverage that it raises skips no row that the coverage at its start does not.
use local_first_architecture.Base.{
  ◌+◌, ◌<◌, ◌++◌, String, ◌≡◌, refl, ap, ◌∙◌, sym, ◌⊎◌, inl, inr, Bool, true, false, not, List, [],
  ◌∷◌, ltb, filter, ◌==◌, text_comparable, arith, Bool-cases, All, Each2, Each2-filter, Each2-perm,
  Each2-snoc,
}
use local_first_architecture.Lab.Clock.{before}
use local_first_architecture.Lab.Event.{Event}
use local_first_architecture.Lab.Vector.{VersionVector, seq_of, contains, observe}
use local_first_architecture.Lab.Vector.Lattice.{seq_of-observe}
use local_first_architecture.Lab.Item.{ItemState, apply}
use local_first_architecture.Lab.Log.{
  Log, order_by_hlc, events_for_sku, version_vector, max_seq, high_mark,
}
use local_first_architecture.Lab.Log.Sorted.{
  NotAfter, IsSorted, filter-order_by_hlc, order_by_hlc-IsSorted, order_by_hlc-Permᴰ,
}
use local_first_architecture.Lab.Projector.{sku_rows, fold_frontier}
use local_first_architecture.Lab.Projector.Covering.{fold_fixed}

-- Of two events of one node the one with the lower number has the earlier timestamp.
abbrev pub Rising : Event → Event → Type 0
Rising x y =
    x.id.node ≡ y.id.node
    → ((before x.hlc y.hlc ≡ true) × (x.id.seq < y.id.seq))
      ⊎ ((before y.hlc x.hlc ≡ true) × (y.id.seq < x.id.seq))

Rising-flip : (x y : Event) → Rising x y → Rising y x
Rising-flip x y h same = elim (h (sym same)) [ inl up ↦ inr up | inr down ↦ inl down ]

-- A later row of the same node has a higher number.
abbrev IsAbove : Event → Event → Type 0
IsAbove x y = x.id.node ≡ y.id.node → x.id.seq < y.id.seq

abbrev IsRising : List Event → Type 0
IsRising [] = Unit
IsRising (x ∷ xs) = All (IsAbove x) xs × IsRising xs

module _ (frontier : VersionVector) where
  same_skips :
      (covers : VersionVector) (e : Event) (es : List Event)
      → contains covers e.id ≡ false
      → All (IsAbove e) es
      → filter (λ x. not (contains (observe covers e.id) x.id)) es
        ≡ filter (λ x. not (contains covers x.id)) es
  unfolding contains
  same_skips covers e [] new h = refl
  same_skips covers e (x ∷ es) new h = ground (
    arith,
    same_skips covers e es new h.1,
    seq_of-observe covers e.id x.id.node,
    text_comparable.same_iff e.id.node x.id.node,
    h.0,
  )

  fold_frontier-fixed :
      (rows : List Event) (s : ItemState) (covers : VersionVector)
      → IsRising rows
      → fold_frontier frontier s covers rows
        ≡ fold_fixed frontier s covers (filter (λ e. not (contains covers e.id)) rows)
  unfolding fold_frontier fold_fixed
  fold_frontier-fixed [] s covers h = refl
  fold_frontier-fixed (e ∷ es) s covers h = elim (Bool-cases (contains covers e.id)) [
    | inl old ↦ rw old (fold_frontier-fixed es s covers h.1)
    | inr new ↦ elim (Bool-cases (ltb (seq_of e.id.node frontier) e.id.seq)) [
      | inl past ↦ rw (new, past) (fold_frontier-fixed es s covers h.1)
      | inr reached ↦
          rw (new, reached)
            (fold_frontier-fixed es (apply s e) (observe covers e.id) h.1
              ∙ ap (fold_fixed frontier (apply s e) (observe covers e.id))
                  (same_skips covers e es new h.0))
    ]
  ]

IsAbove-each :
    (e : Event) (es : List Event) → All (NotAfter e) es → All (Rising e) es → All (IsAbove e) es
IsAbove-each e [] sorted h = tt
IsAbove-each e (x ∷ xs) sorted h = (
  λ same. elim (h.0 same) [ inl up ↦ up.1 | inr down ↦ absurd (cc (down.0, sorted.0)) ],
  IsAbove-each e xs sorted.1 h.1,
)

sorted-IsRising : (es : List Event) → IsSorted es → Each2 Rising es → IsRising es
sorted-IsRising [] sorted h = tt
sorted-IsRising (e ∷ es) sorted h =
    (IsAbove-each e es sorted.0 h.0, sorted-IsRising es sorted.1 h.1)

Rising-each :
    (e : Event) (es : List Event)
    → max_seq e.id.node es < e.id.seq
    → All (λ x. before x.hlc e.hlc ≡ true) es
    → All (λ x. Rising x e) es
unfolding max_seq
Rising-each e [] small h = tt
Rising-each e (x ∷ xs) small h = (
  λ same. inl (h.0, ground (arith, text_comparable.same_iff x.id.node e.id.node, same)),
  Rising-each e xs (ground arith) h.1,
)

module _ {B : Type 0} where
  sku_rows-IsRising : (l : Log B) (sku : String) → Each2 Rising l.events → IsRising (sku_rows l sku)
  unfolding sku_rows
  sku_rows-IsRising l sku h =
      let r : Event → Bool = λ e. e.sku == sku in
      rw (filter-order_by_hlc r l.events) (
        sorted-IsRising (order_by_hlc (filter r l.events))
          (order_by_hlc-IsSorted (filter r l.events))
          (Each2-perm Rising Rising-flip (order_by_hlc-Permᴰ (filter r l.events))
            (Each2-filter Rising r l.events h)))

  -- The loop of MaybeSnapshot on a log whose timestamps rise with the numbers.
  pub fold_frontier-Rising :
      (l : Log B) (sku : String) (s : ItemState) (covers : VersionVector)
      → Each2 Rising l.events
      → fold_frontier (version_vector l) s covers (sku_rows l sku)
        ≡ fold_fixed (version_vector l) s covers (events_for_sku l sku covers)
  unfolding events_for_sku sku_rows
  fold_frontier-Rising l sku s covers h =
      fold_frontier-fixed (version_vector l) (sku_rows l sku) s covers (sku_rows-IsRising l sku h)

  -- A row under the next number with a later timestamp than all.
  pub Rising-next :
      (l : Log B) (e : Event)
      → e.id.seq ≡ high_mark e.id.node l + 1
      → All (λ x. before x.hlc e.hlc ≡ true) l.events
      → Each2 Rising l.events
      → Each2 Rising (l.events ++ (e ∷ []))
  unfolding high_mark
  Rising-next l e i later h =
      Each2-snoc Rising e l.events h (Rising-each e l.events (ground (arith, i)) later)
