-- ===== src/Lab/Projector/Snapshot.antt =====
-- Writing a snapshot does not show in what the projector reads, where the timestamps of each node rise
-- with its numbers.

use mathlib.Core.List.Permᴰ
use local_first_architecture.Base.{
  ℕ, String, ◌≡◌, refl, ap, ◌∙◌, sym, ◌⊎◌, inl, inr, Bool, not, Option, some, ◌++◌, filter,
  filter-partition, nat_beq, ltb, if◌then◌else◌, ◌==◌, text_comparable, arith, Bool-cases,
  Option-cases, All-perm, Each2, Each2-filter, Each2-perm,
}
use local_first_architecture.Base.Table.{lookup-insert}
use local_first_architecture.Lab.Event.{Event}
use local_first_architecture.Lab.Vector.{VersionVector, contains}
use local_first_architecture.Lab.Item.{ItemState, fold}
use local_first_architecture.Lab.Item.Convergence.{
  SameStamp, SameStamp-flip, IsStamped, SameState, SameState-refl, fold-append, fold-perm,
}
use local_first_architecture.Lab.Log.{
  Log, order_by_hlc, events_for_sku, count_for_sku, version_vector, load_snapshot, save_snapshot,
}
use local_first_architecture.Lab.Log.Sorted.{filter-order_by_hlc, order_by_hlc-Permᴰ}
use local_first_architecture.Lab.Projector.{
  fold_frontier, sku_rows, restore, start_of, project, maybe_snapshot,
}
use local_first_architecture.Lab.Projector.Rising.{Rising, fold_frontier-Rising}
use local_first_architecture.Lab.Projector.Reading.{
  rows_for, events_for_sku-rows_for, project-some, project-none,
}
use local_first_architecture.Lab.Projector.Covering.{
  fold_fixed, taken, IsReached, fold_fixed-fold, covers-ge, covers-le, covers-IsReached,
  rows-skipped,
}

module _ {B : Type 0} (l : Log B) (sku : String) (from : ItemState × VersionVector) where
  -- What the loop of MaybeSnapshot leaves.
  abbrev looped : ItemState × VersionVector
  looped = fold_frontier (version_vector l) from.0 from.1 (sku_rows l sku)

  -- The same with the rows skipped at the start.
  abbrev outcome : ItemState × VersionVector
  outcome = fold_fixed (version_vector l) from.0 from.1 (events_for_sku l sku from.1)

  abbrev in_frontier : Event → Bool
  in_frontier = taken (version_vector l)

  rows-outcome :
      rows_for l.events sku outcome.1
      ≡ filter (λ e. not (in_frontier e)) (rows_for l.events sku from.1)
  rows-outcome =
      let all = events_for_sku l sku from.1 in
      rows-skipped (version_vector l) from.1 outcome.1 (filter (λ e. e.sku == sku) l.events)
        (λ n. covers-ge (version_vector l) n all from.0 from.1)
        (λ n. covers-le (version_vector l) n all from.0 from.1)
        (All-perm (IsReached (version_vector l) outcome.1)
          (Permᴰ.symm (order_by_hlc-Permᴰ (rows_for l.events sku from.1)))
          (rw (← events_for_sku-rows_for l sku from.1)
            (covers-IsReached (version_vector l) all from.0 from.1)))

  -- The next read folds what the snapshot left out, in the same order.
  events-outcome :
      events_for_sku l sku outcome.1
      ≡ filter (λ e. not (in_frontier e)) (events_for_sku l sku from.1)
  events-outcome =
      events_for_sku-rows_for l sku outcome.1
      ∙ ap order_by_hlc rows-outcome
      ∙ sym (filter-order_by_hlc (λ e. not (in_frontier e)) (rows_for l.events sku from.1))
      ∙ ap (filter (λ e. not (in_frontier e))) (sym (events_for_sku-rows_for l sku from.1))

  IsStamped-events : IsStamped l.events → IsStamped (events_for_sku l sku from.1)
  IsStamped-events h = rw (events_for_sku-rows_for l sku from.1) (
      Each2-perm SameStamp SameStamp-flip (order_by_hlc-Permᴰ (rows_for l.events sku from.1)) (
        Each2-filter SameStamp (λ e. not (contains from.1 e.id))
          (filter (λ e. e.sku == sku) l.events)
          (Each2-filter SameStamp (λ e. e.sku == sku) l.events h)))

  fold-outcome :
      IsStamped l.events
      → SameState
          (fold from.0 (events_for_sku l sku from.1))
          (fold outcome.0 (events_for_sku l sku outcome.1))
  fold-outcome h =
      let all = events_for_sku l sku from.1 in
      let two =
        fold-append from.0 (filter in_frontier all) (filter (λ e. not (in_frontier e)) all) in
      rw (events-outcome, fold_fixed-fold (version_vector l) all from.0 from.1, ← two)
        (fold-perm from.0 all (filter in_frontier all ++ filter (λ e. not (in_frontier e)) all)
          (IsStamped-events h) ∣ Permᴰ.symm (filter-partition in_frontier all) ∣₁)

module _ {B : Type 0} (marshal : ItemState → B) (unmarshal : B → Option ItemState) where
  start_of-saved :
      (l : Log B) (sku read : String) (state : ItemState) (covers : VersionVector)
      → unmarshal (marshal state) ≡ some state
      → start_of marshal unmarshal (save_snapshot l sku (marshal state) covers) read
        ≡ (if sku == read then some (state, covers) else start_of marshal unmarshal l read)
  unfolding load_snapshot save_snapshot
  start_of-saved l sku read state covers back =
      ap (restore marshal unmarshal) (lookup-insert sku read (marshal state, covers) l.snapshots)
      ∙ elim (Bool-cases (sku == read)) [
        | inl same ↦ rw same (unfold restore in rw back refl)
        | inr other ↦ rw other refl
      ]

  -- The log that MaybeSnapshot leaves: the one it had, or that with one snapshot more.
  maybe_snapshot-cases :
      (every : ℕ) (l after : Log B) (sku : String)
      → maybe_snapshot marshal unmarshal every l sku ≡ some after
      → (after ≡ l)
        ⊎ ((from : ItemState × VersionVector) × (start_of marshal unmarshal l sku ≡ some from)
            × (after ≡ save_snapshot l sku (marshal (looped l sku from).0) (looped l sku from).1))
  unfolding maybe_snapshot
  maybe_snapshot-cases every l after sku h =
      elim (Option-cases (start_of marshal unmarshal l sku)) [
        | inl bad ↦ ground (arith, bad)
        | inr (from, start) ↦ elim (Bool-cases (nat_beq every 0)) [
          | inl off ↦ ground (arith, off)
          | inr on ↦ elim (Bool-cases (ltb (count_for_sku l sku) every)) [
            | inl few ↦ ground (arith, on, few)
            | inr due ↦ ground (arith, on, due, start)
          ]
        ]
      ]

  events_for_sku-saved :
      (l : Log B) (sku read : String) (blob : B) (covers after : VersionVector)
      → events_for_sku (save_snapshot l sku blob covers) read after ≡ events_for_sku l read after
  unfolding save_snapshot events_for_sku
  events_for_sku-saved l sku read blob covers after = refl

  project-saved :
      (l : Log B) (sku read : String) (from : ItemState × VersionVector) (s : ItemState)
      → ((t : ItemState) → unmarshal (marshal t) ≡ some t)
      → IsStamped l.events
      → start_of marshal unmarshal l sku ≡ some from
      → project marshal unmarshal l read ≡ some s
      → (t : ItemState) × (project marshal unmarshal
            (save_snapshot l sku (marshal (outcome l sku from).0) (outcome l sku from).1)
            read
          ≡ some t)
        × SameState s t
  project-saved l sku read from s back stamped start was =
      let new = outcome l sku from in
      let saved = save_snapshot l sku (marshal new.0) new.1 in
      let starts = start_of-saved l sku read new.0 new.1 (back new.0) in
      elim (Bool-cases (sku == read)) [
        | inl same ↦
            let at_sku = (text_comparable.same_iff sku read).0 same in
            let now : project marshal unmarshal saved read
                ≡ some (fold new.0 (events_for_sku l sku new.1)) =
              project-some marshal unmarshal saved read new (starts ∙ ground (arith, same))
              ∙ ap (λ es. some (fold new.0 es))
                  (events_for_sku-saved l sku read (marshal new.0) new.1 new.1
                    ∙ ap (λ r. events_for_sku l r new.1) (sym at_sku)) in
            let before : some s ≡ some (fold from.0 (events_for_sku l sku from.1)) =
              sym was
              ∙ ap (project marshal unmarshal l) (sym at_sku)
              ∙ project-some marshal unmarshal l sku from start in
            let s_is : s ≡ fold from.0 (events_for_sku l sku from.1) = cc before in
            (
              fold new.0 (events_for_sku l sku new.1),
              now,
              rw s_is (fold-outcome l sku from stamped),
            )
        | inr other ↦ elim (Option-cases (start_of marshal unmarshal l read)) [
          | inl bad ↦ absurd (cc (project-none marshal unmarshal l read bad, was))
          | inr (old, fine) ↦ (
            s,
            project-some marshal unmarshal saved read old (starts ∙ ground (arith, other, fine))
                ∙ ap (λ es. some (fold old.0 es))
                    (events_for_sku-saved l sku read (marshal new.0) new.1 old.1)
                ∙ sym (project-some marshal unmarshal l read old fine)
                ∙ was,
            SameState-refl s,
          )
        ]
      ]

  -- A snapshot changes no read: after MaybeSnapshot of one SKU, Project of any SKU still succeeds, and
  -- the state that it gives reads as the one before, no delta lost and none counted twice. The
  -- conditions are that the blob of a state parses back to it, that no two different events share a
  -- timestamp, and that each node's timestamps rise with its numbers.
  pub maybe_snapshot-project :
      (every : ℕ) (l after : Log B) (sku read : String) (s : ItemState)
      → ((t : ItemState) → unmarshal (marshal t) ≡ some t)
      → IsStamped l.events
      → Each2 Rising l.events
      → maybe_snapshot marshal unmarshal every l sku ≡ some after
      → project marshal unmarshal l read ≡ some s
      → (t : ItemState) × (project marshal unmarshal after read ≡ some t) × SameState s t
  maybe_snapshot-project every l after sku read s back stamped rising wrote was =
      elim (maybe_snapshot-cases every l after sku wrote) [
        | inl kept ↦ (s, ap (λ l'. project marshal unmarshal l' read) kept ∙ was, SameState-refl s)
        | inr (from, start, saved) ↦
            rw (saved, fold_frontier-Rising l sku from.0 from.1 rising)
              (project-saved l sku read from s back stamped start was)
      ]
