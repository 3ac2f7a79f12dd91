-- ===== src/Lab/Projector/Reading.antt =====
-- Compaction does not show in what the projector reads.
use local_first_architecture.Base.{
  ℕ, String, ◌≡◌, refl, ap, ◌∙◌, sym, inl, inr, Bool, true, not, Option, none, some, List, [], ◌∷◌,
  filter, filter-within, ◌==◌, text_comparable, arith, Bool-cases, Option-cases,
}
use local_first_architecture.Base.Table.{Table, lookup}
use local_first_architecture.Lab.Event.{Event}
use local_first_architecture.Lab.Vector.{VersionVector, contains}
use local_first_architecture.Lab.Item.{ItemState, fold}
use local_first_architecture.Lab.Log.{
  Log, order_by_hlc, stranded, compact_node, compact_nodes, compact_skus, compact, intersect,
  events_for_sku, load_snapshot,
}
use local_first_architecture.Lab.Log.Sorted.{filter-order_by_hlc}
use local_first_architecture.Lab.Log.Compact.{is_covered, IsSnapshots, compact_keeps}
use local_first_architecture.Lab.Projector.{restore, start_of, project}

-- The rows of a SKU behind a coverage, filtered first and ordered then.
abbrev pub rows_for : List Event → String → VersionVector → List Event
rows_for es sku after = filter (λ e. not (contains after e.id)) (filter (λ e. e.sku == sku) es)

module _ {B : Type 0} where
  pub events_for_sku-rows_for :
      (l : Log B) (sku : String) (after : VersionVector)
      → events_for_sku l sku after ≡ order_by_hlc (rows_for l.events sku after)
  unfolding events_for_sku
  events_for_sku-rows_for l sku after =
      ap (filter (λ e. not (contains after e.id)))
        (filter-order_by_hlc (λ e. e.sku == sku) l.events)
      ∙ filter-order_by_hlc (λ e. not (contains after e.id)) (filter (λ e. e.sku == sku) l.events)

  compact_node-snapshots :
      (l : Log B) (sku node : String) (seq : ℕ)
      → (compact_node l sku node seq).snapshots ≡ l.snapshots
  unfolding compact_node
  compact_node-snapshots l sku node seq = elim (Bool-cases (stranded node seq l.events)) [
    | inl left ↦ rw left refl
    | inr free ↦ rw free refl
  ]

  compact_nodes-snapshots :
      (sku : String) (safe : VersionVector) (l : Log B)
      → (compact_nodes l sku safe).snapshots ≡ l.snapshots
  unfolding compact_nodes
  compact_nodes-snapshots sku [] l = refl
  compact_nodes-snapshots sku ((node, seq) ∷ safe) l =
      compact_nodes-snapshots sku safe (compact_node l sku node seq)
      ∙ compact_node-snapshots l sku node seq

  compact_skus-snapshots :
      (covered : Table String (B × VersionVector)) (up_to : VersionVector) (l : Log B)
      → (compact_skus l covered up_to).snapshots ≡ l.snapshots
  unfolding compact_skus
  compact_skus-snapshots [] up_to l = refl
  compact_skus-snapshots ((sku, (state, snap)) ∷ covered) up_to l =
      compact_skus-snapshots covered up_to (compact_nodes l sku (intersect snap up_to))
      ∙ compact_nodes-snapshots sku (intersect snap up_to) l

  pub compact-snapshots :
      (l : Log B) (up_to : VersionVector) → (compact l up_to).snapshots ≡ l.snapshots
  unfolding compact
  compact-snapshots l up_to = compact_skus-snapshots l.snapshots up_to l

  -- The coverage that a read of the SKU starts from.
  abbrev coverage : Log B → String → VersionVector
  coverage l sku = elim (lookup sku l.snapshots) [ none ↦ [] | some c ↦ c.1 ]

  uncovered :
      (l : Log B) (up_to : VersionVector) (sku : String) (e : Event)
      → not (contains (coverage l sku) e.id) ≡ true
      → (e.sku == sku) ≡ true
      → not (is_covered l.snapshots up_to e) ≡ true
  uncovered l up_to sku e p r =
      let same = (text_comparable.same_iff e.sku sku).0 r in
      rw same (elim (Option-cases (lookup sku l.snapshots)) [
        | inl absent ↦ ground (arith, absent)
        | inr (c, present) ↦ ground (arith, present)
      ])

  rows_for-compact :
      (l : Log B) (up_to : VersionVector) (sku : String)
      → IsSnapshots l.snapshots
      → rows_for (compact l up_to).events sku (coverage l sku)
        ≡ rows_for l.events sku (coverage l sku)
  rows_for-compact l up_to sku ok =
      let p : Event → Bool = λ e. not (contains (coverage l sku) e.id) in
      let r : Event → Bool = λ e. e.sku == sku in
      let q : Event → Bool = λ e. not (is_covered l.snapshots up_to e) in
      sym (filter-within p r q (uncovered l up_to sku) (compact l up_to).events)
      ∙ ap (λ es. filter p (filter r es)) (compact_keeps l up_to ok)
      ∙ filter-within p r q (uncovered l up_to sku) l.events

  events_for_sku-compact :
      (l : Log B) (up_to : VersionVector) (sku : String)
      → IsSnapshots l.snapshots
      → events_for_sku (compact l up_to) sku (coverage l sku)
        ≡ events_for_sku l sku (coverage l sku)
  events_for_sku-compact l up_to sku ok =
      events_for_sku-rows_for (compact l up_to) sku (coverage l sku)
      ∙ ap order_by_hlc (rows_for-compact l up_to sku ok)
      ∙ sym (events_for_sku-rows_for l sku (coverage l sku))

module _ {B : Type 0} (marshal : ItemState → B) (unmarshal : B → Option ItemState) where
  pub project-some :
      (l : Log B) (sku : String) (from : ItemState × VersionVector)
      → start_of marshal unmarshal l sku ≡ some from
      → project marshal unmarshal l sku ≡ some (fold from.0 (events_for_sku l sku from.1))
  unfolding project
  project-some l sku from h = rw (h, project) refl

  pub project-none :
      (l : Log B) (sku : String)
      → start_of marshal unmarshal l sku ≡ none
      → project marshal unmarshal l sku ≡ none
  unfolding project
  project-none l sku h = rw (h, project) refl

  restore-coverage :
      (snap : Option (B × VersionVector)) (from : ItemState × VersionVector)
      → restore marshal unmarshal snap ≡ some from
      → from.1 ≡ (elim snap [ none ↦ [] | some c ↦ c.1 ])
  unfolding restore
  restore-coverage none from h = ground arith
  restore-coverage (some (blob, covers)) from h = elim (Option-cases (unmarshal blob)) [
    | inl bad ↦ ground (arith, bad)
    | inr (state, good) ↦ ground (arith, good)
  ]

  start_of-coverage :
      (l : Log B) (sku : String) (from : ItemState × VersionVector)
      → start_of marshal unmarshal l sku ≡ some from
      → from.1 ≡ coverage l sku
  unfolding load_snapshot
  start_of-coverage l sku from h = restore-coverage (lookup sku l.snapshots) from h

  start_of-compact :
      (l : Log B) (up_to : VersionVector) (sku : String)
      → start_of marshal unmarshal (compact l up_to) sku ≡ start_of marshal unmarshal l sku
  unfolding load_snapshot
  start_of-compact l up_to sku =
      ap (λ snaps. restore marshal unmarshal (lookup sku snaps)) (compact-snapshots l up_to)

  -- Compaction changes no read: whatever it deletes, Project gives the same state of every SKU as
  -- before, and fails on the same blobs. The condition is that the snapshots have one row to a SKU and
  -- their vectors one entry to a node.
  pub project-compact :
      (l : Log B) (up_to : VersionVector) (sku : String)
      → IsSnapshots l.snapshots
      → project marshal unmarshal (compact l up_to) sku ≡ project marshal unmarshal l sku
  project-compact l up_to sku ok = elim (Option-cases (start_of marshal unmarshal l sku)) [
    | inl bad ↦
        project-none (compact l up_to) sku (start_of-compact l up_to sku ∙ bad)
        ∙ sym (project-none l sku bad)
    | inr (from, start) ↦
        rw
          (
            project-some (compact l up_to) sku from (start_of-compact l up_to sku ∙ start),
            project-some l sku from start,
            start_of-coverage l sku from start,
            events_for_sku-compact l up_to sku ok,
          )
          refl
  ]
