-- ===== src/Lab/Log/Compact.antt =====
-- Compaction deletes covered events alone, and no number is ever free again.

use local_first_architecture.Base.{
  ℕ, ◌≤◌, String, ◌≡◌, refl, ◌∙◌, inl, inr, Bool, true, false, ◌&&◌, not, none, some, [], ◌∷◌,
  filter, text_comparable, arith, Bool-cases, Option-cases, All, All-map, filter-filter, same_refl,
}
use local_first_architecture.Base.Table.{Table, IsMap, lookup, IsMap-lookup}
use local_first_architecture.Lab.Event.{Event}
use local_first_architecture.Lab.Vector.{VersionVector, seq_of, contains}
use local_first_architecture.Lab.Log.{
  Log, stranded, doomed, compact_node, compact_nodes, compact_skus, compact, intersect,
}

-- A filter that no deletion of this step reaches.
abbrev Spares : (Event → Bool) → String → (String × ℕ) → Type 0
Spares q sku entry = (e : Event) → q e ≡ true → doomed sku entry.0 entry.1 e ≡ false

module _ {B : Type 0} (q : Event → Bool) where
  compact_node-Spares :
      (l : Log B) (sku node : String) (seq : ℕ)
      → Spares q sku (node, seq)
      → filter q (compact_node l sku node seq).events ≡ filter q l.events
  unfolding compact_node
  compact_node-Spares l sku node seq spares = elim (Bool-cases (stranded node seq l.events)) [
    | inl left ↦ rw left refl
    | inr free ↦
        rw free (
          filter-filter q (λ e. not (doomed sku node seq e)) (λ e h. rw (spares e h) refl) l.events)
  ]

  compact_nodes-Spares :
      (sku : String) (safe : VersionVector)
      → All (Spares q sku) safe
      → (l : Log B) → filter q (compact_nodes l sku safe).events ≡ filter q l.events
  unfolding compact_nodes
  compact_nodes-Spares sku [] h l = refl
  compact_nodes-Spares sku ((node, seq) ∷ safe) h l =
      compact_nodes-Spares sku safe h.1 (compact_node l sku node seq)
      ∙ compact_node-Spares l sku node seq h.0

  compact_skus-Spares :
      (covered : Table String (B × VersionVector)) (up_to : VersionVector)
      → All
          (λ (c : String × (B × VersionVector)). All (Spares q c.0) (intersect c.1.1 up_to))
          covered
      → (l : Log B) → filter q (compact_skus l covered up_to).events ≡ filter q l.events
  unfolding compact_skus
  compact_skus-Spares [] up_to h l = refl
  compact_skus-Spares ((sku, (state, snap)) ∷ covered) up_to h l =
      compact_skus-Spares covered up_to h.1 (compact_nodes l sku (intersect snap up_to))
      ∙ compact_nodes-Spares sku (intersect snap up_to) h.0 l

-- An entry that both vectors reach.
abbrev IsBelow : VersionVector → VersionVector → (String × ℕ) → Type 0
IsBelow snap up_to entry = (entry.1 ≤ seq_of entry.0 snap) × (entry.1 ≤ seq_of entry.0 up_to)

IsBelow-cons :
    (k : String) (v : ℕ) (snap up_to : VersionVector)
    → lookup k snap ≡ none
    → (entry : String × ℕ) → IsBelow snap up_to entry
    → IsBelow ((k, v) ∷ snap) up_to entry
unfolding lookup
IsBelow-cons k v snap up_to fresh (n, s) h = ground (arith, text_comparable.same_iff k n)

intersect-IsBelow :
    (snap up_to : VersionVector) → IsMap snap → All (IsBelow snap up_to) (intersect snap up_to)
unfolding intersect
intersect-IsBelow [] up_to m = tt
intersect-IsBelow ((k, v) ∷ snap) up_to m =
    let rest =
      All-map (IsBelow-cons k v snap up_to m.0) (intersect snap up_to)
        (intersect-IsBelow snap up_to m.1) in
    elim (Option-cases (lookup k up_to)) [
      | inl absent ↦ rw (absent, intersect) rest
      | inr (s, present) ↦
          rw (present, intersect)
            ((unfold lookup in ground (arith, same_refl k), ground (arith, present)), rest)
    ]

-- Whether compaction may delete an event: the snapshot of its SKU has it folded in, and `up_to`,
-- what every peer has, covers it too.
abbrev pub is_covered :
    {B : Type 0} → Table String (B × VersionVector) → VersionVector → Event → Bool
is_covered snaps up_to e = elim (lookup e.sku snaps) [
  | none ↦ false
  | some c ↦ contains c.1 e.id && contains up_to e.id
]

module _ {B : Type 0} where
  covered_when :
      (snaps : Table String (B × VersionVector)) (up_to : VersionVector) (sku : String)
      (c : B × VersionVector)
      → lookup sku snaps ≡ some c
      → (entry : String × ℕ) → IsBelow c.1 up_to entry
      → Spares (λ e. not (is_covered snaps up_to e)) sku entry
  unfolding doomed contains
  covered_when snaps up_to sku c found (n, s) below e q = elim (Bool-cases (doomed sku n s e)) [
    | inr out ↦ out
    | inl hit ↦
        absurd
          (ground (arith, text_comparable.same_iff e.sku sku, text_comparable.same_iff e.id.node n))
  ]

  -- The state of the snapshots table: one row to a SKU, and a vector has one entry to a node.
  abbrev pub IsSnapshots : Table String (B × VersionVector) → Type 0
  IsSnapshots snaps = IsMap snaps × All (λ (c : String × (B × VersionVector)). IsMap c.1.1) snaps

  spared :
      (snaps : Table String (B × VersionVector)) (up_to : VersionVector)
      → IsSnapshots snaps
      → (xs : Table String (B × VersionVector))
      → All (λ (c : String × (B × VersionVector)). lookup c.0 snaps ≡ some c.1) xs
      → All (λ (c : String × (B × VersionVector)). IsMap c.1.1) xs
      → All
          (λ (c : String × (B × VersionVector)).
            All (Spares (λ e. not (is_covered snaps up_to e)) c.0) (intersect c.1.1 up_to))
          xs
  spared snaps up_to ok [] f m = tt
  spared snaps up_to ok ((sku, c) ∷ xs) f m = (
    All-map (covered_when snaps up_to sku c f.0) (intersect c.1 up_to)
        (intersect-IsBelow c.1 up_to m.0),
    spared snaps up_to ok xs f.1 m.1,
  )

  -- Compaction deletes no event that is not covered both by its SKU's snapshot and by `up_to`: the
  -- events that one of the two lacks are the same after it, in the same order. The condition is that
  -- the snapshots have one row to a SKU and their vectors one entry to a node.
  pub compact_keeps :
      (l : Log B) (up_to : VersionVector)
      → IsSnapshots l.snapshots
      → filter (λ e. not (is_covered l.snapshots up_to e)) (compact l up_to).events
        ≡ filter (λ e. not (is_covered l.snapshots up_to e)) l.events
  unfolding compact
  compact_keeps l up_to ok =
      compact_skus-Spares (λ e. not (is_covered l.snapshots up_to e)) l.snapshots up_to
        (spared l.snapshots up_to ok l.snapshots (IsMap-lookup l.snapshots ok.0) ok.1) l
