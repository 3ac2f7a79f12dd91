-- ===== src/Lab/Log/HighMark.antt =====
-- Compaction keeps the highest number that a node has used.
use Prim.Native.Nat.{max}
use local_first_architecture.Base.{
  ℕ, ◌≤◌, String, ◌≡◌, ◌⊎◌, inl, inr, false, not, List, [], ◌∷◌, filter, ◌==◌, text_comparable,
  if◌then◌else◌, arith, Bool-cases,
}
use local_first_architecture.Base.Table.{Table, insert, lookup-insert}
use local_first_architecture.Lab.Event.{Event}
use local_first_architecture.Lab.Vector.{VersionVector, seq_of}
use local_first_architecture.Lab.Log.{
  Log, max_seq, high_mark, stranded, doomed, compact_node, compact_nodes, compact_skus, compact,
  intersect,
}

-- What the deleted rows of a step can have reached.
abbrev reach : String → String → ℕ → ℕ
reach n node seq = if node == n then seq else 0

max_seq-doomed :
    (n sku node : String) (seq : ℕ) (es : List Event)
    → stranded node seq es ≡ false
    → (max_seq n es ≤ max_seq n (filter (λ e. not (doomed sku node seq e)) es))
      ⊎ (max_seq n es ≤ reach n node seq)
unfolding max_seq stranded doomed
max_seq-doomed n sku node seq [] h = inl (omega arith)
max_seq-doomed n sku node seq (e ∷ es) h = ground (
  arith,
  max_seq-doomed n sku node seq es,
  text_comparable.same_iff e.id.node n,
  text_comparable.same_iff e.id.node node,
  text_comparable.same_iff node n,
)

seq_of-insert :
    (n node : String) (s : ℕ) (vv : VersionVector)
    → seq_of n (insert node s vv) ≡ (if node == n then s else seq_of n vv)
seq_of-insert n node s vv = ground (arith, lookup-insert node n s vv)

module _ {B : Type 0} (n : String) where
  high_mark-compact_node :
      (l : Log B) (sku node : String) (seq : ℕ)
      → high_mark n l ≤ high_mark n (compact_node l sku node seq)
  unfolding compact_node high_mark
  high_mark-compact_node l sku node seq = elim (Bool-cases (stranded node seq l.events)) [
    | inl left ↦ rw left (omega arith)
    | inr free ↦
        rw (free, seq_of-insert n node (max (seq_of node l.watermark) seq) l.watermark)
          (ground
            (arith, max_seq-doomed n sku node seq l.events free, text_comparable.same_iff node n))
  ]

  high_mark-compact_nodes :
      (sku : String) (safe : VersionVector) (l : Log B)
      → high_mark n l ≤ high_mark n (compact_nodes l sku safe)
  unfolding compact_nodes
  high_mark-compact_nodes sku [] l = omega arith
  high_mark-compact_nodes sku ((node, seq) ∷ safe) l = omega (
    arith,
    high_mark-compact_node l sku node seq,
    high_mark-compact_nodes sku safe (compact_node l sku node seq),
  )

  high_mark-compact_skus :
      (covered : Table String (B × VersionVector)) (up_to : VersionVector) (l : Log B)
      → high_mark n l ≤ high_mark n (compact_skus l covered up_to)
  unfolding compact_skus
  high_mark-compact_skus [] up_to l = omega arith
  high_mark-compact_skus ((sku, (state, snap)) ∷ covered) up_to l = omega (
    arith,
    high_mark-compact_nodes sku (intersect snap up_to) l,
    high_mark-compact_skus covered up_to (compact_nodes l sku (intersect snap up_to)),
  )

  -- Compaction never lowers the highest number that a node has used, so that the next local event's
  -- number is not one of a deleted row.
  pub high_mark-compact :
      (l : Log B) (up_to : VersionVector) → high_mark n l ≤ high_mark n (compact l up_to)
  unfolding compact
  high_mark-compact l up_to = high_mark-compact_skus l.snapshots up_to l
