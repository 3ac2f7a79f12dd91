-- ===== src/LocalFirst/Store/Query.antt =====
-- localfirst-go/eventlog/record.go and store.go: the order of replay, version vectors and the reads.
pub mod Replay
use local_first_architecture.Base.{
  ℕ, ◌+◌, Ordering, String, Bool, true, false, ◌&&◌, List, [], ◌∷◌, filter, length, nat_beq, ltb,
  ◌==◌, text_comparable, if◌then◌else◌,
}
use local_first_architecture.Base.Table.{Table, lookup_or, insert}
use local_first_architecture.LocalFirst.Clock.{compare}
use local_first_architecture.LocalFirst.Store.{Record, Store}

abbrev pub VersionVector : Type 0
VersionVector = Table String ℕ

-- v.Get(node)
abbrev pub seq_of : String → VersionVector → ℕ
seq_of node v = lookup_or 0 node v

-- v.Observe(node, seq)
unfoldable pub observe : String → ℕ → VersionVector → VersionVector
observe node seq v = if ltb (seq_of node v) seq then insert node seq v else v

-- v.Equal(o)
unfoldable pub has_marks : VersionVector → VersionVector → Bool
has_marks [] o = true
has_marks ((node, seq) ∷ v) o = nat_beq (seq_of node o) seq && has_marks v o

unfoldable pub equal : VersionVector → VersionVector → Bool
equal v o = nat_beq (length v) (length o) && has_marks v o

module _ {P : Type 0} where
  -- r.Less(o)
  unfoldable pub less : Record P → Record P → Bool
  less r o = elim (compare r.clock o.clock) [
    | Ordering.lt ↦ true
    | Ordering.eq ↦ ltb r.seq o.seq
    | Ordering.gt ↦ false
  ]

  -- sort.Slice by Less
  unfoldable pub place : Record P → List (Record P) → List (Record P)
  place r [] = r ∷ []
  place r (q ∷ qs) = if less q r then q ∷ place r qs else r ∷ q ∷ qs

  unfoldable pub sort : List (Record P) → List (Record P)
  sort [] = []
  sort (r ∷ rs) = place r (sort rs)

  -- s.Since(vv)
  unfoldable pub since : Store P → VersionVector → List (Record P)
  since s vv = sort (filter (λ r. ltb (seq_of r.node_id vv) r.seq) s.records)

  -- SELECT node_id, MAX(seq) … GROUP BY node_id, each row observed
  unfoldable pub marks : List (Record P) → VersionVector
  marks [] = []
  marks (r ∷ rs) = observe r.node_id r.seq (marks rs)

  -- s.Version()
  unfoldable pub version : Store P → VersionVector
  version s = marks s.records
