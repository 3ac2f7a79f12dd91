-- ===== src/Lab/Vector.antt =====
-- eventlog-lab/eventlog/event.go: version vectors.
pub mod Lattice
mod Examples
use local_first_architecture.Base.{
  ℕ, ◌≤◌, String, Bool, true, false, ◌&&◌, not, List, [], ◌∷◌, ltb, leb, if◌then◌else◌,
  text_comparable,
}
use local_first_architecture.Base.Table.{Table, lookup_or, insert}
use local_first_architecture.Lab.Event.{EventId}

abbrev pub VersionVector : Type 0
VersionVector = Table String ℕ

-- vv[node], which is 0 for a node that is not there
abbrev pub seq_of : String → VersionVector → ℕ
seq_of node vv = lookup_or 0 node vv

-- `Merge` raises an entry if the other vector's is larger; so does `Observe`.
raise : String → ℕ → VersionVector → VersionVector
raise node seq vv = if ltb (seq_of node vv) seq then insert node seq vv else vv

unfoldable pub observe : VersionVector → EventId → VersionVector
unfolding raise
observe vv id = raise id.node id.seq vv

unfoldable pub contains : VersionVector → EventId → Bool
contains vv id = leb id.seq (seq_of id.node vv)

-- The loop over `other` returns false at the first entry that `vv` lacks.
unfoldable pub dominates : VersionVector → VersionVector → Bool
dominates vv [] = true
dominates vv ((k, v) ∷ other) = not (ltb (seq_of k vv) v) && dominates vv other

unfoldable pub merge : VersionVector → VersionVector → VersionVector
unfolding raise
merge vv [] = vv
merge vv ((k, v) ∷ other) = merge (raise k v vv) other
