-- ===== src/Lab/Vector/Lattice.antt =====
-- Version vectors are ordered by what they cover, and `Merge` is the least upper bound.
use Prim.Native.Nat.{max}
use local_first_architecture.Base.{
  ℕ, ◌≤◌, String, ◌≡◌, ◌↔◌, refl, none, true, [], leb, ◌||◌, ◌&&◌, same_refl, ◌∷◌, arith, ◌==◌,
  text_comparable, if◌then◌else◌,
}
use local_first_architecture.Base.Table.{lookup, IsMap, lookup-insert, insert-IsMap}
use local_first_architecture.Lab.Event.{EventId}
use local_first_architecture.Lab.Vector.{
  VersionVector, seq_of, raise, observe, contains, dominates, merge,
}

seq_of-raise :
    (k j : String) (v : ℕ) (vv : VersionVector)
    → seq_of j (raise k v vv) ≡ (if k == j then max (seq_of j vv) v else seq_of j vv)
unfolding raise
seq_of-raise k j v vv = ground (arith, lookup-insert k j v vv, text_comparable.same_iff k j)

pub seq_of-observe :
    (vv : VersionVector) (id : EventId) (j : String)
    → seq_of j (observe vv id) ≡ (if id.node == j then max (seq_of j vv) id.seq else seq_of j vv)
unfolding observe
seq_of-observe vv id j = seq_of-raise id.node j id.seq vv

-- The merge of two vectors covers, of each node, as much as the better of the two.
pub seq_of-merge :
    (vv other : VersionVector) (j : String)
    → IsMap other
    → seq_of j (merge vv other) ≡ max (seq_of j vv) (seq_of j other)
unfolding merge lookup
seq_of-merge vv [] j h = omega arith
seq_of-merge vv ((k, v) ∷ other) j h = ground (
  arith,
  seq_of-merge (raise k v vv) other j h.1,
  seq_of-raise k j v vv,
  text_comparable.same_iff k j,
)

dominates-Covers :
    (vv other : VersionVector) (j : String)
    → dominates vv other ≡ true
    → seq_of j other ≤ seq_of j vv
unfolding dominates lookup
dominates-Covers vv [] j d = omega arith
dominates-Covers vv ((k, v) ∷ other) j d =
    ground (arith, dominates-Covers vv other j, text_comparable.same_iff k j)

abbrev pub Covers : VersionVector → VersionVector → Type 0
Covers vv other = (j : String) → seq_of j other ≤ seq_of j vv

Covers-tail :
    (vv other : VersionVector) (k : String) (v : ℕ)
    → lookup k other ≡ none
    → Covers vv ((k, v) ∷ other)
    → Covers vv other
unfolding lookup
Covers-tail vv other k v absent c j = ground (arith, c j, text_comparable.same_iff k j)

Covers-dominates :
    (vv other : VersionVector) → IsMap other → Covers vv other → dominates vv other ≡ true
unfolding dominates lookup
Covers-dominates vv [] h c = refl
Covers-dominates vv ((k, v) ∷ other) h c =
    ground (arith, Covers-dominates vv other h.1 (Covers-tail vv other k v h.0 c), c k, same_refl k)

merge-IsMap : (vv other : VersionVector) → IsMap vv → IsMap (merge vv other)
unfolding merge raise
merge-IsMap vv [] h = h
merge-IsMap vv ((k, v) ∷ other) h =
    merge-IsMap (raise k v vv) other (ground (arith, insert-IsMap k v vv h))

-- `Dominates` answers true exactly when the first vector covers, of every node, at least what the
-- second covers.
pub dominates_iff :
    (vv other : VersionVector) → IsMap other → (dominates vv other ≡ true) ↔ Covers vv other
dominates_iff vv other h =
    (λ d j. dominates-Covers vv other j d, λ c. Covers-dominates vv other h c)

-- `Merge` is the least upper bound of two vectors: it dominates both, and every vector that
-- dominates both dominates it.
pub merge_least :
    (a b : VersionVector)
    → IsMap a
    → IsMap b
    → (dominates (merge a b) a ≡ true)
      × (dominates (merge a b) b ≡ true)
      × ((c : VersionVector)
          → dominates c a ≡ true
          → dominates c b ≡ true
          → dominates c (merge a b) ≡ true)
merge_least a b ma mb = (
  Covers-dominates (merge a b) a ma (λ j. omega (arith, seq_of-merge a b j mb)),
  Covers-dominates (merge a b) b mb (λ j. omega (arith, seq_of-merge a b j mb)),
  λ c da db. Covers-dominates c (merge a b) (merge-IsMap a b ma) (λ j.
      omega (arith, seq_of-merge a b j mb, dominates-Covers c a j da, dominates-Covers c b j db)),
)

-- Observing an event covers that event, and all earlier ones of its node, beside what was covered.
pub contains-observe :
    (vv : VersionVector) (id i : EventId)
    → contains (observe vv id) i ≡ (contains vv i || (id.node == i.node && leb i.seq id.seq))
unfolding contains observe
contains-observe vv id i =
    ground (arith, seq_of-raise id.node i.node id.seq vv, text_comparable.same_iff id.node i.node)
