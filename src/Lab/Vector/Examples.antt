-- ===== src/Lab/Vector/Examples.antt =====
-- Two vectors, each ahead of the other for one node.
use local_first_architecture.Base.{◌≡◌, refl, true, [], ◌∷◌, text_comparable}
use local_first_architecture.Base.Table.{IsMap, lookup}
use local_first_architecture.Lab.Vector.{VersionVector, dominates, merge}
use local_first_architecture.Lab.Vector.Lattice.{merge_least}

abbrev left : VersionVector
left = ("a", 3) ∷ ("b", 1) ∷ []

abbrev right : VersionVector
right = ("b", 2) ∷ ("c", 7) ∷ []

left-IsMap : IsMap left
unfolding lookup
left-IsMap = (refl, (refl, tt))

right-IsMap : IsMap right
unfolding lookup
right-IsMap = (refl, (refl, tt))

merge_least_example :
    (dominates (merge left right) left ≡ true)
    × (dominates (merge left right) right ≡ true)
    × ((c : VersionVector)
        → dominates c left ≡ true
        → dominates c right ≡ true
        → dominates c (merge left right) ≡ true)
merge_least_example = merge_least left right left-IsMap right-IsMap
