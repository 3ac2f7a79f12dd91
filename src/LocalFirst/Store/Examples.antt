-- ===== src/LocalFirst/Store/Examples.antt =====
-- A store of two nodes' deltas, projected to their sum. A delta of 0 does not project.
use local_first_architecture.Base.{
  ℕ, ◌+◌, String, ◌≡◌, refl, inl, Option, none, some, List, [], ◌∷◌, nat_beq, if◌then◌else◌, ltb,
}
use local_first_architecture.Base.Int64.{plus}
use local_first_architecture.LocalFirst.Clock.{Hlc}
use local_first_architecture.LocalFirst.Store.{
  Record, Store, is_held, highest_seq, open_store, AppendError, exec, merge_one, merge_loop, merge,
  append,
}
use local_first_architecture.LocalFirst.Store.Consistent.{
  IsConsistent, append-IsConsistent, merge-IsConsistent,
}

abbrev sum : Option (ℕ → Record ℕ → Option ℕ)
sum = some (λ t r. if nat_beq r.payload 0 then none else some (t + r.payload))

abbrev stamp : Hlc
stamp = record { wall = plus 1; logical = 0; node_id = "a" }

abbrev delta : String → ℕ → ℕ → Record ℕ
delta node seq n = record { node_id = node; seq = seq; clock = stamp; typ = "delta"; payload = n }

abbrev stored : Store ℕ
stored = record {
  node_id = "a";
  records = delta "a" 1 5 ∷ delta "b" 1 3 ∷ [];
  cursors = [];
  next_seq = 1;
}

stored-IsConsistent : IsConsistent sum 0 stored 8
unfolding is_held highest_seq
stored-IsConsistent = record { keyed = (refl, (refl, tt)); numbered = refl; projected = refl }

-- Opening the file again gives the same store.
reopened : open_store "a" stored.records [] ≡ stored
unfolding open_store highest_seq
reopened = refl

-- The second record is a duplicate, and the third does not project.
abbrev batch : List (Record ℕ)
batch = delta "b" 2 4 ∷ delta "b" 1 3 ∷ delta "b" 3 0 ∷ delta "b" 4 1 ∷ []

merge-IsConsistent_example : let m = merge stored 8 batch sum in IsConsistent sum 0 m.2 m.3
merge-IsConsistent_example = merge-IsConsistent sum 0 stored 8 batch stored-IsConsistent

stops_half_way : (merge stored 8 batch sum).0 ≡ 1
unfolding merge merge_loop merge_one is_held exec
stops_half_way = refl

abbrev below_ten : Option (ℕ → Record ℕ → Option String)
below_ten = some (λ t r. if ltb (t + r.payload) 10 then none else some "too much")

append-IsConsistent_example :
    let a = append stored 8 "delta" 1 stamp below_ten sum in
    IsConsistent sum 0 a.1 a.2
    × ((e : AppendError String) → a.0 ≡ inl e → (a.1 ≡ stored) × (a.2 ≡ 8))
append-IsConsistent_example =
    append-IsConsistent sum 0 stored 8 "delta" 1 stamp below_ten stored-IsConsistent
