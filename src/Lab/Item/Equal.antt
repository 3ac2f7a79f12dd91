-- ===== src/Lab/Item/Equal.antt =====
-- `Equal`, the convergence test of the fault harness, against the entries of the two states.
use mathlib.Core.List.{Perm}
use local_first_architecture.Lab.Event.{Event}
use local_first_architecture.Base.{
  suc, String, ◌≡◌, refl, Bool, true, none, some, List, [], ◌∷◌, length, text_comparable, arith,
  ◌↔◌, same_refl,
}
use local_first_architecture.Base.Table.{
  lookup, delete, lookup-delete, delete-IsMap, insert-IsMap, IsMap,
}
use local_first_architecture.Base.Int64.{Int64, add_int, neg_int}
use local_first_architecture.Lab.Item.{
  slot, new_item_state, Counter, ItemState, all_in, maps_equal, hlc_equal, bool_equal, equal, apply,
  fold, bump,
}
use local_first_architecture.Lab.Item.Convergence.{SameState, IsStamped, fold-perm}
use local_first_architecture.Lab.Clock.{Hlc}

-- Two maps have the same entries.
abbrev Agree : Counter → Counter → Type 0
Agree l m = (k : String) → lookup k l ≡ lookup k m

delete_absent : (k : String) (m : Counter) → lookup k m ≡ none → delete k m ≡ m
unfolding lookup delete
delete_absent k [] h = refl
delete_absent k ((j, w) ∷ m) h = ground (arith, delete_absent k m)

length-delete :
    (k : String) (v : Int64) (m : Counter)
    → IsMap m
    → lookup k m ≡ some v
    → length m ≡ suc (length (delete k m))
unfolding lookup delete
length-delete k v [] i h = cc
length-delete k v ((j, w) ∷ m) i h =
    ground (arith, length-delete k v m i.1, delete_absent k m, text_comparable.same_iff j k)

all_in-delete :
    (k : String) (l m : Counter) → lookup k l ≡ none → all_in l (delete k m) ≡ all_in l m
unfolding lookup all_in
all_in-delete k [] m h = refl
all_in-delete k ((j, w) ∷ l) m h = ground (
  arith,
  all_in-delete k l m,
  lookup-delete k j m,
  text_comparable.same_iff j k,
  text_comparable.same_iff k j,
)

Agree-delete :
    (k : String) (v : Int64) (l m : Counter)
    → lookup k l ≡ none
    → Agree ((k, v) ∷ l) m
    → Agree l (delete k m)
unfolding lookup
Agree-delete k v l m h a j = ground (arith, a j, lookup-delete k j m, text_comparable.same_iff k j)

Agree-cons :
    (k : String) (v : Int64) (l m : Counter)
    → lookup k m ≡ some v
    → Agree l (delete k m)
    → Agree ((k, v) ∷ l) m
unfolding lookup
Agree-cons k v l m h a j = ground (arith, a j, lookup-delete k j m, text_comparable.same_iff k j)

module _ (k : String) (v : Int64) (l m : Counter) (fresh : lookup k l ≡ none) (i : IsMap m) where
  maps_equal-tail :
      maps_equal ((k, v) ∷ l) m ≡ true → (lookup k m ≡ some v) × (maps_equal l (delete k m) ≡ true)
  unfolding maps_equal
  maps_equal-tail h =
      let found : lookup k m ≡ some v = ground arith in
      (found, ground (arith, length-delete k v m i found, all_in-delete k l m fresh))

  maps_equal-cons :
      lookup k m ≡ some v → maps_equal l (delete k m) ≡ true → maps_equal ((k, v) ∷ l) m ≡ true
  unfolding maps_equal
  maps_equal-cons found h = ground (arith, length-delete k v m i found, all_in-delete k l m fresh)

maps_equal-Agree : (l m : Counter) → IsMap l → IsMap m → maps_equal l m ≡ true → Agree l m
maps_equal-Agree [] [] i j h = λ k. refl
maps_equal-Agree [] ((k, w) ∷ m) i j h = absurd (unfold maps_equal in ground arith)
maps_equal-Agree ((k, v) ∷ l) m i j h =
    let (found, rest) = maps_equal-tail k v l m i.0 j h in
    Agree-cons k v l m found (maps_equal-Agree l (delete k m) i.1 (delete-IsMap k m j) rest)

Agree-head : (k : String) (v : Int64) (l m : Counter) → Agree ((k, v) ∷ l) m → lookup k m ≡ some v
unfolding lookup
Agree-head k v l m a = ground (arith, a k, same_refl k)

Agree-maps_equal : (l m : Counter) → IsMap l → IsMap m → Agree l m → maps_equal l m ≡ true
Agree-maps_equal [] [] i j a = unfold maps_equal in refl
Agree-maps_equal [] ((k, w) ∷ m) i j a = absurd (unfold lookup in ground (arith, a k, same_refl k))
Agree-maps_equal ((k, v) ∷ l) m i j a =
    maps_equal-cons k v l m i.0 j (Agree-head k v l m a)
      (Agree-maps_equal l (delete k m) i.1 (delete-IsMap k m j) (Agree-delete k v l m i.0 a))

-- The maps of a state hold each key once; Go's maps do so by construction.
pub record IsState (s : ItemState) : Type 0 where
  pub pos_map : IsMap s.pos
  pub neg_map : IsMap s.neg

pub hlc_equal_iff : (a b : Hlc) → (hlc_equal a b ≡ true) ↔ (a ≡ b)
unfolding hlc_equal
hlc_equal_iff a b = (
  λ h. ground (arith, text_comparable.same_iff a.node b.node),
  λ h. ground (arith, text_comparable.same_iff a.node b.node),
)

bool_equal_iff : (a b : Bool) → (bool_equal a b ≡ true) ↔ (a ≡ b)
bool_equal_iff a b = (λ h. ground arith, λ h. ground arith)

-- `Equal` answers true exactly when the two states hold the same: each counter has the same slots with
-- the same values, where a missing slot is not one of zero, and each register has the same value and
-- the same stamp. The condition is that the counters hold each node once.
pub equal_iff : (s t : ItemState) → IsState s → IsState t → (equal s t ≡ true) ↔ SameState s t
unfolding equal
equal_iff s t i j = (
  λ h. record {
    same_pos = maps_equal-Agree s.pos t.pos i.pos_map j.pos_map (ground arith);
    same_neg = maps_equal-Agree s.neg t.neg i.neg_map j.neg_map (ground arith);
    same_name = ground (
      arith,
      text_comparable.same_iff s.name.value t.name.value,
      hlc_equal_iff s.name.at t.name.at,
    );
    same_reorder = ground (arith, hlc_equal_iff s.reorder_point.at t.reorder_point.at);
    same_deleted = ground (
      arith,
      bool_equal_iff s.deleted.value t.deleted.value,
      hlc_equal_iff s.deleted.at t.deleted.at,
    );
  },
  λ e. ground (
    arith,
    Agree-maps_equal s.pos t.pos i.pos_map j.pos_map e.same_pos,
    Agree-maps_equal s.neg t.neg i.neg_map j.neg_map e.same_neg,
    e.same_name,
    e.same_reorder,
    e.same_deleted,
    text_comparable.same_iff s.name.value t.name.value,
    hlc_equal_iff s.name.at t.name.at,
    hlc_equal_iff s.reorder_point.at t.reorder_point.at,
    bool_equal_iff s.deleted.value t.deleted.value,
    hlc_equal_iff s.deleted.at t.deleted.at,
  ),
)

apply-IsState : (s : ItemState) (e : Event) → IsState s → IsState (apply s e)
unfolding apply bump
apply-IsState s e h = record {
  pos_map = ground (
    arith,
    insert-IsMap e.id.node (add_int (slot e.id.node s.pos) e.delta) s.pos h.pos_map,
    h.pos_map,
  );
  neg_map = ground (
    arith,
    insert-IsMap e.id.node (add_int (slot e.id.node s.neg) (neg_int e.delta)) s.neg h.neg_map,
    h.neg_map,
  );
}

pub fold-IsState : (s : ItemState) (es : List Event) → IsState s → IsState (fold s es)
unfolding fold
fold-IsState s [] h = h
fold-IsState s (e ∷ es) h = fold-IsState (apply s e) es (apply-IsState s e h)

-- Two replicas that folded the same events, each in its own order, pass the harness's `Equal`.
pub fold-equal :
    (xs ys : List Event)
    → IsStamped xs
    → Perm xs ys
    → equal (fold new_item_state xs) (fold new_item_state ys) ≡ true
fold-equal xs ys h p =
    let start : IsState new_item_state = record { pos_map = tt; neg_map = tt } in
    (equal_iff (fold new_item_state xs) (fold new_item_state ys)
        (fold-IsState new_item_state xs start) (fold-IsState new_item_state ys start)).1
      (fold-perm new_item_state xs ys h p)
