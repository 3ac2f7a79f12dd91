-- ===== src/Lab/Item.antt =====
-- eventlog-lab/crdt/lww.go and item.go: the merged state of one stock item.
pub mod Register
pub mod Convergence
pub mod Quantity
pub mod Equal
mod Examples
use local_first_architecture.Base.{
  ℕ, ◌+◌, ◌^◌, String, Bool, true, false, not, ◌&&◌, Option, none, some, List, [], ◌∷◌, nat_beq,
  leb, length, Comparable, ◌==◌, text_comparable, if◌then◌else◌,
}
use local_first_architecture.Base.Table.{Table, lookup, lookup_or, insert}
use local_first_architecture.Base.Int64.{Int64, int_zero, add_int, sub_int, neg_int}
use local_first_architecture.Lab.Clock.{Hlc, no_hlc, before}
use local_first_architecture.Lab.Event.{
  MetaSet, Event, kind_quantity_delta, kind_meta_set, kind_delete_set,
}

-- A last-writer-wins register.
pub record Lww {ℓ} (A : Type ℓ) : Type ℓ where
  pub value : A
  pub at : Hlc

module _ {ℓ} {A : Type ℓ} where
  -- The new register, and whether the write was accepted.
  pub set_register : Lww A → A → Hlc → Lww A × Bool
  set_register r v at = if before r.at at then (record { value = v; at = at }, true) else (r, false)

  -- A nil pointer writes nothing.
  abbrev pub set_if : Lww A → Option A → Hlc → Lww A
  set_if r none at = r
  set_if r (some v) at = (set_register r v at).0

abbrev pub Counter : Type 0
Counter = Table String Int64

abbrev pub slot : String → Counter → Int64
slot node m = lookup_or int_zero node m

pub record ItemState : Type 0 where
  pub pos : Counter
  pub neg : Counter
  pub name : Lww String
  pub reorder_point : Lww Int64
  pub deleted : Lww Bool

abbrev pub new_item_state : ItemState
new_item_state = record {
  pos = [];
  neg = [];
  name = record { value = ""; at = no_hlc };
  reorder_point = record { value = int_zero; at = no_hlc };
  deleted = record { value = false; at = no_hlc };
}

-- m[node] += n
bump : String → Int64 → Counter → Counter
bump node n m = insert node (add_int (slot node m) n) m

apply_delta : ItemState → Event → ItemState
unfolding bump
apply_delta s e =
    if leb int_zero e.delta
    then record s { pos = bump e.id.node e.delta s.pos }
    else record s { neg = bump e.id.node (neg_int e.delta) s.neg }

apply_meta : ItemState → Option MetaSet → Hlc → ItemState
apply_meta s none at = s
apply_meta s (some m) at = record s {
  name = set_if s.name m.name at;
  reorder_point = set_if s.reorder_point m.reorder_point at;
}

-- s.Apply(e)
pub apply : ItemState → Event → ItemState
unfolding apply_delta apply_meta
apply s e =
    if nat_beq e.kind kind_quantity_delta
    then apply_delta s e
    else if nat_beq e.kind kind_meta_set
    then apply_meta s e.meta e.hlc
    else if nat_beq e.kind kind_delete_set
    then record s { deleted = set_if s.deleted e.deleted_to e.hlc }
    else s

-- s.Fold over an iterator that yields no error
unfoldable pub fold : ItemState → List Event → ItemState
fold s [] = s
fold s (e ∷ es) = fold (apply s e) es

-- The first loop of `Quantity` adds, the second subtracts.
add_all : Int64 → Counter → Int64
add_all total [] = total
add_all total ((k, v) ∷ m) = add_all (add_int total v) m

sub_all : Int64 → Counter → Int64
sub_all total [] = total
sub_all total ((k, v) ∷ m) = sub_all (sub_int total v) m

pub quantity : ItemState → Int64
unfolding add_all sub_all
quantity s = sub_all (add_all int_zero s.pos) s.neg

-- maps.Equal: as many keys, and every key of the first with its value in the second
has_value : Option Int64 → Int64 → Bool
has_value none v = false
has_value (some w) v = nat_beq w v

all_in : Counter → Counter → Bool
unfolding has_value
all_in [] m = true
all_in ((k, v) ∷ l) m = has_value (lookup k m) v && all_in l m

maps_equal : Counter → Counter → Bool
unfolding all_in
maps_equal l m = nat_beq (length l) (length m) && all_in l m

-- `==` on two structs
unfoldable pub hlc_equal : Hlc → Hlc → Bool
hlc_equal a b = nat_beq a.wall b.wall && nat_beq a.logical b.logical && a.node == b.node

abbrev bool_equal : Bool → Bool → Bool
bool_equal true b = b
bool_equal false b = not b

-- s.Equal(other) of a non-nil other
pub equal : ItemState → ItemState → Bool
equal s t =
    maps_equal s.pos t.pos
    && (maps_equal s.neg t.neg
        && ((s.name.value == t.name.value && hlc_equal s.name.at t.name.at)
            && ((nat_beq s.reorder_point.value t.reorder_point.value
                  && hlc_equal s.reorder_point.at t.reorder_point.at)
                && (bool_equal s.deleted.value t.deleted.value
                    && hlc_equal s.deleted.at t.deleted.at))))
