-- ===== src/Lab/Item/Quantity.antt =====
-- The quantity is the sum of the deltas.
use local_first_architecture.Base.{
  String, ◌≡◌, refl, sym, ◌∙◌, Bool, List, [], ◌∷◌, nat_beq, leb, text_comparable, if◌then◌else◌,
  arith, Bool-cases, inl, inr,
}
use local_first_architecture.Base.Table.{lookup, insert}
use local_first_architecture.Base.Int64.{
  Int64, InInt, int_zero, add_int, neg_int, sub_int, add_int_right_comm, add_int_assoc,
  add_int-zero,
}
use local_first_architecture.Lab.Event.{Event, kind_quantity_delta}
use local_first_architecture.Lab.Item.{
  Lww, set_if, Counter, slot, ItemState, bump, apply, apply_delta, apply_meta, fold, add_all,
  sub_all, quantity,
}

add_all-shift : (t n : Int64) (m : Counter) → add_all (add_int t n) m ≡ add_int (add_all t m) n
unfolding add_all
add_all-shift t n [] = refl
add_all-shift t n ((k, v) ∷ m) = rw (add_int_right_comm t n v) (add_all-shift (add_int t v) n m)

sub_add : (t n v : Int64) → sub_int (add_int t n) v ≡ add_int (sub_int t v) n
unfolding add_int sub_int
sub_add t n v = omega arith

sub_all-shift : (t n : Int64) (m : Counter) → sub_all (add_int t n) m ≡ add_int (sub_all t m) n
unfolding sub_all
sub_all-shift t n [] = refl
sub_all-shift t n ((k, v) ∷ m) = rw (sub_add t n v) (sub_all-shift (sub_int t v) n m)

add_all-bump :
    (t n : Int64) (k : String) (m : Counter)
    → add_all t (insert k (add_int (slot k m) n) m) ≡ add_int (add_all t m) n
unfolding add_all insert lookup
add_all-bump t n k [] = unfold add_int in omega arith
add_all-bump t n k ((j, w) ∷ m) =
    ground (
      arith,
      add_all-bump (add_int t w) n k m,
      add_all-shift (add_int t w) n m,
      add_int_assoc t w n,
    )

sub_back : (t w d : Int64) → sub_int t (add_int w (neg_int d)) ≡ add_int (sub_int t w) d
unfolding add_int sub_int neg_int
sub_back t w d = omega arith

sub_all-bump :
    (t d : Int64) (k : String) (m : Counter)
    → sub_all t (insert k (add_int (slot k m) (neg_int d)) m) ≡ add_int (sub_all t m) d
unfolding sub_all insert lookup
sub_all-bump t d k [] = unfold add_int sub_int neg_int in omega arith
sub_all-bump t d k ((j, w) ∷ m) =
    ground
      (arith, sub_all-bump (sub_int t w) d k m, sub_all-shift (sub_int t w) d m, sub_back t w d)

add_all-InInt : (t : Int64) (m : Counter) → InInt t → InInt (add_all t m)
unfolding add_all
add_all-InInt t [] h = h
add_all-InInt t ((k, v) ∷ m) h = add_all-InInt (add_int t v) m (unfold add_int in omega arith)

sub_all-InInt : (t : Int64) (m : Counter) → InInt t → InInt (sub_all t m)
unfolding sub_all
sub_all-InInt t [] h = h
sub_all-InInt t ((k, v) ∷ m) h = sub_all-InInt (sub_int t v) m (unfold sub_int in omega arith)

pub quantity-InInt : (s : ItemState) → InInt (quantity s)
unfolding quantity
quantity-InInt s = sub_all-InInt _ s.neg (add_all-InInt int_zero s.pos (omega arith))

-- What an event adds to the quantity.
abbrev pub delta_of : Event → Int64
delta_of e = if nat_beq e.kind kind_quantity_delta then e.delta else int_zero

quantity-apply_delta :
    (s : ItemState) (e : Event) → quantity (apply_delta s e) ≡ add_int (quantity s) e.delta
unfolding quantity apply_delta bump
quantity-apply_delta s e = elim (Bool-cases (leb int_zero e.delta)) [
  | inl up ↦ rw up (
      rw (add_all-bump int_zero e.delta e.id.node s.pos)
        (sub_all-shift (add_all int_zero s.pos) e.delta s.neg))
  | inr down ↦ rw down (sub_all-bump (add_all int_zero s.pos) e.delta e.id.node s.neg)
]

quantity-apply_meta :
    (s : ItemState) (e : Event) → quantity (apply_meta s e.meta e.hlc) ≡ quantity s
unfolding quantity apply_meta
quantity-apply_meta s e = ground arith

quantity-apply_deleted :
    (s : ItemState) (r : Lww Bool) → quantity (record s { deleted = r }) ≡ quantity s
unfolding quantity
quantity-apply_deleted s r = refl

quantity-apply :
    (s : ItemState) (e : Event) → quantity (apply s e) ≡ add_int (quantity s) (delta_of e)
unfolding apply
quantity-apply s e = ground (
  arith,
  quantity-apply_delta s e,
  quantity-apply_meta s e,
  quantity-apply_deleted s (set_if s.deleted e.deleted_to e.hlc),
  add_int-zero (quantity s) (quantity-InInt s),
)

-- The sum of the deltas of a list of events, as int64 arithmetic has it.
pub total_delta : List Event → Int64
total_delta [] = int_zero
total_delta (e ∷ es) = add_int (delta_of e) (total_delta es)

-- Whatever the order of the events and the nodes that they come from, `Quantity` is the quantity
-- before them and the sum of their deltas, modulo 2 ^ 64.
pub quantity-fold :
    (s : ItemState) (es : List Event) → quantity (fold s es) ≡ add_int (quantity s) (total_delta es)
unfolding fold total_delta
quantity-fold s [] = sym (add_int-zero (quantity s) (quantity-InInt s))
quantity-fold s (e ∷ es) =
    quantity-fold (apply s e) es
    ∙ rw (quantity-apply s e) (add_int_assoc (quantity s) (delta_of e) (total_delta es))
