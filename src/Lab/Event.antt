-- ===== src/Lab/Event.antt =====
-- eventlog-lab/eventlog/event.go: events and their validation.
pub mod Valid
mod Examples
use local_first_architecture.Base.{
  ℕ, ◌+◌, ◌^◌, String, Bool, not, ◌&&◌, ◌||◌, Option, none, some, nat_beq, Comparable, ◌==◌,
  text_comparable, if◌then◌else◌,
}
use local_first_architecture.Base.Int64.{Int64, int_zero, min_int, plus}
use local_first_architecture.Lab.Clock.{Hlc}

pub record EventId : Type 0 where
  pub node : String
  pub seq : ℕ  -- uint64

-- type Kind int
abbrev pub kind_quantity_delta : Int64
kind_quantity_delta = plus 1

abbrev pub kind_meta_set : Int64
kind_meta_set = plus 2

abbrev pub kind_delete_set : Int64
kind_delete_set = plus 3

-- A pointer field is an `Option`, with nil as `none`.
pub record MetaSet : Type 0 where
  pub name : Option String
  pub reorder_point : Option Int64

pub record Event : Type 0 where
  pub id : EventId
  pub hlc : Hlc
  pub sku : String
  pub kind : Int64
  pub delta : Int64
  pub meta : Option MetaSet
  pub deleted_to : Option Bool

-- k.Valid()
abbrev pub is_valid_kind : Int64 → Bool
is_valid_kind k =
    nat_beq k kind_quantity_delta || nat_beq k kind_meta_set || nat_beq k kind_delete_set

abbrev pub is_some {ℓ} : {A : Type ℓ} → Option A → Bool
is_some none = Bool.false
is_some (some a) = Bool.true

-- m.Empty()
abbrev pub is_empty : Option MetaSet → Bool
is_empty none = Bool.true
is_empty (some m) = not (is_some m.name || is_some m.reorder_point)

-- The errors of `Validate`; all of them wrap ErrMalformedEvent.
pub data Malformed : Type 0 where
  empty_node seq_zero empty_sku hlc_node unknown_kind : Malformed
  delta_on_kind meta_on_kind deleted_on_kind : Malformed
  zero_delta delta_min meta_empty deleted_missing : Malformed

-- The second `switch` of `Validate`.
check_payload : Event → Option Malformed
check_payload e =
    if nat_beq e.kind kind_quantity_delta
    then (if nat_beq e.delta int_zero
        then some zero_delta
        else if nat_beq e.delta min_int
        then some delta_min
        else none)
    else if nat_beq e.kind kind_meta_set
    then (if is_empty e.meta then some meta_empty else none)
    else if nat_beq e.kind kind_delete_set
    then (if not (is_some e.deleted_to) then some deleted_missing else none)
    else none

-- The fields that belong to another kind.
check_fields : Event → Option Malformed
unfolding check_payload
check_fields e =
    if not (nat_beq e.kind kind_quantity_delta) && not (nat_beq e.delta int_zero)
    then some delta_on_kind
    else if not (nat_beq e.kind kind_meta_set) && is_some e.meta
    then some meta_on_kind
    else if not (nat_beq e.kind kind_delete_set) && is_some e.deleted_to
    then some deleted_on_kind
    else check_payload e

-- e.Validate(), with `none` for a nil error
unfoldable pub validate : Event → Option Malformed
unfolding check_fields check_payload
validate e =
    if e.id.node == ""
    then some empty_node
    else if nat_beq e.id.seq 0
    then some seq_zero
    else if e.sku == ""
    then some empty_sku
    else if not (e.hlc.node == e.id.node)
    then some hlc_node
    else if not (is_valid_kind e.kind)
    then some unknown_kind
    else check_fields e
