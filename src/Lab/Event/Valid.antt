-- ===== src/Lab/Event/Valid.antt =====
-- What an accepted event looks like.
use local_first_architecture.Base.{
  ◌≡◌, ◌≢◌, ◌⊎◌, ◌↔◌, none, some, Bool, true, text_comparable, inl, inr, arith, Option-cases,
}
use local_first_architecture.Base.Int64.{int_zero, min_int}
use local_first_architecture.Lab.Event.{
  Event, MetaSet, kind_quantity_delta, kind_meta_set, kind_delete_set, is_valid_kind, validate,
  check_fields,
}

-- The three kinds of payload, each with its own fields alone.
pub data HasShape (e : Event) : Type 0 where
  quantity :
      e.kind ≡ kind_quantity_delta
      → e.delta ≢ int_zero
      → e.delta ≢ min_int
      → e.meta ≡ none
      → e.deleted_to ≡ none
      → HasShape e
  metadata :
      (m : MetaSet)
      → e.kind ≡ kind_meta_set
      → e.delta ≡ int_zero
      → e.meta ≡ some m
      → (m.name ≢ none) ⊎ (m.reorder_point ≢ none)
      → e.deleted_to ≡ none
      → HasShape e
  tombstone :
      (b : Bool)
      → e.kind ≡ kind_delete_set
      → e.delta ≡ int_zero
      → e.meta ≡ none
      → e.deleted_to ≡ some b
      → HasShape e

pub record IsWellFormed (e : Event) : Type 0 where
  pub named : e.id.node ≢ ""
  pub numbered : e.id.seq ≢ 0
  pub stocked : e.sku ≢ ""
  pub stamped : e.hlc.node ≡ e.id.node
  pub shaped : HasShape e

-- An event whose fields fit its kind passes the last two tests.
fields_shape : (e : Event) → is_valid_kind e.kind ≡ true → check_fields e ≡ none → HasShape e
unfolding check_fields
fields_shape e k h = elim (Option-cases e.meta) [
  | inl no_meta ↦ elim (Option-cases e.deleted_to) [
    | inl no_deleted ↦ quantity (ground arith) (ground arith) (ground arith) no_meta no_deleted
    | inr (b, deleted) ↦ tombstone b (ground arith) (ground arith) no_meta deleted
  ]
  | inr (m, meta) ↦ metadata m (ground arith) (ground arith) meta (ground arith) (ground arith)
]

-- Such an event passes the tests.
shape_fields : (e : Event) → HasShape e → check_fields e ≡ none
unfolding check_fields
shape_fields e (quantity k d m t b) = ground arith
shape_fields e (metadata s k d m t b) = ground arith
shape_fields e (tombstone b k d m t) = ground arith

shape_kind : (e : Event) → HasShape e → is_valid_kind e.kind ≡ true
shape_kind e (quantity k d m t b) = ground arith
shape_kind e (metadata s k d m t b) = ground arith
shape_kind e (tombstone b k d m t) = ground arith

-- `Validate` accepts exactly the events with a node, a sequence number from 1 on, a SKU, a stamp of
-- the event's own node, and the payload of their kind with no field of another kind.
pub validate_iff : (e : Event) → (validate e ≡ none) ↔ IsWellFormed e
unfolding validate
validate_iff e = (
  λ h. record {
    named = ground (arith, text_comparable.same_iff e.id.node "");
    numbered = ground arith;
    stocked = ground (arith, text_comparable.same_iff e.sku "");
    stamped = ground (arith, text_comparable.same_iff e.hlc.node e.id.node);
    shaped = fields_shape e (ground arith) (ground arith);
  },
  λ w. ground (
    arith,
    text_comparable.same_iff e.id.node "",
    text_comparable.same_iff e.sku "",
    text_comparable.same_iff e.hlc.node e.id.node,
    shape_kind e w.shaped,
    shape_fields e w.shaped,
    w.named,
    w.stocked,
  ),
)
