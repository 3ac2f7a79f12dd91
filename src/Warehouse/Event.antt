-- ===== src/Warehouse/Event.antt =====
-- warehouse-node/internal/domain: ids.go, event.go and the rules of errors.go. A payload's Go type is
-- the constructor of the model's; its JSON is a parameter.
pub mod Seal
use local_first_architecture.Base.{
  ℕ, String, ◌≡◌, Bool, true, false, ◌&&◌, Option, none, some, List, [], ◌∷◌, ◌⊎◌, inl, inr,
  Comparable, ◌==◌, ◌↔◌, text_comparable, nat_beq, if◌then◌else◌, arith,
}
use local_first_architecture.Base.Int64.{Int64}
use local_first_architecture.Base.Table.{Table}
use local_first_architecture.Base.Results.{◌>>=◌, ◌>>◌, require, found}
use local_first_architecture.Warehouse.Hlc.{Hlc}
use local_first_architecture.Warehouse.World.{World}

pub record EventId : Type 0 where
  pub node_id : String
  pub seq : ℕ

abbrev pub same_id : EventId → EventId → Bool
same_id i j = i.node_id == j.node_id && nat_beq i.seq j.seq

pub same_id_iff : (i j : EventId) → (same_id i j ≡ true) ↔ (i ≡ j)
same_id_iff i j = (
  λ h. ground (arith, text_comparable.same_iff i.node_id j.node_id),
  λ h. ground (arith, text_comparable.same_iff i.node_id j.node_id),
)

instance abbrev pub id_comparable : Comparable EventId
id_comparable = record { same = same_id; same_iff = same_id_iff }

-- LocationCode
abbrev pub external : String
external = "external"

pub record StockKey : Type 0 where
  pub sku : String
  pub location : String
  pub lot_id : String

abbrev pub same_key : StockKey → StockKey → Bool
same_key j k = j.sku == k.sku && j.location == k.location && j.lot_id == k.lot_id

pub same_key_iff : (j k : StockKey) → (same_key j k ≡ true) ↔ (j ≡ k)
same_key_iff j k =
    let a = text_comparable.same_iff j.sku k.sku in
    let b = text_comparable.same_iff j.location k.location in
    let c = text_comparable.same_iff j.lot_id k.lot_id in
    (λ h. ground (arith, a, b, c), λ h. ground (arith, a, b, c))

instance abbrev pub key_comparable : Comparable StockKey
key_comparable = record { same = same_key; same_iff = same_key_iff }

-- The rules that a RuleError names; its text is left out.
pub data Rule : Type 0 where
  stock_non_negative reservation_available lot_not_expired uom_valid sku_exists : Rule
  location_exists lot_required aggregate_state qty_positive : Rule

-- The Reason constants.
pub data Reason : Type 0 where
  count_variance po_over_receipt duplicate_receipt unknown_sku transfer_rejected : Reason
  transfer_over_receipt : Reason

module _ (w : World) where
  pub record Item : Type 0 where
    pub sku : String
    pub description : String
    pub base_uom : String
    pub alt_uom : Table String w.Qty
    pub lot_tracked : Bool
    pub shelf_life_days : Int64
    pub deleted : Bool

  pub record Movement : Type 0 where
    pub sku : String
    pub lot_id : String
    pub from : String
    pub to : String
    pub qty : w.Qty

  pub record ReceiptLine : Type 0 where
    pub receipt_id : String
    pub line_no : Int64
    pub sku : String
    pub lot_id : String
    pub qty_base : w.Qty

  -- The payload types, with their fields in the source's order.
  pub data Payload : Type 0 where
    goods_received : (receipt_id delivery_note po_ref : String) → Movement → Payload
    put_away : Movement → Payload
    picked : Movement → (order_ref : String) → Payload
    stock_adjusted : Movement → Reason → Payload
    stock_reserved : (reservation_id : String) → StockKey → w.Qty → Payload
    reservation_released reservation_consumed : (reservation_id : String) → Payload
    transfer_dispatched : (transfer_id from_node to_node : String) → List Movement → Payload
    transfer_received : (transfer_id : String) → List Movement → Payload
    receipt_opened : (receipt_id delivery_note po_ref : String) → Payload
    receipt_line_recorded : ReceiptLine → Payload
    receipt_closed : (receipt_id : String) → Payload
    count_started : (count_id location : String) → Payload
    count_line_counted : (count_id : String) → StockKey → w.Qty → Payload
    count_closed : (count_id : String) → Payload
    item_upserted : Item → Payload
    location_registered : (code kind : String) → Payload

  pub record Event : Type 0 where
    pub typ : String
    pub aggregate_id : String
    pub payload : Payload

  pub record Envelope : Type 0 where
    pub id : EventId
    pub aggregate_id : String
    pub typ : String
    pub hlc : Hlc
    pub recorded_at : w.Time
    pub causation_id : Option EventId
    pub payload : w.Raw

  -- m.FromKey() and m.ToKey()
  abbrev pub from_key : Movement → StockKey
  from_key m = record { sku = m.sku; location = m.from; lot_id = m.lot_id }

  abbrev pub to_key : Movement → StockKey
  to_key m = record { sku = m.sku; location = m.to; lot_id = m.lot_id }
