-- ===== src/Warehouse/Central.antt =====
-- warehouse-node/internal/central: store.go and memory.go, what the central server keeps. A composite
-- key, which the code joins with a NUL byte, is the pair of its parts. No operation of the memory
-- store fails but AddReceived and EmitCentral; the mutex is left out.
pub mod Log
pub mod Report
pub mod Paging
use local_first_architecture.Base.{
  ℕ, ◌+◌, ◌%◌, ◌^◌, String, Bool, true, false, not, ◌&&◌, ◌||◌, Option, none, some, List, [], ◌∷◌,
  ◌++◌, ltb, leb, ◌==◌, Comparable, text_comparable, pair_comparable, if◌then◌else◌,
}
use local_first_architecture.Base.Int64.{int_zero}
use local_first_architecture.Base.Table.{Table, lookup, lookup_or, insert}
use local_first_architecture.Warehouse.World.{World}
use local_first_architecture.Warehouse.Hlc.{Hlc}
use local_first_architecture.Warehouse.Event.{
  EventId, id_comparable, StockKey, key_comparable, Reason, Item, Envelope,
}

-- CentralNode
abbrev pub central_node : String
central_node = "central"

pub data Verdict : Type 0 where
  accepted rejected : Verdict

pub record Decision : Type 0 where
  pub event_id : EventId
  pub verdict : Verdict
  pub reason : Option Reason
  pub compensating_id : Option EventId

-- The key of a line of a transfer, for which the location is left out.
abbrev pub bare : StockKey → StockKey
bare k = record k { location = "" }

module _ (w : World) where
  pub record ReceiptFact : Type 0 where
    pub event_id : EventId
    pub node : String
    pub po_ref : String
    pub delivery_note : String
    pub sku : String
    pub qty_base : w.Qty

  pub record InTransitRow : Type 0 where
    pub transfer_id : String
    pub key : StockKey
    pub from_node : String
    pub to_node : String
    pub dispatched : w.Qty
    pub received : w.Qty
    pub dispatched_at : w.Time
    pub failed : Bool

  pub record Outbound : Type 0 where
    pub ord : ℕ
    pub env : Envelope w

  pub record Memory : Type 0 where
    pub events : Table EventId (Envelope w)
    pub central_hl : Hlc
    pub central_n : ℕ
    pub pushed : Table String ℕ
    pub delivered : Table String ℕ
    pub queue : Table String (List Outbound)
    pub next_ord : ℕ
    pub items : Table String (Item w)
    pub orders : Table (String × String) w.Qty
    pub receipts : Table EventId ReceiptFact
    pub nodes : Table String (List String)
    pub transit : Table (String × StockKey) InTransitRow
    pub decisions : Table EventId Decision
    pub enqueued : Table (String × EventId) Bool
    pub folded : Table (EventId × StockKey) w.Qty

  -- NewMemory()
  unfoldable pub new_memory : Memory
  new_memory = record {
    events = [];
    central_hl = record { wall = int_zero; counter = 0; node = "" };
    central_n = 0;
    pushed = [];
    delivered = [];
    queue = [];
    next_ord = 0;
    items = [];
    orders = [];
    receipts = [];
    nodes = [];
    transit = [];
    decisions = [];
    enqueued = [];
    folded = [];
  }

module _ {w : World} where
  -- The cursors of the sync.
  unfoldable pub pushed_seq : Memory w → String → ℕ
  pushed_seq m node = lookup_or 0 node m.pushed

  unfoldable pub set_pushed_seq : String → ℕ → Memory w → Memory w
  set_pushed_seq node seq m = record m { pushed = insert node seq m.pushed }

  unfoldable pub delivered_ord : Memory w → String → ℕ
  delivered_ord m node = lookup_or 0 node m.delivered

  unfoldable pub set_delivered_ord : String → ℕ → Memory w → Memory w
  set_delivered_ord node ord m = record m { delivered = insert node ord m.delivered }

  -- The reference data.
  unfoldable pub upsert_item : Item w → Memory w → Memory w
  upsert_item it m = record m { items = insert it.sku it m.items }

  unfoldable pub upsert_purchase_order : String → String → w.Qty → Memory w → Memory w
  upsert_purchase_order po_ref sku ordered m = record m {
    orders = insert (po_ref, sku) ordered m.orders;
  }

  abbrev pub purchase_order : Memory w → String → String → Option w.Qty
  purchase_order m po_ref sku = lookup (po_ref, sku) m.orders

  -- RegisterNode and NodeConfig: the set of the SKUs that a node refuses, as their list
  unfoldable pub register_node : String → List String → Memory w → Memory w
  register_node node rejects m = record m { nodes = insert node rejects m.nodes }

  abbrev pub node_config : Memory w → String → Option (List String)
  node_config m node = lookup node m.nodes

  -- RecordReceipt, once for each event
  unfoldable pub record_receipt : ReceiptFact w → Memory w → Memory w
  record_receipt f m = elim (lookup f.event_id m.receipts) [
    | some there ↦ m
    | none ↦ record m { receipts = insert f.event_id f m.receipts }
  ]

  -- The loop of ReceivedAgainstPO.
  unfoldable pub sum_receipts : String → String → w.Qty → Table EventId (ReceiptFact w) → w.Qty
  sum_receipts po_ref sku total [] = total
  sum_receipts po_ref sku total ((id, f) ∷ fs) =
      if f.po_ref == po_ref && f.sku == sku
      then sum_receipts po_ref sku (w.add total f.qty_base) fs
      else sum_receipts po_ref sku total fs

  unfoldable pub received_against_po : Memory w → String → String → w.Qty
  received_against_po m po_ref sku = sum_receipts po_ref sku w.zero m.receipts

  -- RecordDispatch
  unfoldable pub record_dispatch : InTransitRow w → Memory w → Memory w
  record_dispatch row m =
      let key : String × StockKey = (row.transfer_id, bare row.key) in
      elim (lookup key m.transit) [
        | none ↦ record m { transit = insert key row m.transit }
        | some r ↦ record m {
          transit = insert key (record r { dispatched = row.dispatched }) m.transit;
        }
      ]

  -- AddReceived: `none` is the error of a line that was not dispatched.
  unfoldable pub add_received : EventId → String → StockKey → w.Qty → Memory w → Option (Memory w)
  add_received id transfer_id k qty m = elim (lookup (transfer_id, bare k) m.transit) [
    | none ↦ none
    | some row ↦ elim (lookup (id, bare k) m.folded) [
      | some done ↦ some m
      | none ↦ some (record m {
        folded = insert (id, bare k) qty m.folded;
        transit =
            insert (transfer_id, bare k) (record row { received = w.add row.received qty })
              m.transit;
      })
    ]
  ]

  -- ReceivedFromEvent
  abbrev pub received_from_event : Memory w → EventId → StockKey → w.Qty
  received_from_event m id k = lookup_or w.zero (id, bare k) m.folded

  abbrev pub in_transit : Memory w → String → StockKey → Option (InTransitRow w)
  in_transit m transfer_id k = lookup (transfer_id, bare k) m.transit

  -- FailTransfer
  unfoldable pub fail_rows :
      String
      → Table (String × StockKey) (InTransitRow w)
      → Table (String × StockKey) (InTransitRow w)
  fail_rows transfer_id [] = []
  fail_rows transfer_id ((key, row) ∷ rows) =
      let rest = fail_rows transfer_id rows in
      if row.transfer_id == transfer_id
      then (key, record row { failed = true }) ∷ rest
      else (key, row) ∷ rest

  unfoldable pub fail_transfer : String → Memory w → Memory w
  fail_transfer transfer_id m = record m { transit = fail_rows transfer_id m.transit }

  unfoldable pub record_decision : Decision → Memory w → Memory w
  record_decision d m = record m { decisions = insert d.event_id d m.decisions }

  abbrev pub decision : Memory w → EventId → Option Decision
  decision m id = lookup id m.decisions
