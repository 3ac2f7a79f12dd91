-- ===== src/Warehouse/Arbiter.antt =====
-- warehouse-node/internal/arbiter: validators.go and arbiter.go, over the memory store, whose reads do
-- not fail. The validators run in the order of New, up to the first that rejects.
pub mod Decide
use local_first_architecture.Base.{
  String, Bool, true, false, not, ◌&&◌, ◌||◌, Option, none, some, List, [], ◌∷◌, ◌==◌,
  text_comparable, pair_comparable, if◌then◌else◌,
}
use local_first_architecture.Base.Int64.{Int64, int_zero}
use local_first_architecture.Base.Table.{Table, lookup}
use local_first_architecture.Warehouse.World.{World}
use local_first_architecture.Warehouse.Event.{
  EventId, id_comparable, StockKey, key_comparable, Reason, duplicate_receipt, po_over_receipt,
  transfer_rejected, transfer_over_receipt, Item, Movement, Payload, goods_received,
  transfer_dispatched, transfer_received, stock_adjusted, receipt_line_recorded, Event,
}
use local_first_architecture.Warehouse.Event.Seal.{among}
use local_first_architecture.Warehouse.Central.{
  ReceiptFact, InTransitRow, Memory, purchase_order, node_config, received_against_po,
  received_from_event, in_transit,
}
use local_first_architecture.Warehouse.Central.Log.{delivery_note_first_seen}

module _ (w : World) where
  pub record Rejection : Type 0 where
    pub reason : Reason
    pub events : List (Event w)
    pub excess : w.Qty

module _ {w : World} where
  -- movementsOf(payload)
  unfoldable pub movements_of : Payload w → List (Movement w)
  movements_of (goods_received receipt_id delivery_note po_ref m) = m ∷ []
  movements_of (transfer_dispatched id from_node to_node lines) = lines
  movements_of (transfer_received id lines) = lines
  movements_of _ = []

  -- reverse(m, qty)
  abbrev pub reverse : Movement w → w.Qty → Movement w
  reverse m qty = record { sku = m.sku; lot_id = m.lot_id; from = m.to; to = m.from; qty = qty }

  -- adjustment(aggregateID, move, reason)
  abbrev pub adjustment : String → Movement w → Reason → Event w
  adjustment aggregate_id move reason = record {
    typ = "StockAdjusted";
    aggregate_id = aggregate_id;
    payload = stock_adjusted move reason;
  }

  -- The events and the excess that a loop of a validator has gathered; without events it accepts.
  abbrev pub gathered : Reason → List (Event w) → w.Qty → Option (Rejection w)
  gathered reason [] excess = none
  gathered reason (e ∷ es) excess =
      some (record { reason = reason; events = e ∷ es; excess = excess })

  -- ok && !item.Deleted
  abbrev pub is_stocked : Option (Item w) → Bool
  is_stocked none = false
  is_stocked (some it) = not it.deleted

  -- The loop of unknownSKU: the movements that it rejects.
  unfoldable pub unknown_moves : Table String (Item w) → List (Movement w) → List (Movement w)
  unknown_moves items [] = []
  unknown_moves items (m ∷ ms) =
      let rest = unknown_moves items ms in
      if is_stocked (lookup m.sku items) then rest else m ∷ rest

  unfoldable pub sum_qty : w.Qty → List (Movement w) → w.Qty
  sum_qty excess [] = excess
  sum_qty excess (m ∷ ms) = sum_qty (w.add excess m.qty) ms

  unfoldable pub undo_each : (Movement w → String) → Reason → List (Movement w) → List (Event w)
  undo_each aggregate reason [] = []
  undo_each aggregate reason (m ∷ ms) =
      adjustment (aggregate m) (reverse m m.qty) reason ∷ undo_each aggregate reason ms

  -- unknownSKU
  unfoldable pub unknown_sku : Memory w → Payload w → Option (Rejection w)
  unknown_sku s p =
      let ms = unknown_moves s.items (movements_of p) in
      gathered Reason.unknown_sku (undo_each (λ m. m.sku) Reason.unknown_sku ms) (sum_qty w.zero ms)

  -- duplicateDeliveryNote
  unfoldable pub duplicate_delivery_note : Memory w → EventId → Payload w → Option (Rejection w)
  duplicate_delivery_note s id (goods_received receipt_id note po_ref m) =
      elim (delivery_note_first_seen s note m.sku) [
        | none ↦ none
        | some first ↦
            if first == id
            then none
            else some (record {
              reason = duplicate_receipt;
              events = adjustment m.sku (reverse m m.qty) duplicate_receipt ∷ [];
              excess = m.qty;
            })
      ]
  duplicate_delivery_note s id _ = none

  -- The quantity received against the order by other events.
  abbrev pub already_received : Memory w → EventId → String → String → w.Qty
  already_received s id po_ref sku = elim (lookup id s.receipts) [
    | none ↦ received_against_po s po_ref sku
    | some own ↦ w.sub (received_against_po s po_ref sku) own.qty_base
  ]

  -- The rejection of an excess over an order.
  abbrev pub over_receipt : String → Movement w → w.Qty → Rejection w
  over_receipt receipt_id m excess = record {
    reason = po_over_receipt;
    events =
        adjustment m.sku (reverse m excess) po_over_receipt
        ∷ record {
          typ = "ReceiptLineRecorded";
          aggregate_id = receipt_id;
          payload = receipt_line_recorded (record {
            receipt_id = receipt_id;
            line_no = int_zero;
            sku = m.sku;
            lot_id = m.lot_id;
            qty_base = w.neg excess;
          });
        }
        ∷ [];
    excess = excess;
  }

  -- poOverReceipt
  unfoldable pub po_excess : Memory w → EventId → Payload w → Option (Rejection w)
  po_excess s id (goods_received receipt_id note po_ref m) = elim (purchase_order s po_ref m.sku) [
    | none ↦ none
    | some ordered ↦
        let excess = w.sub (w.add (already_received s id po_ref m.sku) m.qty) ordered in
        if w.le excess w.zero
        then none
        else some (over_receipt receipt_id m (if w.lt m.qty excess then m.qty else excess))
  ]
  po_excess s id _ = none

  unfoldable pub any_refused : List String → List (Movement w) → Bool
  any_refused rejects [] = false
  any_refused rejects (m ∷ ms) = among m.sku rejects || any_refused rejects ms

  -- !known, or a line that the node refuses
  abbrev pub is_refused : Option (List String) → List (Movement w) → Bool
  is_refused none ms = true
  is_refused (some rejects) ms = any_refused rejects ms

  -- transferDestination; a rejection has events only where there are lines.
  unfoldable pub transfer_destination : Memory w → Payload w → Option (Rejection w)
  transfer_destination s (transfer_dispatched id from_node to_node lines) =
      if is_refused (node_config s to_node) lines
      then some (record {
        reason = transfer_rejected;
        events = undo_each (λ m. id) transfer_rejected lines;
        excess = sum_qty w.zero lines;
      })
      else none
  transfer_destination s _ = none

  -- What of a line is still under way, without what this event has received itself.
  abbrev pub remaining_of : Memory w → EventId → String → StockKey → w.Qty
  remaining_of s id transfer_id key = elim (in_transit s transfer_id key) [
    | none ↦ w.zero
    | some row ↦ w.sub row.dispatched (w.sub row.received (received_from_event s id key))
  ]

  -- The loop of transferOverReceipt.
  unfoldable pub over_lines :
      Memory w → EventId → String → List (Movement w) → w.Qty → List (Event w) × w.Qty
  over_lines s id transfer_id [] excess = ([], excess)
  over_lines s id transfer_id (m ∷ ms) excess =
      let key : StockKey = record { sku = m.sku; location = ""; lot_id = m.lot_id } in
      let over = w.sub m.qty (remaining_of s id transfer_id key) in
      if w.le over w.zero then over_lines s id transfer_id ms excess else (
        adjustment m.sku (reverse m over) transfer_over_receipt
            ∷ (over_lines s id transfer_id ms (w.add excess over)).0,
        (over_lines s id transfer_id ms (w.add excess over)).1,
      )

  -- transferOverReceipt
  unfoldable pub transfer_excess : Memory w → EventId → Payload w → Option (Rejection w)
  transfer_excess s id (transfer_received transfer_id lines) =
      let (events, excess) = over_lines s id transfer_id lines w.zero in
      gathered transfer_over_receipt events excess
  transfer_excess s id _ = none

  abbrev pub or_next : Option (Rejection w) → Option (Rejection w) → Option (Rejection w)
  or_next none next = next
  or_next (some r) next = some r

  -- The chain of New: the first rejection.
  unfoldable pub validate : Memory w → EventId → Payload w → Option (Rejection w)
  validate s id p = or_next (unknown_sku s p) (
      or_next (duplicate_delivery_note s id p)
        (or_next (po_excess s id p) (or_next (transfer_destination s p) (transfer_excess s id p))))
