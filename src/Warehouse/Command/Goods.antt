-- ===== src/Warehouse/Command/Goods.antt =====
-- stock.go and receipt.go: putting away, picking, receiving and closing a receipt.
use local_first_architecture.Base.{
  String, not, ◌||◌, none, some, List, [], ◌∷◌, ◌++◌, ◌⊎◌, inl, inr, ◌==◌, text_comparable,
  if◌then◌else◌,
}
use local_first_architecture.Base.Int64.{Int64, plus}
use local_first_architecture.Base.Table.{lookup}
use local_first_architecture.Base.Results.{◌>>=◌, ◌>>◌, require, found}
use local_first_architecture.Warehouse.World.{World}
use local_first_architecture.Warehouse.Event.{
  Rule, aggregate_state, Event, Movement, external, from_key, put_away, picked, goods_received,
  receipt_opened, receipt_line_recorded, receipt_closed,
}
use local_first_architecture.Warehouse.State.{State, is_open_receipt}
use local_first_architecture.Warehouse.Command.{
  Line, resolve_line, require_location, require_on_hand, require_lot_usable,
}

module _ (w : World) where
  pub record PutAwayCmd : Type 0 where
    pub line : Line w
    pub from : String
    pub to : String

  -- DoPutAway(s, c)
  unfoldable pub do_put_away : State w → PutAwayCmd → Rule ⊎ List (Event w)
  do_put_away s c = do
    m ← resolve_line w s c.line
    require_location w s c.from
    require_location w s c.to
    let move : Movement w = record m { from = c.from; to = c.to }
    require_on_hand w s (from_key w move) move.qty
    inr (record { typ = "PutAway"; aggregate_id = c.line.sku; payload = put_away move } ∷ [])

  pub record PickCmd : Type 0 where
    pub line : Line w
    pub from : String
    pub order_ref : String
    pub at : w.Time

  -- DoPick(s, c)
  unfoldable pub do_pick : State w → PickCmd → Rule ⊎ List (Event w)
  do_pick s c = do
    m ← resolve_line w s c.line
    require_location w s c.from
    require_lot_usable w s c.line.lot_id c.at
    let move : Movement w = record m { from = c.from; to = external }
    require_on_hand w s (from_key w move) move.qty
    inr (
        record { typ = "Picked"; aggregate_id = c.line.sku; payload = picked move c.order_ref }
        ∷ [])

  pub record ReceiveCmd : Type 0 where
    pub receipt_id : String
    pub delivery_note : String
    pub po_ref : String
    pub line : Line w
    pub to : String

  -- The switch of DoReceive: the events so far, the note, the PO and the number of the line.
  unfoldable pub receipt_for :
      State w → ReceiveCmd → Rule ⊎ (List (Event w) × String × String × Int64)
  receipt_for s c = elim (lookup c.receipt_id s.receipts) [
    | none ↦
        if c.delivery_note == "" || c.po_ref == ""
        then inl aggregate_state
        else inr (
          record {
            typ = "ReceiptOpened";
            aggregate_id = c.receipt_id;
            payload = receipt_opened c.receipt_id c.delivery_note c.po_ref;
          }
              ∷ [],
          c.delivery_note,
          c.po_ref,
          plus 1,
        )
    | some r ↦
        if not (is_open_receipt r.status)
        then inl aggregate_state
        else inr ([], r.delivery_note, r.po_ref, r.next_line_no)
  ]

  -- The events of a received line.
  abbrev pub received_events :
      ReceiveCmd → List (Event w) × String × String × Int64 → Movement w → List (Event w)
  received_events c opened move =
      record {
        typ = "ReceiptLineRecorded";
        aggregate_id = c.receipt_id;
        payload = receipt_line_recorded (record {
          receipt_id = c.receipt_id;
          line_no = opened.3;
          sku = c.line.sku;
          lot_id = c.line.lot_id;
          qty_base = move.qty;
        });
      }
      ∷ record {
        typ = "GoodsReceived";
        aggregate_id = c.receipt_id;
        payload = goods_received c.receipt_id opened.1 opened.2 move;
      }
      ∷ []

  -- DoReceive(s, c)
  unfoldable pub do_receive : State w → ReceiveCmd → Rule ⊎ List (Event w)
  do_receive s c = do
    m ← resolve_line w s c.line
    require_location w s c.to
    let move : Movement w = record m { from = external; to = c.to }
    opened ← receipt_for s c
    inr (opened.0 ++ received_events c opened move)

  -- DoCloseReceipt(s, c), whose command has the id alone
  unfoldable pub do_close_receipt : State w → String → Rule ⊎ List (Event w)
  do_close_receipt s receipt_id = do
    r ← found (lookup receipt_id s.receipts) aggregate_state
    require (is_open_receipt r.status) aggregate_state
    inr (
        record {
          typ = "ReceiptClosed";
          aggregate_id = receipt_id;
          payload = receipt_closed receipt_id;
        }
        ∷ [])
