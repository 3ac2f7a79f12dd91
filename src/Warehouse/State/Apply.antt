-- ===== src/Warehouse/State/Apply.antt =====
-- state.go: Apply, which folds one envelope into the state.
use local_first_architecture.Base.{
  String, Bool, ◌&&◌, ◌||◌, none, some, List, [], ◌∷◌, ◌++◌, ◌⊎◌, inr, ltb, leb, ◌==◌,
  text_comparable, nat_comparable, if◌then◌else◌,
}
use local_first_architecture.Base.Int64.{Int64, int_zero, add_int, plus}
use local_first_architecture.Base.Table.{Table, lookup, lookup_or, insert, delete}
use local_first_architecture.Base.Results.{◌>>=◌}
use local_first_architecture.Warehouse.World.{World}
use local_first_architecture.Warehouse.Event.{
  StockKey, key_comparable, Item, Movement, ReceiptLine, Envelope, Payload, goods_received,
  put_away, picked, stock_adjusted, stock_reserved, reservation_released, reservation_consumed,
  transfer_dispatched, transfer_received, receipt_opened, receipt_line_recorded, receipt_closed,
  count_started, count_line_counted, count_closed, item_upserted, location_registered,
}
use local_first_architecture.Warehouse.Event.Seal.{Codec, EventError, decode_payload}
use local_first_architecture.Warehouse.State.{
  State, Lot, ReservationStatus, active, released, consumed, open_receipt, closed_receipt,
  TransferState, in_flight, complete, is_in_flight, open_count, closed_count, PendingReceipt,
  qty_at, fully_received, move,
}

module _ (w : World) where
  -- The bare key of a transfer's balances.
  abbrev pub bare_key : Movement w → StockKey
  bare_key m = record { sku = m.sku; location = ""; lot_id = m.lot_id }

  -- s.registerLot(m, at)
  unfoldable pub register_lot : String → String → w.Time → State w → State w
  register_lot sku lot_id at s = if lot_id == "" then s else elim (lookup lot_id s.lots) [
    | some lot ↦ s
    | none ↦
        let expires_on : w.Time = elim (lookup sku s.items) [
          | none ↦ w.no_time
          | some it ↦
              if ltb int_zero it.shelf_life_days
              then w.add_days (w.utc at) it.shelf_life_days
              else w.no_time
        ] in
        record s {
          lots =
              insert lot_id
                (record { id = lot_id; sku = sku; received_at = w.utc at; expires_on = expires_on })
                s.lots;
          lots_by_sku = insert sku (lookup_or [] sku s.lots_by_sku ++ (lot_id ∷ [])) s.lots_by_sku;
        }
  ]

  -- The zero value of a Lot.
  abbrev pub no_lot : Lot w
  no_lot = record { id = ""; sku = ""; received_at = w.no_time; expires_on = w.no_time }

  unfoldable pub date_lots : Int64 → List String → Table String (Lot w) → Table String (Lot w)
  date_lots days [] lots = lots
  date_lots days (id ∷ ids) lots =
      let lot = lookup_or no_lot id lots in
      let dated = insert id (record lot { expires_on = w.add_days lot.received_at days }) lots in
      date_lots days ids (if w.is_zero lot.expires_on then dated else lots)

  -- s.backfillLotExpiry(item)
  unfoldable pub backfill_lot_expiry : Item w → State w → State w
  backfill_lot_expiry it s = if leb it.shelf_life_days int_zero then s else record s {
    lots = date_lots it.shelf_life_days (lookup_or [] it.sku s.lots_by_sku) s.lots;
  }

  -- s.setReservationStatus(id, status)
  unfoldable pub set_reservation_status : String → ReservationStatus → State w → State w
  set_reservation_status id status s = elim (lookup id s.reservations) [
    | none ↦ s
    | some r ↦ record s { reservations = insert id (record r { status = status }) s.reservations }
  ]

  -- Dispatched[…] += line.Qty, or Received[…], over the lines
  unfoldable pub tally : List (Movement w) → Table StockKey w.Qty → Table StockKey w.Qty
  tally [] m = m
  tally (l ∷ ls) m = tally ls (insert (bare_key l) (w.add (qty_at w (bare_key l) m) l.qty) m)

  -- if mine { s.move(line) }, over the lines
  unfoldable pub move_all : Bool → List (Movement w) → State w → State w
  move_all mine [] s = s
  move_all mine (l ∷ ls) s = move_all mine ls (if mine then move w l s else s)

  abbrev pub lines_of : List (PendingReceipt w) → List (Movement w)
  lines_of [] = []
  lines_of (p ∷ ps) = p.line ∷ lines_of ps

  abbrev pub buffer : w.Time → List (Movement w) → List (PendingReceipt w)
  buffer at [] = []
  buffer at (l ∷ ls) = record { line = l; buffered_at = at } ∷ buffer at ls

  -- if t.Status == TransferInFlight && t.fullyReceived() { t.Status = TransferComplete }
  unfoldable pub completed : TransferState w → TransferState w
  completed t =
      if is_in_flight t.status && fully_received w t.received t.dispatched
      then record t { status = complete }
      else t

  -- The transfer of a dispatch: the one that is there, or a new one.
  abbrev pub transfer_for : String → String → String → State w → TransferState w
  transfer_for id from_node to_node s =
      lookup_or
        (record {
          id = id;
          from_node = from_node;
          to_node = to_node;
          dispatched = [];
          received = [];
          status = in_flight;
        })
        id s.transfers

  -- The case TransferDispatched of Apply; a loop that counts and moves is written as two.
  unfoldable pub apply_dispatch : String → String → String → List (Movement w) → State w → State w
  apply_dispatch id from_node to_node lines s =
      let t = transfer_for id from_node to_node s in
      let sent : TransferState w = record t { dispatched = tally lines t.dispatched } in
      let s' = move_all (s.apply_all_movements || s.home == from_node) lines s in
      elim (lookup id s.pending_receipts) [
        | none ↦ record s' { transfers = insert id sent s'.transfers }
        | some pending ↦
            let mine = s.apply_all_movements || s.home == to_node in
            let s'' = move_all mine (lines_of pending) s' in
            let both =
              completed (record sent { received = tally (lines_of pending) sent.received }) in
            record s'' {
              pending_receipts = delete id s''.pending_receipts;
              transfers = insert id both s''.transfers;
            }
      ]

  -- The case TransferReceived.
  unfoldable pub apply_receipt : w.Time → String → List (Movement w) → State w → State w
  apply_receipt at id lines s = elim (lookup id s.transfers) [
    | none ↦ elim lines [
      | [] ↦ s
      | l ∷ ls ↦ record s {
        pending_receipts =
            insert id (lookup_or [] id s.pending_receipts ++ buffer at (l ∷ ls)) s.pending_receipts;
      }
    ]
    | some t ↦
        let s' = move_all (s.apply_all_movements || s.home == t.to_node) lines s in
        record s' {
          transfers =
              insert id (completed (record t { received = tally lines t.received })) s'.transfers;
        }
  ]

  -- The case ReceiptLineRecorded.
  unfoldable pub apply_line : ReceiptLine w → State w → State w
  apply_line p s = elim (lookup p.receipt_id s.receipts) [
    | none ↦ s
    | some r ↦
        let next =
          if leb r.next_line_no p.line_no then add_int p.line_no (plus 1) else r.next_line_no in
        record s {
          receipts =
              insert p.receipt_id
                (record r { lines = insert p.line_no p r.lines; next_line_no = next }) s.receipts;
        }
  ]

  -- The switch of Apply.
  unfoldable pub apply_payload : w.Time → Payload w → State w → State w
  apply_payload at (item_upserted it) s =
      backfill_lot_expiry it (record s { items = insert it.sku it s.items })
  apply_payload at (location_registered code kind) s = record s {
    locations = insert code kind s.locations;
  }
  apply_payload at (goods_received receipt_id delivery_note po_ref m) s =
      move w m (register_lot m.sku m.lot_id at s)
  apply_payload at (put_away m) s = move w m s
  apply_payload at (picked m order_ref) s = move w m s
  apply_payload at (stock_adjusted m reason) s = move w m s
  apply_payload at (stock_reserved id key qty) s = record s {
    reservations =
        insert id (record { id = id; key = key; qty = qty; status = active }) s.reservations;
  }
  apply_payload at (reservation_released id) s = set_reservation_status id released s
  apply_payload at (reservation_consumed id) s = set_reservation_status id consumed s
  apply_payload at (receipt_opened id delivery_note po_ref) s = record s {
    receipts =
        insert id
          (record {
            id = id;
            delivery_note = delivery_note;
            po_ref = po_ref;
            status = open_receipt;
            lines = [];
            next_line_no = plus 1;
          })
          s.receipts;
  }
  apply_payload at (receipt_line_recorded p) s = register_lot p.sku p.lot_id at (apply_line p s)
  apply_payload at (receipt_closed id) s = elim (lookup id s.receipts) [
    | none ↦ s
    | some r ↦ record s { receipts = insert id (record r { status = closed_receipt }) s.receipts }
  ]
  apply_payload at (transfer_dispatched id from_node to_node lines) s =
      apply_dispatch id from_node to_node lines s
  apply_payload at (transfer_received id lines) s = apply_receipt at id lines s
  apply_payload at (count_started id location) s = record s {
    counts =
        insert id (record { id = id; location = location; status = open_count; counted = [] })
          s.counts;
  }
  apply_payload at (count_line_counted id key qty) s = elim (lookup id s.counts) [
    | none ↦ s
    | some c ↦ record s {
      counts = insert id (record c { counted = insert key qty c.counted }) s.counts;
    }
  ]
  apply_payload at (count_closed id) s = elim (lookup id s.counts) [
    | none ↦ s
    | some c ↦ record s { counts = insert id (record c { status = closed_count }) s.counts }
  ]

  abbrev pub noted : Envelope w → State w → State w
  noted env s = elim env.causation_id [
    | none ↦ s
    | some cause ↦ record s { compensations = s.compensations ++ (env ∷ []) }
  ]

  -- s.Apply(envelope)
  unfoldable pub apply : Codec w → Envelope w → State w → EventError ⊎ State w
  apply codec env s = do
    p ← decode_payload codec env
    inr (apply_payload env.recorded_at p (noted env s))
