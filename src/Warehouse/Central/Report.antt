-- ===== src/Warehouse/Central/Report.antt =====
-- memory.go: OpenTransfers, which arbiter.go reports as Discrepancies.
use Prim.Native.String.{compare as compare_text}
use local_first_architecture.Base.{
  String, Bool, not, ◌||◌, List, [], ◌∷◌, ◌==◌, text_comparable, if◌then◌else◌,
}
use local_first_architecture.Base.Order.{is_lt}
use local_first_architecture.Base.Table.{Table}
use local_first_architecture.Warehouse.World.{World}
use local_first_architecture.Warehouse.Event.{StockKey}
use local_first_architecture.Warehouse.Central.{InTransitRow, Memory}

module _ {w : World} where
  -- Neither failed nor empty, and dispatched before the instant.
  unfoldable pub is_open : w.Time → InTransitRow w → Bool
  is_open dispatched_before row = not (
      row.failed
      || w.le (w.sub row.dispatched row.received) w.zero
      || not (w.before row.dispatched_at dispatched_before))

  unfoldable pub open_rows :
      w.Time → Table (String × StockKey) (InTransitRow w) → List (InTransitRow w)
  open_rows dispatched_before [] = []
  open_rows dispatched_before ((key, row) ∷ rows) =
      let rest = open_rows dispatched_before rows in
      if is_open dispatched_before row then row ∷ rest else rest

  -- The order of the report: by transfer, SKU and lot.
  unfoldable pub row_before : InTransitRow w → InTransitRow w → Bool
  row_before r q =
      if not (r.transfer_id == q.transfer_id)
      then is_lt (compare_text r.transfer_id q.transfer_id)
      else if not (r.key.sku == q.key.sku)
      then is_lt (compare_text r.key.sku q.key.sku)
      else is_lt (compare_text r.key.lot_id q.key.lot_id)

  unfoldable pub place_row : InTransitRow w → List (InTransitRow w) → List (InTransitRow w)
  place_row r [] = r ∷ []
  place_row r (q ∷ qs) = if row_before q r then q ∷ place_row r qs else r ∷ q ∷ qs

  unfoldable pub sort_rows : List (InTransitRow w) → List (InTransitRow w)
  sort_rows [] = []
  sort_rows (r ∷ rs) = place_row r (sort_rows rs)

  -- OpenTransfers(dispatchedBefore)
  unfoldable pub open_transfers : Memory w → w.Time → List (InTransitRow w)
  open_transfers m dispatched_before = sort_rows (open_rows dispatched_before m.transit)
