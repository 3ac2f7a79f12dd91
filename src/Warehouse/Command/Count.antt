-- ===== src/Warehouse/Command/Count.antt =====
-- count.go: recounting a location and booking the variances.
use Prim.Native.String.{compare as compare_text}
use local_first_architecture.Base.{
  String, Bool, not, ◌&&◌, List, [], ◌∷◌, ◌++◌, ◌⊎◌, inr, ◌==◌, text_comparable, if◌then◌else◌,
}
use local_first_architecture.Base.Order.{is_lt}
use local_first_architecture.Base.Table.{Table, lookup}
use local_first_architecture.Base.Results.{◌>>=◌, ◌>>◌, require, found}
use local_first_architecture.Warehouse.World.{World}
use local_first_architecture.Warehouse.Event.{
  StockKey, Rule, aggregate_state, lot_required, Event, Movement, external, count_variance,
  stock_adjusted, count_started, count_line_counted, count_closed,
}
use local_first_architecture.Warehouse.State.{
  State, CountState, is_open_count, on_hand, qty_at, item,
}
use local_first_architecture.Warehouse.Command.{Line, to_base, require_location}
use local_first_architecture.Warehouse.Command.Reserve.{absent}

-- The order of the keys by SKU, lot and location.
unfoldable pub before_key : StockKey → StockKey → Bool
before_key j k =
    if not (j.sku == k.sku)
    then is_lt (compare_text j.sku k.sku)
    else if not (j.lot_id == k.lot_id)
    then is_lt (compare_text j.lot_id k.lot_id)
    else is_lt (compare_text j.location k.location)

-- sort.Slice by that order
unfoldable pub place_key : StockKey → List StockKey → List StockKey
place_key k [] = k ∷ []
place_key k (j ∷ js) = if before_key j k then j ∷ place_key k js else k ∷ j ∷ js

unfoldable pub sorted_keys : {V : Type 0} → Table StockKey V → List StockKey
sorted_keys [] = []
sorted_keys ((k, v) ∷ m) = place_key k (sorted_keys m)

module _ (w : World) where
  -- DoStartCount(s, c)
  unfoldable pub do_start_count : State w → String → String → Rule ⊎ List (Event w)
  do_start_count s count_id location = do
    require_location w s location
    absent (lookup count_id s.counts)
    inr (
        record {
          typ = "CountStarted";
          aggregate_id = count_id;
          payload = count_started count_id location;
        }
        ∷ [])

  -- s.requireOpenCount(id)
  unfoldable pub require_open_count : State w → String → Rule ⊎ CountState w
  require_open_count s id = do
    c ← found (lookup id s.counts) aggregate_state
    require (is_open_count c.status) aggregate_state
    inr c

  -- DoCountLine(s, c): a quantity of 0 is fine, as long as its unit is.
  unfoldable pub do_count_line : State w → String → Line w → Rule ⊎ List (Event w)
  do_count_line s count_id line = do
    c ← require_open_count s count_id
    it ← item w s line.sku
    require (not (it.lot_tracked && line.lot_id == "")) lot_required
    base ← to_base w it (if w.same line.qty w.zero then w.one else line.qty) line.uom
    inr (
        record {
          typ = "CountLineCounted";
          aggregate_id = count_id;
          payload =
              count_line_counted count_id
                (record { sku = line.sku; location = c.location; lot_id = line.lot_id })
                (if w.same line.qty w.zero then line.qty else base);
        }
        ∷ [])

  -- The movement of a variance that is not 0.
  abbrev pub variance_move : StockKey → w.Qty → Movement w
  variance_move k variance =
      if w.lt variance w.zero
      then record {
        sku = k.sku;
        lot_id = k.lot_id;
        from = k.location;
        to = external;
        qty = w.neg variance;
      }
      else record {
        sku = k.sku;
        lot_id = k.lot_id;
        from = external;
        to = k.location;
        qty = variance;
      }

  -- The loop of DoCloseCount.
  unfoldable pub variances : State w → CountState w → List StockKey → List (Event w)
  variances s c [] = []
  variances s c (k ∷ ks) =
      let variance = w.sub (qty_at w k c.counted) (on_hand w s k) in
      let rest = variances s c ks in
      if w.same variance w.zero
      then rest
      else record {
        typ = "StockAdjusted";
        aggregate_id = k.sku;
        payload = stock_adjusted (variance_move k variance) count_variance;
      }
        ∷ rest

  -- DoCloseCount(s, c)
  unfoldable pub do_close_count : State w → String → Rule ⊎ List (Event w)
  do_close_count s count_id = do
    c ← require_open_count s count_id
    inr (
        variances s c (sorted_keys c.counted)
        ++ (record { typ = "CountClosed"; aggregate_id = count_id; payload = count_closed count_id }
            ∷ []))
