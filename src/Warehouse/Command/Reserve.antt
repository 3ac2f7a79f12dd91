-- ===== src/Warehouse/Command/Reserve.antt =====
-- reservation.go: soft holds on stock.
use local_first_architecture.Base.{
  String, not, Option, none, some, List, [], ◌∷◌, ◌⊎◌, inl, inr, text_comparable,
}
use local_first_architecture.Base.Table.{lookup}
use local_first_architecture.Base.Results.{◌>>=◌, ◌>>◌, require, found}
use local_first_architecture.Warehouse.World.{World}
use local_first_architecture.Warehouse.Event.{
  StockKey, Rule, aggregate_state, reservation_available, Event, stock_reserved,
  reservation_released, reservation_consumed,
}
use local_first_architecture.Warehouse.State.{State, available, is_active}
use local_first_architecture.Warehouse.Command.{Line, resolve_line, require_location}

-- _, exists := m[id]; exists is a violation
abbrev pub absent {ℓ} : {A : Type ℓ} → Option A → Rule ⊎ Unit {0}
absent none = inr tt
absent (some a) = inl aggregate_state

module _ (w : World) where
  pub record ReserveCmd : Type 0 where
    pub reservation_id : String
    pub line : Line w
    pub location : String

  abbrev pub reserved_key : ReserveCmd → StockKey
  reserved_key c = record { sku = c.line.sku; location = c.location; lot_id = c.line.lot_id }

  -- DoReserve(s, c)
  unfoldable pub do_reserve : State w → ReserveCmd → Rule ⊎ List (Event w)
  do_reserve s c = do
    m ← resolve_line w s c.line
    require_location w s c.location
    absent (lookup c.reservation_id s.reservations)
    require (not (w.lt (available w s (reserved_key c)) m.qty)) reservation_available
    inr (
        record {
          typ = "StockReserved";
          aggregate_id = c.reservation_id;
          payload = stock_reserved c.reservation_id (reserved_key c) m.qty;
        }
        ∷ [])

  -- s.requireActiveReservation(id)
  unfoldable pub require_active_reservation : State w → String → Rule ⊎ Unit {0}
  require_active_reservation s id = do
    r ← found (lookup id s.reservations) aggregate_state
    require (is_active r.status) aggregate_state

  -- DoReleaseReservation(s, c), whose command has the id alone
  unfoldable pub do_release_reservation : State w → String → Rule ⊎ List (Event w)
  do_release_reservation s id = do
    require_active_reservation s id
    inr (
        record { typ = "ReservationReleased"; aggregate_id = id; payload = reservation_released id }
        ∷ [])

  -- DoConsumeReservation(s, c)
  unfoldable pub do_consume_reservation : State w → String → Rule ⊎ List (Event w)
  do_consume_reservation s id = do
    require_active_reservation s id
    inr (
        record { typ = "ReservationConsumed"; aggregate_id = id; payload = reservation_consumed id }
        ∷ [])
