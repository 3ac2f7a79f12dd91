-- ===== src/Warehouse/Command/Transfer.antt =====
-- transfer.go: dispatching stock to another node, and receiving it.
use local_first_architecture.Base.{
  String, Bool, true, false, not, List, [], ◌∷◌, ◌⊎◌, inr, ◌==◌, text_comparable,
}
use local_first_architecture.Base.Table.{Table, lookup, insert}
use local_first_architecture.Base.Results.{◌>>=◌, ◌>>◌, require, found}
use local_first_architecture.Warehouse.World.{World}
use local_first_architecture.Warehouse.Event.{
  StockKey, key_comparable, Rule, aggregate_state, qty_positive, Event, Movement, external,
  from_key, transfer_dispatched, transfer_received,
}
use local_first_architecture.Warehouse.State.{State, TransferState, is_in_flight, qty_at}
use local_first_architecture.Warehouse.Command.{
  Line, resolve_line, require_location, require_on_hand, require_lot_usable,
}
use local_first_architecture.Warehouse.Command.Reserve.{absent}

-- len(lines) > 0
abbrev pub is_some {ℓ} : {A : Type ℓ} → List A → Bool
is_some [] = false
is_some (x ∷ xs) = true

module _ (w : World) where
  -- t.InTransit(k)
  unfoldable pub in_transit : TransferState w → StockKey → w.Qty
  in_transit t k =
      let bare : StockKey = record { sku = k.sku; location = ""; lot_id = k.lot_id } in
      w.sub (qty_at w bare t.dispatched) (qty_at w bare t.received)

  pub record DispatchTransferCmd : Type 0 where
    pub transfer_id : String
    pub from_node : String
    pub to_node : String
    pub from : String
    pub lines : List (Line w)
    pub at : w.Time

  -- The loop of DoDispatchTransfer; `running` has what the lines before have drawn.
  unfoldable pub dispatch_moves :
      State w
      → DispatchTransferCmd
      → Table StockKey w.Qty
      → List (Line w)
      → Rule ⊎ List (Movement w)
  dispatch_moves s c running [] = inr []
  dispatch_moves s c running (l ∷ ls) = do
    m ← resolve_line w s l
    require_lot_usable w s l.lot_id c.at
    let move : Movement w = record m { from = c.from; to = external }
    let drawn = w.add (qty_at w (from_key w move) running) move.qty
    require_on_hand w s (from_key w move) drawn
    moves ← dispatch_moves s c (insert (from_key w move) drawn running) ls
    inr (move ∷ moves)

  -- DoDispatchTransfer(s, c)
  unfoldable pub do_dispatch_transfer : State w → DispatchTransferCmd → Rule ⊎ List (Event w)
  do_dispatch_transfer s c = do
    require (is_some c.lines) qty_positive
    require (not (c.to_node == c.from_node)) aggregate_state
    absent (lookup c.transfer_id s.transfers)
    require_location w s c.from
    moves ← dispatch_moves s c [] c.lines
    inr (
        record {
          typ = "TransferDispatched";
          aggregate_id = c.transfer_id;
          payload = transfer_dispatched c.transfer_id c.from_node c.to_node moves;
        }
        ∷ [])

  pub record ReceiveTransferCmd : Type 0 where
    pub transfer_id : String
    pub to : String
    pub lines : List (Line w)

  -- The loop of DoReceiveTransfer.
  unfoldable pub receive_moves :
      State w → ReceiveTransferCmd → List (Line w) → Rule ⊎ List (Movement w)
  receive_moves s c [] = inr []
  receive_moves s c (l ∷ ls) = do
    m ← resolve_line w s l
    moves ← receive_moves s c ls
    inr (record m { from = external; to = c.to } ∷ moves)

  -- DoReceiveTransfer(s, c)
  unfoldable pub do_receive_transfer : State w → ReceiveTransferCmd → Rule ⊎ List (Event w)
  do_receive_transfer s c = do
    require (is_some c.lines) qty_positive
    t ← found (lookup c.transfer_id s.transfers) aggregate_state
    require (is_in_flight t.status) aggregate_state
    require_location w s c.to
    moves ← receive_moves s c c.lines
    inr (
        record {
          typ = "TransferReceived";
          aggregate_id = c.transfer_id;
          payload = transfer_received c.transfer_id moves;
        }
        ∷ [])
