-- ===== src/Warehouse/Command/Safety.antt =====
-- The rule of the stock: no command on goods takes a balance of the warehouse below zero.

use local_first_architecture.Base.{
  String, ◌≡◌, refl, sym, ap, ◌∙◌, false, List, [], ◌∷◌, ◌++◌, ◌⊎◌, inl, inr, ◌==◌, text_comparable,
  arith, Bool-cases, Option-cases, ◌||◌,
}
use local_first_architecture.Base.Int64.{Int64}
use local_first_architecture.Base.Table.{lookup}
use local_first_architecture.Warehouse.World.{World, RoundsWell}
use local_first_architecture.Warehouse.Event.{
  StockKey, key_comparable, Rule, Event, Movement, ReceiptLine, external, receipt_opened,
}
use local_first_architecture.Warehouse.State.{State, move_stock, is_open_receipt}
use local_first_architecture.Warehouse.State.Apply.{apply_payload, apply_line, register_lot}
use local_first_architecture.Warehouse.State.Balance.{
  NotNegative, move_stock-NotNegative, move_stock-credit, register_lot-stock, apply_line-stock,
}
use local_first_architecture.Warehouse.Command.Goods.{
  PutAwayCmd, do_put_away, PickCmd, do_pick, ReceiveCmd, receipt_for, received_events, do_receive,
}
use local_first_architecture.Warehouse.Command.Guards.{
  resolve_line-positive, put_away_accepted, pick_accepted, receive_accepted,
}

module _ (w : World) where
  pub data Command : Type 0 where
    puts_away : PutAwayCmd w → Command
    picks : PickCmd w → Command
    receives : ReceiveCmd w → Command

  abbrev pub handle : State w → Command → Rule ⊎ List (Event w)
  handle s (puts_away c) = do_put_away w s c
  handle s (picks c) = do_pick w s c
  handle s (receives c) = do_receive w s c

  -- The events of a command, applied as the log records them.
  abbrev pub apply_events : w.Time → List (Event w) → State w → State w
  apply_events at [] s = s
  apply_events at (e ∷ es) s = apply_events at es (apply_payload w at e.payload s)

module _ (w : World) (rounds : RoundsWell w) where
  abbrev Kept : State w → State w → StockKey → Type 0
  Kept s t k = NotNegative w s.stock k → NotNegative w t.stock k

  opened_events :
      (at : w.Time) (s : State w) (c : ReceiveCmd w) (o : List (Event w) × String × String × Int64)
      (es : List (Event w))
      → receipt_for w s c ≡ inr o
      → (t : State w) × (apply_events w at (o.0 ++ es) s ≡ apply_events w at es t)
        × (t.stock ≡ s.stock)
  unfolding receipt_for apply_payload
  opened_events at s c o es h = elim (Option-cases (lookup c.receipt_id s.receipts)) [
    | inl new ↦ elim (Bool-cases (c.delivery_note == "" || c.po_ref == "")) [
      | inl lacking ↦ absurd (ground (arith, new, lacking))
      | inr given ↦
          let ev : Event w = record {
            typ = "ReceiptOpened";
            aggregate_id = c.receipt_id;
            payload = receipt_opened c.receipt_id c.delivery_note c.po_ref;
          } in
          let same : ev ∷ [] ≡ o.0 = ground (arith, new, given) in
          (
            apply_payload w at ev.payload s,
            ap (λ xs. apply_events w at (xs ++ es) s) (sym same),
            refl,
          )
    ]
    | inr (r, there) ↦ elim (Bool-cases (is_open_receipt r.status)) [
      | inr closed ↦ absurd (ground (arith, there, closed))
      | inl lines_open ↦
          let same : [] ≡ o.0 = ground (arith, there, lines_open) in
          (s, ap (λ xs. apply_events w at (xs ++ es) s) (sym same), refl)
    ]
  ]

  received_events-stock :
      (at : w.Time) (s : State w) (c : ReceiveCmd w) (o : List (Event w) × String × String × Int64)
      (m : Movement w)
      → (apply_events w at (received_events w c o m) s).stock ≡ move_stock w m s.stock
  unfolding apply_payload
  received_events-stock at s c o m =
      let line : ReceiptLine w = record {
        receipt_id = c.receipt_id;
        line_no = o.3;
        sku = c.line.sku;
        lot_id = c.line.lot_id;
        qty_base = m.qty;
      } in
      let lined = apply_line w line s in
      ap (move_stock w m) (
        register_lot-stock w m.sku m.lot_id at (register_lot w c.line.sku c.line.lot_id at lined)
        ∙ register_lot-stock w c.line.sku c.line.lot_id at lined
        ∙ apply_line-stock w line s)

  -- A command to put goods away, to pick them or to receive them that is accepted, with its events
  -- applied, takes no balance below zero: at every key in the warehouse a balance that was not negative
  -- is not negative after it. Of float64 it is used that rounding does not change a sign.
  pub command-NotNegative :
      (at : w.Time) (s : State w) (c : Command w) (es : List (Event w)) (k : StockKey)
      → handle w s c ≡ inr es
      → (k.location == external) ≡ false
      → NotNegative w s.stock k
      → NotNegative w (apply_events w at es s).stock k
  unfolding apply_payload
  command-NotNegative at s (puts_away c) es k done inside h =
      let (m, resolved, enough, events) = put_away_accepted w s c es done in
      rw events (
        move_stock-NotNegative w rounds (record m { from = c.from; to = c.to }) s.stock k enough
          (resolve_line-positive w rounds s c.line m resolved) h)
  command-NotNegative at s (picks c) es k done inside h =
      let (m, resolved, enough, events) = pick_accepted w s c es done in
      rw events (
        move_stock-NotNegative w rounds (record m { from = c.from; to = external }) s.stock k enough
          (resolve_line-positive w rounds s c.line m resolved) h)
  command-NotNegative at s (receives c) es k done inside h =
      let (m, resolved, o, opened, events) = receive_accepted w s c es done in
      let move : Movement w = record m { from = external; to = c.to } in
      let (t, reached, same) = opened_events at s c o (received_events w c o move) opened in
      rw (events, reached, received_events-stock at t c o move, same)
        (move_stock-credit w rounds move s.stock k
          (ground (
            arith,
            inside,
            text_comparable.same_iff k.location external,
            text_comparable.same_iff external k.location,
          ))
          (resolve_line-positive w rounds s c.line m resolved) h)
