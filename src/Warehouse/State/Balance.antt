-- ===== src/Warehouse/State/Balance.antt =====
-- The stock arithmetic of add and move: what a movement leaves at a key.
use mathlib.Core.Path.{subst}
use local_first_architecture.Base.{
  String, text_comparable, ◌≡◌, true, false, ◌==◌, if◌then◌else◌, arith,
}
use local_first_architecture.Base.Table.{Table, lookup-insert, lookup-delete}
use local_first_architecture.Warehouse.World.{World, RoundsWell}
use local_first_architecture.Warehouse.Event.{
  StockKey, key_comparable, same_key_iff, Movement, ReceiptLine, from_key, to_key,
}
use local_first_architecture.Warehouse.State.{State, qty_at, add_stock, move_stock}
use local_first_architecture.Warehouse.State.Apply.{register_lot, apply_line}

module _ (w : World) where
  -- The balance of a key is not below zero.
  abbrev pub NotNegative : Table StockKey w.Qty → StockKey → Type 0
  NotNegative m k = w.lt (qty_at w k m) w.zero ≡ false

  qty_at-add_stock :
      (k j : StockKey) (d : w.Qty) (m : Table StockKey w.Qty)
      → qty_at w k (add_stock w j d m) ≡ (
          if j == k
          then (let v = w.add (qty_at w k m) d in if w.same v w.zero then w.zero else v)
          else qty_at w k m)
  unfolding add_stock
  qty_at-add_stock k j d m =
      ground
        (arith, lookup-insert j k (w.add (qty_at w j m) d) m, lookup-delete j k m, same_key_iff j k)

  module _ (rounds : RoundsWell w) where
    add_stock-NotNegative :
        (k j : StockKey) (d : w.Qty) (m : Table StockKey w.Qty)
        → ((j == k) ≡ true → w.lt (w.add (qty_at w k m) d) w.zero ≡ false)
        → NotNegative m k
        → NotNegative (add_stock w j d m) k
    add_stock-NotNegative k j d m fits h =
        ground (arith, qty_at-add_stock k j d m, fits, h, rounds.zero_least)

    -- A movement of stock that its source has leaves no balance below zero that was not.
    pub move_stock-NotNegative :
        (v : Movement w) (m : Table StockKey w.Qty) (k : StockKey)
        → w.lt (qty_at w (from_key w v) m) v.qty ≡ false
        → w.lt v.qty w.zero ≡ false
        → NotNegative m k
        → NotNegative (move_stock w v m) k
    unfolding move_stock
    move_stock-NotNegative v m k enough pos h =
        let taken = add_stock w (from_key w v) (w.neg v.qty) m in
        let kept : NotNegative taken k =
          add_stock-NotNegative k (from_key w v) (w.neg v.qty) m
            (λ own.
              subst (λ j. w.lt (w.add (qty_at w j m) (w.neg v.qty)) w.zero ≡ false)
                ((same_key_iff (from_key w v) k).0 own)
                (rounds.take_away (qty_at w (from_key w v) m) v.qty enough))
            h in
        add_stock-NotNegative k (to_key w v) v.qty taken
          (λ own. rounds.put_in (qty_at w k taken) v.qty kept pos) kept

    -- A movement from elsewhere takes nothing from a key.
    pub move_stock-credit :
        (v : Movement w) (m : Table StockKey w.Qty) (k : StockKey)
        → (from_key w v == k) ≡ false
        → w.lt v.qty w.zero ≡ false
        → NotNegative m k
        → NotNegative (move_stock w v m) k
    unfolding move_stock
    move_stock-credit v m k other pos h =
        let taken = add_stock w (from_key w v) (w.neg v.qty) m in
        let kept : NotNegative taken k =
          add_stock-NotNegative k (from_key w v) (w.neg v.qty) m (λ own. absurd (cc (own, other)))
            h in
        add_stock-NotNegative k (to_key w v) v.qty taken
          (λ own. rounds.put_in (qty_at w k taken) v.qty kept pos) kept

module _ (w : World) where
  pub register_lot-stock :
      (sku lot_id : String) (at : w.Time) (s : State w)
      → (register_lot w sku lot_id at s).stock ≡ s.stock
  unfolding register_lot
  register_lot-stock sku lot_id at s = ground arith

  pub apply_line-stock : (p : ReceiptLine w) (s : State w) → (apply_line w p s).stock ≡ s.stock
  unfolding apply_line
  apply_line-stock p s = ground arith
