-- ===== src/Warehouse/Command.antt =====
-- warehouse-node/internal/domain: item.go and the checks of stock.go, which every command goes through.
-- A command reads the state, and gives the events to append or the rule that it violates.
pub mod Goods
pub mod Reserve
pub mod Transfer
pub mod Count
pub mod Guards
pub mod Safety
pub mod Promise
mod Examples
use local_first_architecture.Base.{
  ℕ, String, Bool, true, false, not, ◌&&◌, ◌||◌, Option, none, some, List, [], ◌∷◌, ◌⊎◌, inl, inr,
  ◌==◌, text_comparable, if◌then◌else◌,
}
use local_first_architecture.Base.Table.{Table, lookup}
use local_first_architecture.Base.Results.{◌>>=◌, ◌>>◌, require, found}
use local_first_architecture.Warehouse.World.{World}
use local_first_architecture.Warehouse.Event.{
  StockKey, Rule, stock_non_negative, lot_not_expired, uom_valid, location_exists, lot_required,
  qty_positive, Item, Movement,
}
use local_first_architecture.Warehouse.State.{State, Lot, on_hand, item}

module _ (w : World) where
  -- Line: a quantity as the operator entered it.
  pub record Line : Type 0 where
    pub sku : String
    pub lot_id : String
    pub qty : w.Qty
    pub uom : String

  -- math.IsNaN(q) || math.IsInf(q, 0) || q <= 0
  abbrev pub is_unusable : w.Qty → Bool
  is_unusable q = w.is_nan q || w.is_inf q || w.le q w.zero

  -- i.ToBase(qty, u)
  unfoldable pub to_base : Item w → w.Qty → String → Rule ⊎ w.Qty
  to_base i qty u = do
    require (not (is_unusable qty)) qty_positive
    if u == i.base_uom then inr qty else do
      factor ← found (lookup u i.alt_uom) uom_valid
      require (not (is_unusable factor)) uom_valid
      require (not (w.is_inf (w.mul qty factor))) uom_valid
      inr (w.mul qty factor)

  -- l.ExpiredAt(t)
  unfoldable pub expired_at : Lot w → w.Time → Bool
  expired_at l t =
      if w.is_zero l.expires_on then false else not (w.before (w.utc t) (w.day_after l.expires_on))

  -- s.ResolveLine(l), with From and To left empty; the item that it also gives is not used.
  unfoldable pub resolve_line : State w → Line → Rule ⊎ Movement w
  resolve_line s l = do
    it ← item w s l.sku
    require (not (it.lot_tracked && l.lot_id == "")) lot_required
    base ← to_base it l.qty l.uom
    inr (record { sku = l.sku; lot_id = l.lot_id; from = ""; to = ""; qty = base })

  -- s.RequireLocation(code)
  unfoldable pub require_location : State w → String → Rule ⊎ Unit {0}
  require_location s code = elim (lookup code s.locations) [
    | none ↦ inl location_exists
    | some kind ↦ inr tt
  ]

  -- s.RequireOnHand(k, qty)
  unfoldable pub require_on_hand : State w → StockKey → w.Qty → Rule ⊎ Unit {0}
  require_on_hand s k qty = require (not (w.lt (on_hand w s k) qty)) stock_non_negative

  -- s.RequireLotUsable(lotID, at)
  unfoldable pub require_lot_usable : State w → String → w.Time → Rule ⊎ Unit {0}
  require_lot_usable s lot_id at = elim (lookup lot_id s.lots) [
    | none ↦ inr tt
    | some lot ↦ require (not (expired_at lot at)) lot_not_expired
  ]
