-- ===== src/Warehouse/State.antt =====
-- warehouse-node/internal/domain/state.go: the fold of a node's log. A map that is ranged over is taken
-- in the order of its table; Go leaves that order open.
pub mod Apply
pub mod Balance
pub mod Early
use Prim.Native.String.{compare as compare_text}
use local_first_architecture.Base.Order.{is_lt}
use local_first_architecture.Base.{
  ℕ, String, Bool, true, false, not, ◌&&◌, ◌||◌, Option, none, some, List, [], ◌∷◌, ◌++◌, ◌⊎◌, inl,
  inr, ltb, leb, ◌==◌, text_comparable, if◌then◌else◌,
}
use local_first_architecture.Base.Int64.{Int64, int_zero, add_int, plus}
use local_first_architecture.Base.Table.{Table, lookup, lookup_or, insert, delete}
use local_first_architecture.Base.Results.{◌>>=◌, ◌>>◌, require, found}
use local_first_architecture.Warehouse.World.{World}
use local_first_architecture.Warehouse.Event.{
  StockKey, key_comparable, Rule, sku_exists, Item, Movement, ReceiptLine, Envelope, from_key,
  to_key,
}

pub data ReservationStatus : Type 0 where
  active released consumed : ReservationStatus

pub data ReceiptStatus : Type 0 where
  open_receipt closed_receipt : ReceiptStatus

pub data TransferStatus : Type 0 where
  in_flight complete failed : TransferStatus

pub data CountStatus : Type 0 where
  open_count closed_count : CountStatus

module _ (w : World) where
  pub record Lot : Type 0 where
    pub id : String
    pub sku : String
    pub received_at : w.Time
    pub expires_on : w.Time

  pub record Reservation : Type 0 where
    pub id : String
    pub key : StockKey
    pub qty : w.Qty
    pub status : ReservationStatus

  pub record ReceiptState : Type 0 where
    pub id : String
    pub delivery_note : String
    pub po_ref : String
    pub status : ReceiptStatus
    pub lines : Table Int64 (ReceiptLine w)
    pub next_line_no : Int64

  pub record TransferState : Type 0 where
    pub id : String
    pub from_node : String
    pub to_node : String
    pub dispatched : Table StockKey w.Qty
    pub received : Table StockKey w.Qty
    pub status : TransferStatus

  pub record CountState : Type 0 where
    pub id : String
    pub location : String
    pub status : CountStatus
    pub counted : Table StockKey w.Qty

  pub record PendingReceipt : Type 0 where
    pub line : Movement w
    pub buffered_at : w.Time

  pub record State : Type 0 where
    pub items : Table String (Item w)
    pub locations : Table String String
    pub lots : Table String (Lot)
    pub lots_by_sku : Table String (List String)
    pub stock : Table StockKey w.Qty
    pub reservations : Table String (Reservation)
    pub receipts : Table String (ReceiptState)
    pub transfers : Table String (TransferState)
    pub counts : Table String (CountState)
    pub compensations : List (Envelope w)
    pub pending_receipts : Table String (List (PendingReceipt))
    pub home : String
    pub apply_all_movements : Bool

  -- NewState()
  unfoldable pub new_state : State
  new_state = record {
    items = [];
    locations = [];
    lots = [];
    lots_by_sku = [];
    stock = [];
    reservations = [];
    receipts = [];
    transfers = [];
    counts = [];
    compensations = [];
    pending_receipts = [];
    home = "";
    apply_all_movements = false;
  }

-- r.Status == ResActive, and the same test of the other lifecycles
abbrev pub is_active : ReservationStatus → Bool
is_active active = true
is_active released = false
is_active consumed = false

abbrev pub is_open_receipt : ReceiptStatus → Bool
is_open_receipt open_receipt = true
is_open_receipt closed_receipt = false

abbrev pub is_in_flight : TransferStatus → Bool
is_in_flight in_flight = true
is_in_flight complete = false
is_in_flight failed = false

abbrev pub is_open_count : CountStatus → Bool
is_open_count open_count = true
is_open_count closed_count = false

-- sort.Strings
unfoldable pub place_text : String → List String → List String
place_text s [] = s ∷ []
place_text s (t ∷ ts) = if is_lt (compare_text t s) then t ∷ place_text s ts else s ∷ t ∷ ts

unfoldable pub sort_texts : List String → List String
sort_texts [] = []
sort_texts (s ∷ ss) = place_text s (sort_texts ss)

module _ (w : World) where
  -- s.SetHome(id)
  unfoldable pub set_home : String → State w → State w
  set_home id s = record s { home = id }

  -- Stock, Dispatched, Received: m[k]
  abbrev pub qty_at : StockKey → Table StockKey w.Qty → w.Qty
  qty_at k m = lookup_or w.zero k m

  -- s.OnHand(k)
  abbrev pub on_hand : State w → StockKey → w.Qty
  on_hand s k = qty_at k s.stock

  -- The loop of Available.
  unfoldable pub less_reserved : StockKey → w.Qty → Table String (Reservation w) → w.Qty
  less_reserved k avail [] = avail
  less_reserved k avail ((id, r) ∷ rs) =
      if is_active r.status && r.key == k
      then less_reserved k (w.sub avail r.qty) rs
      else less_reserved k avail rs

  -- s.Available(k)
  unfoldable pub available : State w → StockKey → w.Qty
  available s k = less_reserved k (on_hand s k) s.reservations

  -- s.Item(sku)
  unfoldable pub item : State w → String → Rule ⊎ Item w
  item s sku = do
    it ← found (lookup sku s.items) sku_exists
    require (not it.deleted) sku_exists
    inr it

  -- t.fullyReceived()
  unfoldable pub fully_received : Table StockKey w.Qty → Table StockKey w.Qty → Bool
  fully_received received [] = true
  fully_received received ((k, dispatched) ∷ rest) =
      if w.lt (qty_at k received) dispatched then false else fully_received received rest

  -- s.add(k, delta)
  unfoldable pub add_stock : StockKey → w.Qty → Table StockKey w.Qty → Table StockKey w.Qty
  add_stock k delta stock =
      let v = w.add (qty_at k stock) delta in
      if w.same v w.zero then delete k stock else insert k v stock

  -- s.move(m)
  unfoldable pub move_stock : Movement w → Table StockKey w.Qty → Table StockKey w.Qty
  move_stock m stock = add_stock (to_key w m) m.qty (add_stock (from_key w m) (w.neg m.qty) stock)

  abbrev pub move : Movement w → State w → State w
  move m s = record s { stock = move_stock m s.stock }

  -- The oldest lines that wait: now.Sub(l.BufferedAt) >= maxAge for one of them.
  unfoldable pub has_stale : w.Time → Int64 → List (PendingReceipt w) → Bool
  has_stale now max_age [] = false
  has_stale now max_age (l ∷ ls) =
      leb max_age (w.elapsed now l.buffered_at) || has_stale now max_age ls

  -- The ids of the transfers with such a line.
  unfoldable pub stale_ids : w.Time → Int64 → Table String (List (PendingReceipt w)) → List String
  stale_ids now max_age [] = []
  stale_ids now max_age ((id, ls) ∷ rest) =
      let below = stale_ids now max_age rest in
      if has_stale now max_age ls then id ∷ below else below

  -- s.StalePendingReceipts(now, maxAge)
  unfoldable pub stale_pending_receipts : State w → w.Time → Int64 → List String
  stale_pending_receipts s now max_age = sort_texts (stale_ids now max_age s.pending_receipts)
