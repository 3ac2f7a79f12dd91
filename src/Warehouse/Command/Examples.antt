-- ===== src/Warehouse/Command/Examples.antt =====
-- A warehouse with 9 bolts on a shelf, 2 of them held.
use local_first_architecture.Base.{
  ℕ, String, ◌≡◌, refl, sym, ap, false, Option, none, some, List, [], ◌∷◌, ◌⊎◌, inl, inr, ◌==◌,
  text_comparable, if◌then◌else◌,
}
use local_first_architecture.Base.Int64.{plus}
use local_first_architecture.Base.Table.{Table, lookup}
use local_first_architecture.Warehouse.Samples.{pos, whole, whole-RoundsWell}
use local_first_architecture.Warehouse.Event.{
  StockKey, external, Item, Movement, Payload, Event, Envelope, Rule, stock_non_negative,
  goods_received, put_away, picked, stock_adjusted, stock_reserved, reservation_released,
  reservation_consumed, transfer_dispatched, transfer_received, receipt_opened,
  receipt_line_recorded, receipt_closed, count_started, count_line_counted, count_closed,
  item_upserted, location_registered,
}
use local_first_architecture.Warehouse.Event.Seal.{
  Codec, type_of, is_registered, decode_payload, new_envelope, IsFaithful, new-decode_payload,
}
use local_first_architecture.Warehouse.State.{State, new_state, active, item}
use local_first_architecture.Warehouse.State.Apply.{apply_payload}
use local_first_architecture.Warehouse.State.Balance.{NotNegative}
use local_first_architecture.Warehouse.State.Early.{receipt-dispatch}
use local_first_architecture.Warehouse.Command.{
  to_base, resolve_line, require_location, require_on_hand, require_lot_usable,
}
use local_first_architecture.Warehouse.Command.Goods.{PickCmd, do_pick}
use local_first_architecture.Warehouse.Command.Reserve.{ReserveCmd, do_reserve}
use local_first_architecture.Warehouse.Command.Safety.{picks, apply_events, command-NotNegative}

abbrev bolt : Item whole
bolt = record {
  sku = "bolt";
  description = "a bolt";
  base_uom = "EA";
  alt_uom = ("BOX", pos 4) ∷ [];
  lot_tracked = false;
  shelf_life_days = plus 0;
  deleted = false;
}

abbrev shelf : StockKey
shelf = record { sku = "bolt"; location = "P1"; lot_id = "" }

abbrev stocked : State whole
stocked = record (new_state whole) {
  items = ("bolt", bolt) ∷ [];
  locations = ("P1", "pick") ∷ [];
  stock = (shelf, pos 9) ∷ [];
  reservations = ("r1", record { id = "r1"; key = shelf; qty = pos 2; status = active }) ∷ [];
}

-- Two boxes of four.
abbrev two_boxes : PickCmd whole
two_boxes = record {
  line = record { sku = "bolt"; lot_id = ""; qty = pos 2; uom = "BOX" };
  from = "P1";
  order_ref = "o1";
  at = 3;
}

abbrev events_of : Rule ⊎ List (Event whole) → List (Event whole)
events_of (inl e) = []
events_of (inr es) = es

two_boxes-accepted :
    do_pick whole stocked two_boxes ≡ inr (events_of (do_pick whole stocked two_boxes))
unfolding do_pick resolve_line item to_base require_location require_on_hand require_lot_usable
    lookup new_state
two_boxes-accepted = refl

-- Three boxes are too many.
three_boxes_refused :
    do_pick whole stocked
      (record two_boxes { line = record { sku = "bolt"; lot_id = ""; qty = pos 3; uom = "BOX" } })
    ≡ inl stock_non_negative
unfolding do_pick resolve_line item to_base require_location require_on_hand require_lot_usable
    lookup new_state
three_boxes_refused = refl

held_enough : NotNegative whole stocked.stock shelf
unfolding lookup new_state
held_enough = refl

command-NotNegative_example :
    NotNegative whole
      (apply_events whole 3 (events_of (do_pick whole stocked two_boxes)) stocked).stock
      shelf
command-NotNegative_example =
    command-NotNegative whole whole-RoundsWell 3 stocked (picks two_boxes)
      (events_of (do_pick whole stocked two_boxes)) shelf two_boxes-accepted refl held_enough

abbrev hold : ReserveCmd whole
hold = record {
  reservation_id = "r2";
  line = record { sku = "bolt"; lot_id = ""; qty = pos 7; uom = "EA" };
  location = "P1";
}

abbrev held : State whole
held = apply_events whole 3 (events_of (do_reserve whole stocked hold)) stocked

abbrev truck : String → String → List (Movement whole)
truck from to = record { sku = "bolt"; lot_id = ""; from = from; to = to; qty = pos 4 } ∷ []

-- The payloads that the tests read by name; of the payloads that are encoded, ReceiptClosed is its id.
abbrev payloads : Table String (Payload whole)
payloads =
    (
      "goods",
      goods_received "R1" "dn" "po"
          (record { sku = "bolt"; lot_id = ""; from = external; to = "P1"; qty = pos 9 }),
    )
    ∷ ("dispatch", transfer_dispatched "T1" "wh-a" "wh-b" (truck "P7" external))
    ∷ ("receipt", transfer_received "T1" (truck external "P1"))
    ∷ []

abbrev encoded : Payload whole → Option String
encoded (receipt_closed id) = some id
encoded _ = none

abbrev named : Codec whole
named = record {
  marshal = encoded;
  unmarshal =
      λ typ raw. if typ == "ReceiptClosed" then some (receipt_closed raw) else lookup raw payloads;
}

abbrev sent : ℕ → String → String → Envelope whole
sent n typ raw = record {
  id = record { node_id = "wh-a"; seq = n };
  aggregate_id = "T1";
  typ = typ;
  hlc = record { wall = plus n; counter = 0; node = "wh-a" };
  recorded_at = n;
  causation_id = none;
  payload = raw;
}

-- The receipt of a transfer comes to its destination before its dispatch.
abbrev wh_b : State whole
wh_b = record (new_state whole) { home = "wh-b" }

receipt-dispatch_example :
    apply_payload whole 3
      (transfer_dispatched "T1" "wh-a" "wh-b" (truck "P7" external))
      (apply_payload whole 2 (transfer_received "T1" (truck external "P1")) wh_b)
    ≡ apply_payload whole 3
        (transfer_received "T1" (truck external "P1"))
        (apply_payload whole 2 (transfer_dispatched "T1" "wh-a" "wh-b" (truck "P7" external)) wh_b)
receipt-dispatch_example =
    receipt-dispatch whole 2 3 "T1" "wh-a" "wh-b" (truck "P7" external) []
      (record { sku = "bolt"; lot_id = ""; from = external; to = "P1"; qty = pos 4 }) wh_b
      (unfold new_state in unfold lookup in refl) (unfold new_state in unfold lookup in refl)

named-IsFaithful : IsFaithful named
unfolding type_of
named-IsFaithful (goods_received r d p m) raw h = absurd (cc h)
named-IsFaithful (put_away m) raw h = absurd (cc h)
named-IsFaithful (picked m o) raw h = absurd (cc h)
named-IsFaithful (stock_adjusted m r) raw h = absurd (cc h)
named-IsFaithful (stock_reserved r k q) raw h = absurd (cc h)
named-IsFaithful (reservation_released r) raw h = absurd (cc h)
named-IsFaithful (reservation_consumed r) raw h = absurd (cc h)
named-IsFaithful (transfer_dispatched t f o ls) raw h = absurd (cc h)
named-IsFaithful (transfer_received t ls) raw h = absurd (cc h)
named-IsFaithful (receipt_opened r d p) raw h = absurd (cc h)
named-IsFaithful (receipt_line_recorded l) raw h = absurd (cc h)
named-IsFaithful (receipt_closed r) raw h =
    ap (λ o. elim o [ none ↦ none | some x ↦ some (receipt_closed x) ]) (sym h)
named-IsFaithful (count_started c l) raw h = absurd (cc h)
named-IsFaithful (count_line_counted c k q) raw h = absurd (cc h)
named-IsFaithful (count_closed c) raw h = absurd (cc h)
named-IsFaithful (item_upserted i) raw h = absurd (cc h)
named-IsFaithful (location_registered c k) raw h = absurd (cc h)

abbrev closing : Event whole
closing = record { typ = "ReceiptClosed"; aggregate_id = "R1"; payload = receipt_closed "R1" }

sealed :
    new_envelope named
      (record { node_id = "wh-a"; seq = 4 })
      (record { wall = plus 4; counter = 0; node = "wh-a" })
      4
      none
      (record closing { aggregate_id = "T1" })
    ≡ inr (sent 4 "ReceiptClosed" "R1")
unfolding new_envelope is_registered type_of
sealed = refl

new-decode_payload_example :
    (decode_payload named (sent 4 "ReceiptClosed" "R1") ≡ inr closing.payload)
    × ((sent 4 "ReceiptClosed" "R1").typ ≡ type_of closing.payload)
    × ((sent 4 "ReceiptClosed" "R1").id ≡ record { node_id = "wh-a"; seq = 4 })
    × ((sent 4 "ReceiptClosed" "R1").causation_id ≡ none)
new-decode_payload_example =
    new-decode_payload named named-IsFaithful (record { node_id = "wh-a"; seq = 4 })
      (record { wall = plus 4; counter = 0; node = "wh-a" }) 4 none
      (record closing { aggregate_id = "T1" }) (sent 4 "ReceiptClosed" "R1") sealed
