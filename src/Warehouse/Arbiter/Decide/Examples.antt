-- ===== src/Warehouse/Arbiter/Decide/Examples.antt =====
-- An order of 10 bolts, of which 7 have been received, and a receipt of 5 more.
use mathlib.Core.Path.{subst}
use local_first_architecture.Base.{
  ◌≡◌, refl, false, none, some, List, [], ◌∷◌, ◌⊎◌, inl, inr, ◌==◌, text_comparable, arith, ◌&&◌,
  Bool-cases,
}
use local_first_architecture.Base.Int64.{plus, int_zero}
use local_first_architecture.Base.{◌++◌, ◌+◌, ◌≤◌, length}
use Prim.Native.Nat.{min}
use local_first_architecture.Base.Table.{lookup_or}
use local_first_architecture.Warehouse.Central.Log.{outbound}
use local_first_architecture.Warehouse.Central.Paging.{
  IsAscending, last_ord, waiting_past, Begins, outbound-pages,
}
use local_first_architecture.Base.Table.{lookup, insert}
use local_first_architecture.Warehouse.Samples.{pos, whole, whole-CountsExactly}
use local_first_architecture.Warehouse.Hlc.{bump, merge}
use local_first_architecture.Warehouse.Event.{
  EventId, external, Item, Payload, goods_received, Envelope,
}
use local_first_architecture.Warehouse.Event.Seal.{
  Codec, type_of, is_registered, new_envelope, decode_payload,
}
use local_first_architecture.Warehouse.Central.{
  Memory, new_memory, Decision, accepted, rejected, record_receipt, sum_receipts,
  received_against_po, record_decision,
}
use local_first_architecture.Warehouse.Central.Log.{
  append, place, sort, sorted_events, caused_by, compensations_of, emit_loop, emit_central, enqueue,
  first_seen, delivery_note_first_seen,
}
use local_first_architecture.Warehouse.Arbiter.{
  movements_of, unknown_moves, undo_each, sum_qty, unknown_sku, duplicate_delivery_note, po_excess,
  transfer_destination, transfer_excess, validate,
}
use local_first_architecture.Warehouse.Arbiter.Decide.{
  ArbiterError, record_goods, record_event, fan_out, compensate, conclude, decide, arbitrate,
}
use local_first_architecture.Warehouse.Arbiter.Decide.Retry.{arbitrate_all, arbitrate_again}
use local_first_architecture.Warehouse.Arbiter.Decide.PurchaseOrder.{IsWithinOrders}
use local_first_architecture.Warehouse.Arbiter.Decide.WithinOrders.{
  IsCounted, arbitrate-IsWithinOrders,
}

-- Every payload that is read is the receipt of 5 bolts.
abbrev reads_receipt : Codec whole
reads_receipt = record {
  marshal = λ p. some (type_of p);
  unmarshal = λ typ raw. some (
      goods_received "R2" "dn2" "po"
        (record { sku = "bolt"; lot_id = ""; from = external; to = "P1"; qty = pos 5 }));
}

abbrev sent : Envelope whole
sent = record {
  id = record { node_id = "wh-b"; seq = 1 };
  aggregate_id = "R2";
  typ = "GoodsReceived";
  hlc = record { wall = plus 4; counter = 0; node = "wh-b" };
  recorded_at = 4;
  causation_id = none;
  payload = "";
}

abbrev bolt : Item whole
bolt = record {
  sku = "bolt";
  description = "a bolt";
  base_uom = "EA";
  alt_uom = [];
  lot_tracked = false;
  shelf_life_days = int_zero;
  deleted = false;
}

abbrev first_receipt : EventId
first_receipt = record { node_id = "wh-a"; seq = 1 }

abbrev books : Memory whole
books = record (new_memory whole) {
  items = ("bolt", bolt) ∷ [];
  orders = (("po", "bolt"), pos 10) ∷ [];
  receipts =
      (
        first_receipt,
        record {
          event_id = first_receipt;
          node = "wh-a";
          po_ref = "po";
          delivery_note = "dn1";
          sku = "bolt";
          qty_base = pos 7;
        },
      )
      ∷ [];
}

books-IsWithinOrders : IsWithinOrders whole whole-CountsExactly books
unfolding new_memory received_against_po sum_receipts lookup
books-IsWithinOrders po sku ordered known = elim (Bool-cases (("po" == po) && ("bolt" == sku))) [
  | inl mine ↦
      let ten : pos 10 ≡ ordered = ground (arith, mine, known) in
      rw (mine, ← ten) (10, refl, omega arith, (7, refl, omega arith))
  | inr other ↦ absurd (ground (arith, other, known))
]

five_bolts :
    (p : Payload whole)
    → decode_payload reads_receipt sent ≡ inr p
    → IsCounted whole whole-CountsExactly p
unfolding decode_payload is_registered
five_bolts p h =
    let received : goods_received "R2" "dn2" "po"
          (record { sku = "bolt"; lot_id = ""; from = external; to = "P1"; qty = pos 5 })
        ≡ p =
      cc h in
    subst (IsCounted whole whole-CountsExactly) received (5, refl, omega arith)

arbitrate-IsWithinOrders_example :
    IsWithinOrders whole whole-CountsExactly (arbitrate reads_receipt 5 sent books).1
arbitrate-IsWithinOrders_example =
    arbitrate-IsWithinOrders whole whole-CountsExactly reads_receipt 5 sent books five_bolts
      books-IsWithinOrders

abbrev no_decision : Decision × List (Envelope whole)
no_decision =
    (record { event_id = sent.id; verdict = accepted; reason = none; compensating_id = none }, [])

abbrev decided :
    ArbiterError ⊎ (Decision × List (Envelope whole)) → Decision × List (Envelope whole)
decided (inl e) = no_decision
decided (inr d) = d

abbrev answer : Decision × List (Envelope whole)
answer = decided (arbitrate reads_receipt 5 sent books).0

answered : (arbitrate reads_receipt 5 sent books).0 ≡ inr (answer.0, answer.1)
unfolding arbitrate decide append decode_payload is_registered validate unknown_sku unknown_moves
    movements_of undo_each sum_qty duplicate_delivery_note delivery_note_first_seen first_seen
    po_excess transfer_destination transfer_excess record_event record_goods record_receipt fan_out
    conclude compensate compensations_of sorted_events sort place caused_by emit_central emit_loop
    new_envelope type_of merge bump enqueue record_decision new_memory received_against_po
    sum_receipts lookup insert
answered = refl

over_by_two : answer.0.verdict ≡ rejected
unfolding arbitrate decide append decode_payload is_registered validate unknown_sku unknown_moves
    movements_of undo_each sum_qty duplicate_delivery_note delivery_note_first_seen first_seen
    po_excess transfer_destination transfer_excess record_event record_goods record_receipt fan_out
    conclude compensate compensations_of sorted_events sort place caused_by emit_central emit_loop
    new_envelope type_of merge bump enqueue record_decision new_memory received_against_po
    sum_receipts lookup insert
over_by_two = refl

-- Another receipt, which is decided before the first one is tried again.
abbrev sent_next : Envelope whole
sent_next = record sent { id = record { node_id = "wh-b"; seq = 2 } }

arbitrate_again_example :
    let out = arbitrate reads_receipt 5 sent books in
    let t = arbitrate_all reads_receipt ((6, sent_next) ∷ (7, sent) ∷ []) out.1 in
    arbitrate reads_receipt 9 sent t ≡ (inr (answer.0, compensations_of t sent.id), t)
arbitrate_again_example =
    arbitrate_again reads_receipt 5 9 sent books answer.0 answer.1 ((6, sent_next) ∷ (7, sent) ∷ [])
      answered

abbrev waiting : Memory whole
waiting = record (new_memory whole) {
  queue =
      (
        "wh-a",
        record { ord = 2; env = sent }
            ∷ record { ord = 5; env = sent }
            ∷ record { ord = 7; env = sent }
            ∷ [],
      )
      ∷ [];
}

waiting-IsAscending : IsAscending 0 (lookup_or [] "wh-a" waiting.queue)
unfolding lookup new_memory
waiting-IsAscending = (omega arith, (omega arith, (omega arith, tt)))

-- A page of one event past position 2, and one of two more, of the two that wait there.
outbound-pages_example :
    let page = outbound waiting "wh-a" 2 1 in
    let second = outbound waiting "wh-a" (last_ord 2 page) 2 in
    let past = waiting_past 2 (lookup_or [] "wh-a" waiting.queue) in
    Begins page past
    × (length page ≡ min 1 (length past))
    × (page ++ second ≡ outbound waiting "wh-a" 2 (1 + 2))
    × (length past ≤ 1 + 2 → page ++ second ≡ past)
outbound-pages_example = outbound-pages waiting "wh-a" 2 1 2 0 waiting-IsAscending

two_wait : length (waiting_past 2 (lookup_or [] "wh-a" waiting.queue)) ≡ 2
unfolding lookup new_memory
two_wait = refl
