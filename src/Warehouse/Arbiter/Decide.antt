-- ===== src/Warehouse/Arbiter/Decide.antt =====
-- arbiter.go: Arbitrate, with record and fanOut.
pub mod Retry
pub mod PurchaseOrder
pub mod Books
pub mod Chain
pub mod WithinOrders
mod Examples
use local_first_architecture.Base.{
  String, Bool, true, false, not, ◌&&◌, ◌||◌, Option, none, some, List, [], ◌∷◌, ◌⊎◌, inl, inr,
  ◌==◌, text_comparable, length, nat_beq, if◌then◌else◌,
}
use local_first_architecture.Warehouse.World.{World}
use local_first_architecture.Warehouse.Event.{
  EventId, StockKey, Reason, po_over_receipt, Movement, Payload, goods_received,
  transfer_dispatched, transfer_received, Event, Envelope,
}
use local_first_architecture.Warehouse.Event.Seal.{Codec, EventError, decode_payload}
use local_first_architecture.Warehouse.Central.{
  Verdict, accepted, rejected, Decision, ReceiptFact, InTransitRow, Memory, record_receipt,
  record_dispatch, add_received, in_transit, fail_transfer, record_decision, decision,
}
use local_first_architecture.Warehouse.Central.Log.{append, compensations_of, emit_central, enqueue}
use local_first_architecture.Warehouse.Arbiter.{Rejection, validate}

pub data ArbiterError : Type 0 where
  not_decodable : EventError → ArbiterError
  not_sealed : EventError → ArbiterError
  not_dispatched incomplete : ArbiterError

-- rej.Reason == ReasonPOOverReceipt
abbrev pub is_po_reason : Reason → Bool
is_po_reason po_over_receipt = true
is_po_reason _ = false

module _ {w : World} where
  abbrev pub line_key : Movement w → StockKey
  line_key m = record { sku = m.sku; location = ""; lot_id = m.lot_id }

  -- The case GoodsReceived of record: of a rejected receipt the accepted portion is counted.
  unfoldable pub record_goods :
      Envelope w → String → String → Movement w → Option (Rejection w) → Memory w → Memory w
  record_goods env note po_ref m rej s =
      let fact : w.Qty → ReceiptFact w = λ qty. record {
        event_id = env.id;
        node = env.id.node_id;
        po_ref = po_ref;
        delivery_note = note;
        sku = m.sku;
        qty_base = qty;
      } in
      elim rej [
        | none ↦ record_receipt (fact m.qty) s
        | some r ↦
            if is_po_reason r.reason then record_receipt (fact (w.sub m.qty r.excess)) s else s
      ]

  -- The case TransferDispatched.
  unfoldable pub record_lines :
      Envelope w → String → String → String → List (Movement w) → Memory w → Memory w
  record_lines env id from_node to_node [] s = s
  record_lines env id from_node to_node (m ∷ ms) s = record_lines env id from_node to_node ms (
      record_dispatch
        (record {
          transfer_id = id;
          key = line_key m;
          from_node = from_node;
          to_node = to_node;
          dispatched = m.qty;
          received = w.zero;
          dispatched_at = env.recorded_at;
          failed = false;
        })
        s)

  -- accepted: the quantity of a line, or what remains of it
  abbrev pub accepted_qty : Movement w → InTransitRow w → w.Qty
  accepted_qty m row =
      let remaining = w.sub row.dispatched row.received in
      if w.lt remaining m.qty then remaining else m.qty

  -- The case TransferReceived; `true` for an error, after the lines before it.
  unfoldable pub record_received :
      Envelope w → String → List (Movement w) → Memory w → Bool × Memory w
  record_received env id [] s = (false, s)
  record_received env id (m ∷ ms) s = elim (in_transit s id (line_key m)) [
    | none ↦ record_received env id ms s
    | some row ↦
        if w.le (accepted_qty m row) w.zero
        then record_received env id ms s
        else elim (add_received env.id id (line_key m) (accepted_qty m row) s) [
          | none ↦ (true, s)
          | some s' ↦ record_received env id ms s'
        ]
  ]

  -- a.record(env, payload, rej)
  unfoldable pub record_event :
      Envelope w → Payload w → Option (Rejection w) → Memory w → Bool × Memory w
  record_event env (goods_received receipt_id note po_ref m) rej s =
      (false, record_goods env note po_ref m rej s)
  record_event env (transfer_dispatched id from_node to_node lines) rej s =
      let s' = record_lines env id from_node to_node lines s in
      (false, elim rej [ none ↦ s' | some r ↦ fail_transfer id s' ])
  record_event env (transfer_received id lines) rej s = record_received env id lines s
  record_event env _ rej s = (false, s)

  -- The case TransferReceived of fanOut: to the source of the first line that is under way
  unfoldable pub tell_source : Envelope w → String → List (Movement w) → Memory w → Memory w
  tell_source env id [] s = s
  tell_source env id (m ∷ ms) s = elim (in_transit s id (line_key m)) [
    | none ↦ tell_source env id ms s
    | some row ↦ enqueue row.from_node (env ∷ []) s
  ]

  -- a.fanOut(env, payload, rej)
  unfoldable pub fan_out : Envelope w → Payload w → Option (Rejection w) → Memory w → Memory w
  fan_out env (transfer_dispatched id from_node to_node lines) rej s = elim rej [
    | none ↦ enqueue to_node (env ∷ []) s
    | some r ↦ s
  ]
  fan_out env (transfer_received id lines) rej s = tell_source env id lines s
  fan_out env _ rej s = s

  -- The compensations: those that an earlier attempt has emitted, or new ones.
  unfoldable pub compensate :
      Codec w
      → w.Time
      → Envelope w
      → Rejection w
      → Memory w
      → (ArbiterError ⊎ List (Envelope w)) × Memory w
  compensate codec now env r s = elim (compensations_of s env.id) [
    | [] ↦
        let out = emit_central codec r.events (some env.id) now s in
        (elim (out.0) [ inl e ↦ inl (not_sealed e) | inr comps ↦ inr comps ], out.1)
    | c ∷ cs ↦
        if nat_beq (length (c ∷ cs)) (length r.events)
        then (inr (c ∷ cs), s)
        else (inl incomplete, s)
  ]

  abbrev pub first_id : List (Envelope w) → Option EventId
  first_id [] = none
  first_id (e ∷ es) = some e.id

  -- The end of Arbitrate, from the outcome of the chain on.
  unfoldable pub conclude :
      Codec w
      → w.Time
      → Envelope w
      → Option (Rejection w)
      → Memory w
      → (ArbiterError ⊎ (Decision × List (Envelope w))) × Memory w
  conclude codec now env none s =
      let d : Decision = record {
        event_id = env.id;
        verdict = accepted;
        reason = none;
        compensating_id = none;
      } in
      (inr (d, []), record_decision d s)
  conclude codec now env (some r) s =
      let out = compensate codec now env r s in
      elim (out.0) [
        | inl e ↦ (inl e, out.1)
        | inr comps ↦
            let d : Decision = record {
              event_id = env.id;
              verdict = rejected;
              reason = some r.reason;
              compensating_id = first_id comps;
            } in
            (inr (d, comps), record_decision d (enqueue env.id.node_id comps out.1))
      ]

  -- Arbitrate without a decision that is there already
  unfoldable pub decide :
      Codec w
      → w.Time
      → Envelope w
      → Memory w
      → (ArbiterError ⊎ (Decision × List (Envelope w))) × Memory w
  decide codec now env s =
      let s1 = (append (env ∷ []) s).1 in
      elim (decode_payload codec env) [
        | inl e ↦ (inl (not_decodable e), s1)
        | inr p ↦
            let rej = validate s1 env.id p in
            let (bad, s2) = record_event env p rej s1 in
            elim bad [
              | true ↦ (inl not_dispatched, s2)
              | false ↦ conclude codec now env rej (fan_out env p rej s2)
            ]
      ]

  -- a.Arbitrate(env), with the instant that a.now() gives
  unfoldable pub arbitrate :
      Codec w
      → w.Time
      → Envelope w
      → Memory w
      → (ArbiterError ⊎ (Decision × List (Envelope w))) × Memory w
  arbitrate codec now env s = elim (decision s env.id) [
    | some d ↦ (inr (d, compensations_of s env.id), s)
    | none ↦ decide codec now env s
  ]
