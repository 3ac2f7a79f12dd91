-- ===== src/Warehouse/Arbiter/Decide/Chain.antt =====
-- The end of Arbitrate touches neither the books nor the decisions of other events, and what the chain says of a received line.

use local_first_architecture.Base.{
  ◌+◌, ◌%◌, ◌^◌, String, ◌≡◌, refl, sym, ap, ◌∙◌, true, false, Option, none, some, List, [], ◌∷◌,
  inl, inr, ◌==◌, text_comparable, pair_comparable, arith, Bool-cases, Option-cases, Sum-cases,
  List-cases, length, nat_beq,
}
use local_first_architecture.Base.Table.{insert, lookup, lookup-insert}
use local_first_architecture.Warehouse.World.{World}
use local_first_architecture.Warehouse.Hlc.{Hlc}
use local_first_architecture.Warehouse.Event.{
  Reason, duplicate_receipt, EventId, id_comparable, Movement, Payload, Event, Envelope,
  goods_received, put_away, picked, stock_adjusted, stock_reserved, reservation_released,
  reservation_consumed, transfer_dispatched, transfer_received, receipt_opened,
  receipt_line_recorded, receipt_closed, count_started, count_line_counted, count_closed,
  item_upserted, location_registered,
}
use local_first_architecture.Warehouse.Event.Seal.{Codec, new_envelope}
use local_first_architecture.Warehouse.Central.{
  central_node, Memory, record_decision, decision, Decision, accepted, rejected,
}
use local_first_architecture.Warehouse.Central.Log.{
  enqueue, causing, next_hlc, emit_loop, emit_central, compensations_of, delivery_note_first_seen,
}
use local_first_architecture.Warehouse.Arbiter.{
  Rejection, gathered, movements_of, unknown_moves, undo_each, sum_qty, transfer_destination,
  transfer_excess, unknown_sku, duplicate_delivery_note, po_excess, validate,
}
use local_first_architecture.Warehouse.Arbiter.Decide.{
  is_po_reason, fan_out, compensate, conclude, first_id,
}
use local_first_architecture.Warehouse.Arbiter.Decide.Books.{
  SameBooks, SameBooks-self, SameBooks-trans, enqueue-SameBooks, tell_source-SameBooks,
}

module _ {w : World} where
  pub fan_out-SameBooks :
      (env : Envelope w) (p : Payload w) (r : Option (Rejection w)) (s : Memory w)
      → SameBooks s (fan_out env p r s)
  unfolding fan_out
  fan_out-SameBooks env (transfer_dispatched id f t ls) none s = enqueue-SameBooks t (env ∷ []) s
  fan_out-SameBooks env (transfer_dispatched id f t ls) (some r) s = SameBooks-self s
  fan_out-SameBooks env (transfer_received id ls) r s = tell_source-SameBooks env id ls s
  fan_out-SameBooks env (goods_received r d p m) rej s = SameBooks-self s
  fan_out-SameBooks env (put_away m) rej s = SameBooks-self s
  fan_out-SameBooks env (picked m o) rej s = SameBooks-self s
  fan_out-SameBooks env (stock_adjusted m r) rej s = SameBooks-self s
  fan_out-SameBooks env (stock_reserved r k q) rej s = SameBooks-self s
  fan_out-SameBooks env (reservation_released r) rej s = SameBooks-self s
  fan_out-SameBooks env (reservation_consumed r) rej s = SameBooks-self s
  fan_out-SameBooks env (receipt_opened r d p) rej s = SameBooks-self s
  fan_out-SameBooks env (receipt_line_recorded l) rej s = SameBooks-self s
  fan_out-SameBooks env (receipt_closed r) rej s = SameBooks-self s
  fan_out-SameBooks env (count_started c l) rej s = SameBooks-self s
  fan_out-SameBooks env (count_line_counted c k q) rej s = SameBooks-self s
  fan_out-SameBooks env (count_closed c) rej s = SameBooks-self s
  fan_out-SameBooks env (item_upserted i) rej s = SameBooks-self s
  fan_out-SameBooks env (location_registered c k) rej s = SameBooks-self s

  module _ (codec : Codec w) where
    emit_loop-SameBooks :
        (cause : Option EventId) (hlc : Option Hlc) (now : w.Time) (es : List (Event w))
        (s : Memory w)
        → SameBooks s (emit_loop codec cause hlc now es s).1
    unfolding emit_loop
    emit_loop-SameBooks cause hlc now [] s = SameBooks-self s
    emit_loop-SameBooks cause hlc now (e ∷ es) s =
        let n = (s.central_n + 1) % 2 ^ 64 in
        let next = next_hlc hlc s.central_hl (w.unix_milli now) in
        let s' : Memory w = record s { central_n = n; central_hl = next } in
        elim (Sum-cases
          (new_envelope codec (record { node_id = central_node; seq = n }) next now cause e)) [
            | inl (x, bad) ↦
                rw (emit_loop, bad)
                  (record { receipts_kept = refl; orders_kept = refl; decisions_kept = refl })
            | inr (env, fine) ↦
                rw (emit_loop, fine)
                  (SameBooks-trans
                    (record { receipts_kept = refl; orders_kept = refl; decisions_kept = refl })
                    (emit_loop-SameBooks cause hlc now es
                      (record s' { events = insert env.id env s'.events })))
          ]

    compensate-SameBooks :
        (now : w.Time) (env : Envelope w) (r : Rejection w) (s : Memory w)
        → SameBooks s (compensate codec now env r s).1
    unfolding compensate emit_central
    compensate-SameBooks now env r s = elim (List-cases (compensations_of s env.id)) [
      | inl fresh ↦
          rw (compensate, fresh)
            (emit_loop-SameBooks (some env.id) (some (causing s env.id)) now r.events s)
      | inr (c, cs, earlier) ↦ elim (Bool-cases (nat_beq (length (c ∷ cs)) (length r.events))) [
        | inl all ↦ rw (compensate, earlier, all) (SameBooks-self s)
        | inr some_lack ↦ rw (compensate, earlier, some_lack) (SameBooks-self s)
      ]
    ]

    pub conclude-books :
        (now : w.Time) (env : Envelope w) (r : Option (Rejection w)) (s : Memory w)
        → let t = (conclude codec now env r s).1 in
          (t.receipts ≡ s.receipts) × (t.orders ≡ s.orders)
    unfolding conclude record_decision
    conclude-books now env none s = (refl, refl)
    conclude-books now env (some r) s =
        let out = compensate codec now env r s in
        let kept = compensate-SameBooks now env r s in
        elim (Sum-cases (out.0)) [
          | inl (e, bad) ↦ rw (conclude, bad) (kept.receipts_kept, kept.orders_kept)
          | inr (comps, fine) ↦
              let queued = SameBooks-trans kept (enqueue-SameBooks env.id.node_id comps out.1) in
              rw (conclude, fine) (queued.receipts_kept, queued.orders_kept)
        ]

    -- The decisions of other events stay.
    pub conclude-decision :
        (now : w.Time) (env : Envelope w) (r : Option (Rejection w)) (s : Memory w) (id : EventId)
        → (env.id == id) ≡ false
        → decision (conclude codec now env r s).1 id ≡ decision s id
    unfolding conclude record_decision
    conclude-decision now env none s id other =
        let d : Decision = record {
          event_id = env.id;
          verdict = accepted;
          reason = none;
          compensating_id = none;
        } in
        lookup-insert env.id id d s.decisions ∙ rw other refl
    conclude-decision now env (some r) s id other =
        let out = compensate codec now env r s in
        let kept = compensate-SameBooks now env r s in
        elim (Sum-cases (out.0)) [
          | inl (e, bad) ↦ rw (conclude, bad) (ap (lookup id) kept.decisions_kept)
          | inr (comps, fine) ↦
              let queued = SameBooks-trans kept (enqueue-SameBooks env.id.node_id comps out.1) in
              let d : Decision = record {
                event_id = env.id;
                verdict = rejected;
                reason = some r.reason;
                compensating_id = first_id comps;
              } in
              let step : conclude codec now env (some r) s
                  ≡ (inr (d, comps), record_decision d (enqueue env.id.node_id comps out.1)) =
                rw (conclude, fine) refl in
              ap (λ o. decision o.1 id) step
              ∙ lookup-insert env.id id d (enqueue env.id.node_id comps out.1).decisions
              ∙ rw other (ap (lookup id) queued.decisions_kept)
        ]

  gathered-reason :
      (reason : Reason) (es : List (Event w)) (excess : w.Qty) (r : Rejection w)
      → gathered reason es excess ≡ some r
      → reason ≡ r.reason
  gathered-reason reason [] excess r h = absurd (cc h)
  gathered-reason reason (e ∷ es) excess r h = ground (arith, h)

  unknown_sku-reason :
      (s : Memory w) (p : Payload w) (r : Rejection w)
      → unknown_sku s p ≡ some r
      → is_po_reason r.reason ≡ false
  unfolding unknown_sku
  unknown_sku-reason s p r h =
      let ms = unknown_moves s.items (movements_of p) in
      ap is_po_reason (
        sym (
          gathered-reason Reason.unknown_sku (undo_each (λ m. m.sku) Reason.unknown_sku ms)
            (sum_qty w.zero ms) r h))

  duplicate-reason :
      (s : Memory w) (id : EventId) (receipt_id note po : String) (m : Movement w) (r : Rejection w)
      → duplicate_delivery_note s id (goods_received receipt_id note po m) ≡ some r
      → is_po_reason r.reason ≡ false
  unfolding duplicate_delivery_note
  duplicate-reason s id receipt_id note po m r h =
      elim (Option-cases (delivery_note_first_seen s note m.sku)) [
        | inl new ↦ absurd (ground (arith, new, h))
        | inr (seen, there) ↦ elim (Bool-cases (seen == id)) [
          | inl own ↦ absurd (ground (arith, there, own, h))
          | inr other ↦
              let same : duplicate_receipt ≡ r.reason = ground (arith, there, other, h) in
              ap is_po_reason (sym same)
        ]
      ]

  -- Where the chain accepts a received line, poOverReceipt does; where it rejects it for its order,
  -- that is the rejection of poOverReceipt.
  pub chain_of_goods :
      (s : Memory w) (id : EventId) (receipt_id note po : String) (m : Movement w)
      → let p = goods_received receipt_id note po m in
        (validate s id p ≡ none → po_excess s id p ≡ none)
        × ((r : Rejection w)
            → validate s id p ≡ some r
            → is_po_reason r.reason ≡ true
            → po_excess s id p ≡ some r)
  unfolding validate transfer_destination transfer_excess
  chain_of_goods s id receipt_id note po m =
      let p = goods_received receipt_id note po m in
      elim (Option-cases (unknown_sku s p)) [
        | inr (u, there) ↦ (
          λ h. absurd (ground (arith, there, h)),
          λ r h of_order.
              let same : u ≡ r = ground (arith, there, h) in
              absurd (
                cc (
                  unknown_sku-reason s p u there,
                  ap (λ (x : Rejection w). is_po_reason x.reason) same,
                  of_order,
                )),
        )
        | inl known ↦ elim (Option-cases (duplicate_delivery_note s id p)) [
          | inr (u, there) ↦ (
            λ h. absurd (ground (arith, known, there, h)),
            λ r h of_order.
                let same : u ≡ r = ground (arith, known, there, h) in
                absurd (
                  cc (
                    duplicate-reason s id receipt_id note po m u there,
                    ap (λ (x : Rejection w). is_po_reason x.reason) same,
                    of_order,
                  )),
          )
          | inl new ↦ elim (Option-cases (po_excess s id p)) [
            | inl fits ↦ (λ h. fits, λ r h of_order. absurd (ground (arith, known, new, fits, h)))
            | inr (u, over) ↦ (
              λ h. absurd (ground (arith, known, new, over, h)),
              λ r h of_order.
                  let same : u ≡ r = ground (arith, known, new, over, h) in over ∙ ap some same,
            )
          ]
        ]
      ]
