-- ===== src/Warehouse/Arbiter/Decide/Books.antt =====
-- What does not touch the receipts, the orders and the decisions.
use local_first_architecture.Base.{
  ◌+◌, ◌%◌, ◌^◌, String, ◌≡◌, refl, ◌∙◌, true, false, Option, none, some, List, [], ◌∷◌, ◌++◌, inl,
  inr, text_comparable, pair_comparable, arith, Bool-cases, Option-cases,
}
use local_first_architecture.Base.Table.{lookup, lookup_or, insert}
use local_first_architecture.Warehouse.World.{World}
use local_first_architecture.Warehouse.Event.{
  EventId, id_comparable, StockKey, key_comparable, Movement, Envelope, Payload, goods_received,
  put_away, picked, stock_adjusted, stock_reserved, reservation_released, reservation_consumed,
  transfer_dispatched, transfer_received, receipt_opened, receipt_line_recorded, receipt_closed,
  count_started, count_line_counted, count_closed, item_upserted, location_registered,
}
use local_first_architecture.Warehouse.Central.{
  Memory, InTransitRow, record_dispatch, add_received, in_transit, fail_transfer, record_receipt,
}
use local_first_architecture.Warehouse.Central.Log.{append, enqueue}
use local_first_architecture.Warehouse.Arbiter.{Rejection}
use local_first_architecture.Warehouse.Arbiter.Decide.{
  line_key, record_lines, accepted_qty, record_received, tell_source, record_goods, record_event,
}

module _ {w : World} where
  -- The receipts, the orders and the decisions are as they were.
  pub record SameBooks (s t : Memory w) : Type 0 where
    pub receipts_kept : t.receipts ≡ s.receipts
    pub orders_kept : t.orders ≡ s.orders
    pub decisions_kept : t.decisions ≡ s.decisions

  pub SameBooks-self : (s : Memory w) → SameBooks s s
  SameBooks-self s = record { receipts_kept = refl; orders_kept = refl; decisions_kept = refl }

  pub SameBooks-trans : {s t u : Memory w} → SameBooks s t → SameBooks t u → SameBooks s u
  SameBooks-trans h k = record {
    receipts_kept = k.receipts_kept ∙ h.receipts_kept;
    orders_kept = k.orders_kept ∙ h.orders_kept;
    decisions_kept = k.decisions_kept ∙ h.decisions_kept;
  }

  pub append-SameBooks : (es : List (Envelope w)) (s : Memory w) → SameBooks s (append es s).1
  unfolding append
  append-SameBooks [] s = SameBooks-self s
  append-SameBooks (e ∷ es) s = elim (Option-cases (lookup e.id s.events)) [
    | inl new ↦
        rw (append, new)
          (SameBooks-trans
            (record { receipts_kept = refl; orders_kept = refl; decisions_kept = refl })
            (append-SameBooks es (record s { events = insert e.id e s.events })))
    | inr (old, there) ↦ rw (append, there) (append-SameBooks es s)
  ]

  pub enqueue-SameBooks :
      (target : String) (es : List (Envelope w)) (s : Memory w) → SameBooks s (enqueue target es s)
  unfolding enqueue
  enqueue-SameBooks target [] s = SameBooks-self s
  enqueue-SameBooks target (e ∷ es) s =
      elim (Bool-cases (lookup_or false (target, e.id) s.enqueued)) [
        | inl there ↦ rw (enqueue, there) (enqueue-SameBooks target es s)
        | inr new ↦
            rw (enqueue, new)
              (SameBooks-trans
                (record { receipts_kept = refl; orders_kept = refl; decisions_kept = refl })
                (enqueue-SameBooks target es (record s {
                  enqueued = insert (target, e.id) true s.enqueued;
                  next_ord = (s.next_ord + 1) % 2 ^ 64;
                  queue =
                      insert target
                        (lookup_or [] target s.queue
                          ++ (record { ord = (s.next_ord + 1) % 2 ^ 64; env = e } ∷ []))
                        s.queue;
                })))
      ]

  record_dispatch-SameBooks :
      (row : InTransitRow w) (s : Memory w) → SameBooks s (record_dispatch row s)
  unfolding record_dispatch
  record_dispatch-SameBooks row s = record {
    receipts_kept = ground arith;
    orders_kept = ground arith;
    decisions_kept = ground arith;
  }

  pub record_lines-SameBooks :
      (env : Envelope w) (id f t : String) (ms : List (Movement w)) (s : Memory w)
      → SameBooks s (record_lines env id f t ms s)
  unfolding record_lines
  record_lines-SameBooks env id f t [] s = SameBooks-self s
  record_lines-SameBooks env id f t (m ∷ ms) s =
      let row : InTransitRow w = record {
        transfer_id = id;
        key = line_key m;
        from_node = f;
        to_node = t;
        dispatched = m.qty;
        received = w.zero;
        dispatched_at = env.recorded_at;
        failed = false;
      } in
      SameBooks-trans (record_dispatch-SameBooks row s)
        (record_lines-SameBooks env id f t ms (record_dispatch row s))

  add_received-SameBooks :
      (id : EventId) (t : String) (k : StockKey) (q : w.Qty) (s u : Memory w)
      → add_received id t k q s ≡ some u
      → SameBooks s u
  unfolding add_received
  add_received-SameBooks id t k q s u h = record {
    receipts_kept = ground (arith, h);
    orders_kept = ground (arith, h);
    decisions_kept = ground (arith, h);
  }

  pub record_received-SameBooks :
      (env : Envelope w) (id : String) (ms : List (Movement w)) (s : Memory w)
      → SameBooks s (record_received env id ms s).1
  unfolding record_received
  record_received-SameBooks env id [] s = SameBooks-self s
  record_received-SameBooks env id (m ∷ ms) s = elim (Option-cases (in_transit s id (line_key m))) [
    | inl unknown ↦ rw (record_received, unknown) (record_received-SameBooks env id ms s)
    | inr (row, there) ↦ elim (Bool-cases (w.le (accepted_qty m row) w.zero)) [
      | inl nothing ↦ rw (record_received, there, nothing) (record_received-SameBooks env id ms s)
      | inr some_qty ↦
          elim (Option-cases (add_received env.id id (line_key m) (accepted_qty m row) s)) [
            | inl bad ↦ rw (record_received, there, some_qty, bad) (SameBooks-self s)
            | inr (u, fine) ↦
                rw (record_received, there, some_qty, fine)
                  (SameBooks-trans
                    (add_received-SameBooks env.id id (line_key m) (accepted_qty m row) s u fine)
                    (record_received-SameBooks env id ms u))
          ]
    ]
  ]

  pub tell_source-SameBooks :
      (env : Envelope w) (id : String) (ms : List (Movement w)) (s : Memory w)
      → SameBooks s (tell_source env id ms s)
  unfolding tell_source
  tell_source-SameBooks env id [] s = SameBooks-self s
  tell_source-SameBooks env id (m ∷ ms) s = elim (Option-cases (in_transit s id (line_key m))) [
    | inl unknown ↦ rw (tell_source, unknown) (tell_source-SameBooks env id ms s)
    | inr (row, there) ↦ rw (tell_source, there) (enqueue-SameBooks row.from_node (env ∷ []) s)
  ]

  pub dispatched-SameBooks :
      (env : Envelope w) (id f t : String) (ls : List (Movement w)) (r : Option (Rejection w))
      (s : Memory w)
      → SameBooks s (record_event env (transfer_dispatched id f t ls) r s).1
  unfolding record_event fail_transfer
  dispatched-SameBooks env id f t ls none s = record_lines-SameBooks env id f t ls s
  dispatched-SameBooks env id f t ls (some r) s =
      SameBooks-trans (record_lines-SameBooks env id f t ls s)
        (record { receipts_kept = refl; orders_kept = refl; decisions_kept = refl })

  record_goods-decisions :
      (env : Envelope w) (note po : String) (m : Movement w) (r : Option (Rejection w))
      (s : Memory w)
      → (record_goods env note po m r s).decisions ≡ s.decisions
  unfolding record_goods record_receipt
  record_goods-decisions env note po m none s = ground arith
  record_goods-decisions env note po m (some r) s = ground arith

  pub record_event-decisions :
      (env : Envelope w) (p : Payload w) (r : Option (Rejection w)) (s : Memory w)
      → (record_event env p r s).1.decisions ≡ s.decisions
  unfolding record_event
  record_event-decisions env (goods_received receipt_id note po m) r s =
      record_goods-decisions env note po m r s
  record_event-decisions env (transfer_dispatched id f t ls) r s =
      (dispatched-SameBooks env id f t ls r s).decisions_kept
  record_event-decisions env (transfer_received id ls) r s =
      (record_received-SameBooks env id ls s).decisions_kept
  record_event-decisions env (put_away m) r s = refl
  record_event-decisions env (picked m o) r s = refl
  record_event-decisions env (stock_adjusted m x) r s = refl
  record_event-decisions env (stock_reserved i k q) r s = refl
  record_event-decisions env (reservation_released i) r s = refl
  record_event-decisions env (reservation_consumed i) r s = refl
  record_event-decisions env (receipt_opened i d p) r s = refl
  record_event-decisions env (receipt_line_recorded l) r s = refl
  record_event-decisions env (receipt_closed i) r s = refl
  record_event-decisions env (count_started i l) r s = refl
  record_event-decisions env (count_line_counted i k q) r s = refl
  record_event-decisions env (count_closed i) r s = refl
  record_event-decisions env (item_upserted i) r s = refl
  record_event-decisions env (location_registered i k) r s = refl
