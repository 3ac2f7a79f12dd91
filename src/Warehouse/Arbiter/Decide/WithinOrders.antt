-- ===== src/Warehouse/Arbiter/Decide/WithinOrders.antt =====
-- Arbitrate keeps purchase orders in whole units within what they order.
use mathlib.Core.Path.{subst}
use local_first_architecture.Base.{
  ℕ, ◌≤◌, ◌^◌, ◌≡◌, refl, sym, ap, ◌∙◌, [], ◌∷◌, inl, inr, text_comparable, pair_comparable,
  Bool-cases, Option-cases, Sum-cases,
}
use local_first_architecture.Base.Table.{lookup}
use local_first_architecture.Warehouse.World.{World, CountsExactly}
use local_first_architecture.Warehouse.Event.{
  id_comparable, Payload, Envelope, goods_received, put_away, picked, stock_adjusted,
  stock_reserved, reservation_released, reservation_consumed, transfer_dispatched,
  transfer_received, receipt_opened, receipt_line_recorded, receipt_closed, count_started,
  count_line_counted, count_closed, item_upserted, location_registered,
}
use local_first_architecture.Warehouse.Event.Seal.{Codec, decode_payload}
use local_first_architecture.Warehouse.Central.{
  Memory, fail_transfer, decision, received_against_po,
}
use local_first_architecture.Warehouse.Central.Log.{append, compensations_of}
use local_first_architecture.Warehouse.Arbiter.{validate}
use local_first_architecture.Warehouse.Arbiter.Decide.{
  record_event, fan_out, conclude, decide, arbitrate,
}
use local_first_architecture.Warehouse.Arbiter.Decide.Books.{
  SameBooks, append-SameBooks, dispatched-SameBooks, record_received-SameBooks,
}
use local_first_architecture.Warehouse.Arbiter.Decide.PurchaseOrder.{
  IsUpTo, IsWithinOrders, record_goods-IsWithinOrders,
}
use local_first_architecture.Warehouse.Arbiter.Decide.Chain.{
  fan_out-SameBooks, conclude-books, chain_of_goods,
}
use local_first_architecture.Warehouse.Central.{sum_receipts}

module _ (w : World) (c : CountsExactly w) where
  abbrev Within : Memory w → Type 0
  Within = IsWithinOrders w c

  books-Within :
      (s t : Memory w) → (t.receipts ≡ s.receipts) × (t.orders ≡ s.orders) → Within s → Within t
  unfolding received_against_po
  books-Within s t (receipts, orders) h po sku ordered known =
      subst
        (λ fs.
          (o : ℕ) × (ordered ≡ c.units o)
          × (o ≤ 2 ^ 52)
          × IsUpTo w c o (sum_receipts po sku w.zero fs))
        (sym receipts) (h po sku ordered (ap (lookup (po, sku)) (sym orders) ∙ known))

  SameBooks-Within : {s t : Memory w} → SameBooks s t → Within s → Within t
  SameBooks-Within {s} {t} same h = books-Within s t (same.receipts_kept, same.orders_kept) h

  -- A payload of a received line has a quantity of at most 2 ^ 52 whole units.
  abbrev pub IsCounted : Payload w → Type 0
  IsCounted (goods_received receipt_id note po m) = IsUpTo w c (2 ^ 52) m.qty
  IsCounted _ = Unit

  record_event-Within :
      (env : Envelope w) (p : Payload w) (s : Memory w)
      → IsCounted p
      → Within s
      → Within (record_event env p (validate s env.id p) s).1
  unfolding record_event fail_transfer
  record_event-Within env (goods_received receipt_id note po m) s counted h =
      let chain = chain_of_goods s env.id receipt_id note po m in
      record_goods-IsWithinOrders w c env receipt_id note po m
        (validate s env.id (goods_received receipt_id note po m)) s chain.0 chain.1 counted h
  record_event-Within env (transfer_dispatched id f t ls) s counted h =
      SameBooks-Within
        (dispatched-SameBooks env id f t ls (validate s env.id (transfer_dispatched id f t ls)) s) h
  record_event-Within env (transfer_received id ls) s counted h =
      SameBooks-Within (record_received-SameBooks env id ls s) h
  record_event-Within env (put_away m) s counted h = h
  record_event-Within env (picked m o) s counted h = h
  record_event-Within env (stock_adjusted m r) s counted h = h
  record_event-Within env (stock_reserved r k q) s counted h = h
  record_event-Within env (reservation_released r) s counted h = h
  record_event-Within env (reservation_consumed r) s counted h = h
  record_event-Within env (receipt_opened r d p) s counted h = h
  record_event-Within env (receipt_line_recorded l) s counted h = h
  record_event-Within env (receipt_closed r) s counted h = h
  record_event-Within env (count_started c l) s counted h = h
  record_event-Within env (count_line_counted c k q) s counted h = h
  record_event-Within env (count_closed c) s counted h = h
  record_event-Within env (item_upserted i) s counted h = h
  record_event-Within env (location_registered c k) s counted h = h

  decide-Within :
      (codec : Codec w) (now : w.Time) (env : Envelope w) (s : Memory w)
      → ((p : Payload w) → decode_payload codec env ≡ inr p → IsCounted p)
      → Within s
      → Within (decide codec now env s).1
  unfolding decide
  decide-Within codec now env s counted h =
      let s1 = (append (env ∷ []) s).1 in
      let h1 : Within s1 = SameBooks-Within (append-SameBooks (env ∷ []) s) h in
      elim (Sum-cases (decode_payload codec env)) [
        | inl (e, bad) ↦ rw (decide, bad) h1
        | inr (p, fine) ↦
            let rej = validate s1 env.id p in
            let done = record_event env p rej s1 in
            let h2 : Within done.1 = record_event-Within env p s1 (counted p fine) h1 in
            elim (Bool-cases (done.0)) [
              | inl bad ↦ rw (decide, fine, bad) h2
              | inr good ↦
                  let step : decide codec now env s
                      ≡ conclude codec now env rej (fan_out env p rej done.1) =
                    rw (decide, fine, good) refl in
                  subst (λ out. Within out.1) (sym step)
                    (books-Within (fan_out env p rej done.1)
                      (conclude codec now env rej (fan_out env p rej done.1)).1
                      (conclude-books codec now env rej (fan_out env p rej done.1))
                      (SameBooks-Within (fan_out-SameBooks env p rej done.1) h2))
            ]
      ]

  -- Whatever event a node sends, and however it is decided, Arbitrate keeps every purchase order within
  -- what it orders: the sum of the receipts that central counts against an order that it knows is a
  -- count of whole units, and at most the ordered one. The conditions are that the orders, and the
  -- quantity of the event if it is a receipt, are whole and at most 2 ^ 52 units. Of float64 it is
  -- used that whole numbers up to 2 ^ 53 have exact sums and differences and their order.
  pub arbitrate-IsWithinOrders :
      (codec : Codec w) (now : w.Time) (env : Envelope w) (s : Memory w)
      → ((p : Payload w) → decode_payload codec env ≡ inr p → IsCounted p)
      → IsWithinOrders w c s
      → IsWithinOrders w c (arbitrate codec now env s).1
  unfolding arbitrate
  arbitrate-IsWithinOrders codec now env s counted h = elim (Option-cases (decision s env.id)) [
    | inl new ↦
        let step : arbitrate codec now env s ≡ decide codec now env s = rw (arbitrate, new) refl in
        subst (λ out. Within out.1) (sym step) (decide-Within codec now env s counted h)
    | inr (d, there) ↦
        let step : arbitrate codec now env s ≡ (inr (d, compensations_of s env.id), s) =
          rw (arbitrate, there) refl in
        subst (λ out. Within out.1) (sym step) h
  ]
