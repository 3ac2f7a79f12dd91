-- ===== src/Warehouse/Arbiter/Decide/PurchaseOrder.antt =====
-- Orders and receipts in whole units: what central counts of a receipt fits in its order.
use mathlib.Core.Path.{subst}
use local_first_architecture.Base.{
  ℕ, ◌+◌, ◌-◌, ◌^◌, ◌≤◌, String, ◌≡◌, refl, sym, ap, ◌∙◌, true, false, leb, ltb, ◌&&◌, Option, none,
  some, [], ◌∷◌, inl, inr, ◌==◌, text_comparable, pair_comparable, if◌then◌else◌, arith, Bool-cases,
  Option-cases,
}
use local_first_architecture.Base.Table.{Table, lookup, insert}
use local_first_architecture.Warehouse.World.{World, CountsExactly}
use local_first_architecture.Warehouse.Event.{
  EventId, id_comparable, Movement, Envelope, goods_received,
}
use local_first_architecture.Warehouse.Central.{
  ReceiptFact, Memory, record_receipt, sum_receipts, received_against_po, purchase_order,
}
use local_first_architecture.Warehouse.Arbiter.{Rejection, po_excess}
use local_first_architecture.Warehouse.Arbiter.Decide.{is_po_reason, record_goods}

module _ (w : World) (c : CountsExactly w) where
  -- A quantity is a count of whole units up to a bound.
  abbrev pub IsUpTo : ℕ → w.Qty → Type 0
  IsUpTo top q = (n : ℕ) × (q ≡ c.units n) × (n ≤ top)

  -- Every order that central knows is of at most 2 ^ 52 units, and received up to what it orders.
  abbrev pub IsWithinOrders : Memory w → Type 0
  IsWithinOrders s =
      (po sku : String) (ordered : w.Qty)
      → purchase_order s po sku ≡ some ordered
      → (o : ℕ) × (ordered ≡ c.units o) × (o ≤ 2 ^ 52) × IsUpTo o (received_against_po s po sku)

  -- One more fact counts where it matches.
  sum_receipts-insert :
      (po sku : String) (f : ReceiptFact w) (fs : Table EventId (ReceiptFact w)) (total : w.Qty)
      → lookup f.event_id fs ≡ none
      → sum_receipts po sku total (insert f.event_id f fs) ≡ (
          if f.po_ref == po && f.sku == sku
          then w.add (sum_receipts po sku total fs) f.qty_base
          else sum_receipts po sku total fs)
  unfolding sum_receipts lookup insert
  sum_receipts-insert po sku f [] total fresh = ground arith
  sum_receipts-insert po sku f ((id, g) ∷ fs) total fresh = elim (Bool-cases (id == f.event_id)) [
    | inl there ↦ absurd (ground (arith, fresh, there))
    | inr other ↦
        let fresh' : lookup f.event_id fs ≡ none = ground (arith, fresh, other) in
        elim (Bool-cases (g.po_ref == po && g.sku == sku)) [
          | inl counts ↦
              rw (other, sum_receipts, counts)
                (sum_receipts-insert po sku f fs (w.add total g.qty_base) fresh')
          | inr not_this ↦
              rw (other, sum_receipts, not_this) (sum_receipts-insert po sku f fs total fresh')
        ]
  ]

  -- The excess of k more units over an order of o, of which n are received.
  excess_units :
      (n k o : ℕ)
      → n ≤ o
      → o ≤ 2 ^ 52
      → k ≤ 2 ^ 52
      → let excess = w.sub (w.add (c.units n) (c.units k)) (c.units o) in
        (w.le excess w.zero ≡ leb (n + k) o) × (o ≤ n + k → excess ≡ c.units (n + k - o))
  excess_units n k o fits low small =
      let sum : w.add (c.units n) (c.units k) ≡ c.units (n + k) = c.add_units n k (omega arith) in
      rw sum (elim (Bool-cases (leb (n + k) o)) [
        | inl within ↦
            let room : n + k ≤ o = ground (arith, within) in
            (
              c.sub_more (n + k) o room (omega arith) ∙ sym within,
              λ over. c.sub_units (n + k) o over (omega arith),
            )
        | inr beyond ↦
            let over : o ≤ n + k = ground (arith, beyond) in
            let left : w.sub (c.units (n + k)) (c.units o) ≡ c.units (n + k - o) =
              c.sub_units (n + k) o over (omega arith) in
            (
              ap (λ x. w.le x w.zero) left
                  ∙ ap (w.le (c.units (n + k - o))) (sym c.no_units)
                  ∙ c.le_units (n + k - o) 0 (omega arith) (omega arith)
                  ∙ ground (arith, beyond),
              λ o'. left,
            )
      ])

  -- What is counted of k units of which an excess is taken: the order is filled, or stays as it was.
  counted_units :
      (n k o : ℕ)
      → n ≤ o
      → o ≤ 2 ^ 52
      → k ≤ 2 ^ 52
      → leb (n + k) o ≡ false
      → let excess = w.sub (w.add (c.units n) (c.units k)) (c.units o) in
        let taken = if w.lt (c.units k) excess then c.units k else excess in
        IsUpTo o (w.add (c.units n) (w.sub (c.units k) taken))
  counted_units n k o fits low small beyond =
      let excess = w.sub (w.add (c.units n) (c.units k)) (c.units o) in
      let over : o ≤ n + k = ground (arith, beyond) in
      let e : excess ≡ c.units (n + k - o) = (excess_units n k o fits low small).1 over in
      let lt : w.lt (c.units k) (c.units (n + k - o)) ≡ ltb k (n + k - o) =
        c.lt_units k (n + k - o) (omega arith) (omega arith) in
      rw (e, lt)
        (elim (Bool-cases (ltb k (n + k - o))) [
          | inl all ↦ absurd (ground (arith, all))
          | inr part ↦ rw part (
            o,
            ap (w.add (c.units n)) (c.sub_units k (n + k - o) (omega arith) (omega arith))
                ∙ c.add_units n (k - (n + k - o)) (omega arith)
                ∙ ap c.units (omega arith),
            omega arith,
          )
        ])

  -- What the chain leaves of a receipt fits in its order.
  accepted_fits :
      (s : Memory w) (id : EventId) (receipt_id note po : String) (m : Movement w) (ordered : w.Qty)
      (n k o : ℕ)
      → lookup id s.receipts ≡ none
      → purchase_order s po m.sku ≡ some ordered
      → ordered ≡ c.units o
      → received_against_po s po m.sku ≡ c.units n
      → m.qty ≡ c.units k
      → n ≤ o
      → o ≤ 2 ^ 52
      → k ≤ 2 ^ 52
      → let p = goods_received receipt_id note po m in
        (po_excess s id p ≡ none → IsUpTo o (w.add (c.units n) (c.units k)))
        × ((r : Rejection w)
            → po_excess s id p ≡ some r
            → IsUpTo o (w.add (c.units n) (w.sub (c.units k) r.excess)))
  unfolding po_excess
  accepted_fits s id receipt_id note po m ordered n k o fresh known eo en ek fits low small =
      let excess = w.sub (w.add (c.units n) (c.units k)) (c.units o) in
      let bound : w.le excess w.zero ≡ leb (n + k) o = (excess_units n k o fits low small).0 in
      elim (Bool-cases (leb (n + k) o)) [
        | inl within ↦ (
          λ h. (n + k, c.add_units n k (omega arith), ground (arith, within)),
          λ r h. absurd (ground (arith, fresh, known, eo, en, ek, bound, within, h)),
        )
        | inr beyond ↦ (
          λ h. absurd (ground (arith, fresh, known, eo, en, ek, bound, beyond, h)),
          λ r h.
              let same : (if w.lt (c.units k) excess then c.units k else excess) ≡ r.excess =
                ground (arith, fresh, known, eo, en, ek, bound, beyond, h) in
              subst (λ x. IsUpTo o (w.add (c.units n) (w.sub (c.units k) x))) same
                (counted_units n k o fits low small beyond),
        )
      ]

  -- A quantity that its order still takes.
  abbrev Fits : w.Qty → w.Qty → Type 0
  Fits ordered q = (o : ℕ) × (ordered ≡ c.units o) × (o ≤ 2 ^ 52) × IsUpTo o q

  -- A fact that fits in its order.
  record_receipt-IsWithinOrders :
      (f : ReceiptFact w) (s : Memory w)
      → IsWithinOrders s
      → (lookup f.event_id s.receipts ≡ none
          → (ordered : w.Qty) → purchase_order s f.po_ref f.sku ≡ some ordered
          → Fits ordered (w.add (received_against_po s f.po_ref f.sku) f.qty_base))
      → IsWithinOrders (record_receipt f s)
  unfolding record_receipt received_against_po
  record_receipt-IsWithinOrders f s h fits = elim (Option-cases (lookup f.event_id s.receipts)) [
    | inr (own, there) ↦
        let step : record_receipt f s ≡ s = rw (record_receipt, there) refl in
        subst (λ t. IsWithinOrders t) (sym step) h
    | inl fresh ↦
        let next : Memory w = record s { receipts = insert f.event_id f s.receipts } in
        let step : record_receipt f s ≡ next = rw (record_receipt, fresh) refl in
        subst (λ t. IsWithinOrders t) (sym step)
          (λ po sku ordered known. elim (Bool-cases (f.po_ref == po && f.sku == sku)) [
            | inr not_this ↦
                rw (sum_receipts-insert po sku f s.receipts w.zero fresh, not_this)
                  (h po sku ordered known)
            | inl counts ↦
                let e : f.po_ref ≡ po =
                  (text_comparable.same_iff f.po_ref po).0 (ground (arith, counts)) in
                let e' : f.sku ≡ sku =
                  (text_comparable.same_iff f.sku sku).0 (ground (arith, counts)) in
                rw (sum_receipts-insert po sku f s.receipts w.zero fresh, counts, ← e, ← e')
                  (fits fresh ordered (rw (e, e') known))
          ])
  ]

  -- The case GoodsReceived of record, with what the chain says.
  pub record_goods-IsWithinOrders :
      (env : Envelope w) (receipt_id note po : String) (m : Movement w) (rej : Option (Rejection w))
      (s : Memory w)
      → let p = goods_received receipt_id note po m in
        (rej ≡ none → po_excess s env.id p ≡ none)
        → ((r : Rejection w)
            → rej ≡ some r
            → is_po_reason r.reason ≡ true
            → po_excess s env.id p ≡ some r)
        → IsUpTo (2 ^ 52) m.qty
        → IsWithinOrders s
        → IsWithinOrders (record_goods env note po m rej s)
  unfolding record_goods
  record_goods-IsWithinOrders env receipt_id note po m none s clear over (k, ek, small) h =
      let f : ReceiptFact w = record {
        event_id = env.id;
        node = env.id.node_id;
        po_ref = po;
        delivery_note = note;
        sku = m.sku;
        qty_base = m.qty;
      } in
      record_receipt-IsWithinOrders f s h (λ fresh ordered known.
        let (o, eo, low, (n, en, fits)) = h po m.sku ordered known in
        let accept =
          accepted_fits s env.id receipt_id note po m ordered n k o fresh known eo en ek fits low
            small in
        (o, eo, low, rw (en, ek) (accept.0 (clear refl))))
  record_goods-IsWithinOrders env receipt_id note po m (some r) s clear over (k, ek, small) h =
      elim (Bool-cases (is_po_reason r.reason)) [
        | inr other ↦
            let step : record_goods env note po m (some r) s ≡ s = rw (record_goods, other) refl in
            subst (λ t. IsWithinOrders t) (sym step) h
        | inl of_order ↦
            let f : ReceiptFact w = record {
              event_id = env.id;
              node = env.id.node_id;
              po_ref = po;
              delivery_note = note;
              sku = m.sku;
              qty_base = w.sub m.qty r.excess;
            } in
            let step : record_goods env note po m (some r) s ≡ record_receipt f s =
              rw (record_goods, of_order) refl in
            subst (λ t. IsWithinOrders t) (sym step)
              (record_receipt-IsWithinOrders f s h (λ fresh ordered known.
                let (o, eo, low, (n, en, fits)) = h po m.sku ordered known in
                let accept =
                  accepted_fits s env.id receipt_id note po m ordered n k o fresh known eo en ek
                    fits low small in
                (o, eo, low, rw (en, ek) (accept.1 r (over r refl of_order)))))
      ]
