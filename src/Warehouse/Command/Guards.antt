-- ===== src/Warehouse/Command/Guards.antt =====
-- What a command that is accepted has checked.
use local_first_architecture.Base.{
  String, ◌≡◌, sym, ap, ◌∙◌, false, ◌&&◌, List, [], ◌∷◌, ◌++◌, inl, inr, ◌==◌, text_comparable,
  arith, Bool-cases, Option-cases, Sum-cases,
}
use local_first_architecture.Base.Table.{lookup}
use local_first_architecture.Warehouse.World.{World, RoundsWell}
use local_first_architecture.Warehouse.Event.{
  key_comparable, Item, Event, Movement, external, from_key, put_away, picked,
}
use local_first_architecture.Warehouse.State.{State, on_hand, item}
use local_first_architecture.Warehouse.Command.{
  Line, to_base, is_unusable, resolve_line, require_location, require_on_hand, require_lot_usable,
}
use local_first_architecture.Warehouse.Command.Goods.{
  PutAwayCmd, do_put_away, PickCmd, do_pick, ReceiveCmd, receipt_for, received_events, do_receive,
}
use local_first_architecture.Base.Int64.{Int64}

module _ (w : World) (rounds : RoundsWell w) where
  usable_not_negative : (q : w.Qty) → is_unusable w q ≡ false → w.lt q w.zero ≡ false
  usable_not_negative q h = rounds.positive q (ground (arith, h)) (ground (arith, h))

  to_base-positive :
      (i : Item w) (q b : w.Qty) (u : String) → to_base w i q u ≡ inr b → w.lt b w.zero ≡ false
  unfolding to_base
  to_base-positive i q b u h = elim (Bool-cases (is_unusable w q)) [
    | inl bad ↦ absurd (ground (arith, bad))
    | inr fine ↦ elim (Bool-cases (u == i.base_uom)) [
      | inl own ↦
          let same : q ≡ b = ground (arith, fine, own) in
          ap (λ x. w.lt x w.zero) (sym same) ∙ usable_not_negative q fine
      | inr other ↦ elim (Option-cases (lookup u i.alt_uom)) [
        | inl missing ↦ absurd (ground (arith, fine, other, missing))
        | inr (f, there) ↦ elim (Bool-cases (is_unusable w f)) [
          | inl bad ↦ absurd (ground (arith, fine, other, there, bad))
          | inr good ↦
              let same : w.mul q f ≡ b = ground (arith, fine, other, there, good) in
              ap (λ x. w.lt x w.zero) (sym same)
              ∙ rounds.scale q f (usable_not_negative q fine) (usable_not_negative f good)
        ]
      ]
    ]
  ]

  -- A line that resolves moves no negative quantity.
  pub resolve_line-positive :
      (s : State w) (l : Line w) (m : Movement w)
      → resolve_line w s l ≡ inr m
      → w.lt m.qty w.zero ≡ false
  unfolding resolve_line
  resolve_line-positive s l m h = elim (Sum-cases (item w s l.sku)) [
    | inl (e, bad) ↦ absurd (ground (arith, bad))
    | inr (it, known) ↦ elim (Bool-cases (it.lot_tracked && l.lot_id == "")) [
      | inl no_lot ↦ absurd (ground (arith, known, no_lot))
      | inr named ↦ elim (Sum-cases (to_base w it l.qty l.uom)) [
        | inl (e, bad) ↦ absurd (ground (arith, known, named, bad))
        | inr (base, fine) ↦
            let same : base ≡ m.qty = ground (arith, known, named, fine) in
            ap (λ x. w.lt x w.zero) (sym same) ∙ to_base-positive it l.qty base l.uom fine
      ]
    ]
  ]

module _ (w : World) where
  pub put_away_accepted :
      (s : State w) (c : PutAwayCmd w) (es : List (Event w))
      → do_put_away w s c ≡ inr es
      → (m : Movement w) × (resolve_line w s c.line ≡ inr m)
        × (w.lt (on_hand w s (from_key w (record m { from = c.from; to = c.to }))) m.qty ≡ false)
        × (es
            ≡ record {
              typ = "PutAway";
              aggregate_id = c.line.sku;
              payload = put_away (record m { from = c.from; to = c.to });
            }
              ∷ [])
  unfolding do_put_away require_on_hand
  put_away_accepted s c es h = elim (Sum-cases (resolve_line w s c.line)) [
    | inl (e, bad) ↦ absurd (ground (arith, bad))
    | inr (m, fine) ↦ elim (Sum-cases (require_location w s c.from)) [
      | inl (e, bad) ↦ absurd (ground (arith, fine, bad))
      | inr (u, from) ↦ elim (Sum-cases (require_location w s c.to)) [
        | inl (e, bad) ↦ absurd (ground (arith, fine, from, bad))
        | inr (v, to) ↦ (m, fine, ground (arith, fine, from, to), ground (arith, fine, from, to))
      ]
    ]
  ]

  pub pick_accepted :
      (s : State w) (c : PickCmd w) (es : List (Event w))
      → do_pick w s c ≡ inr es
      → (m : Movement w) × (resolve_line w s c.line ≡ inr m)
        × (w.lt (on_hand w s (from_key w (record m { from = c.from; to = external }))) m.qty
            ≡ false)
        × (es
            ≡ record {
              typ = "Picked";
              aggregate_id = c.line.sku;
              payload = picked (record m { from = c.from; to = external }) c.order_ref;
            }
              ∷ [])
  unfolding do_pick require_on_hand
  pick_accepted s c es h = elim (Sum-cases (resolve_line w s c.line)) [
    | inl (e, bad) ↦ absurd (ground (arith, bad))
    | inr (m, fine) ↦ elim (Sum-cases (require_location w s c.from)) [
      | inl (e, bad) ↦ absurd (ground (arith, fine, bad))
      | inr (u, from) ↦ elim (Sum-cases (require_lot_usable w s c.line.lot_id c.at)) [
        | inl (e, bad) ↦ absurd (ground (arith, fine, from, bad))
        | inr (v, to) ↦ (m, fine, ground (arith, fine, from, to), ground (arith, fine, from, to))
      ]
    ]
  ]

  pub receive_accepted :
      (s : State w) (c : ReceiveCmd w) (es : List (Event w))
      → do_receive w s c ≡ inr es
      → (m : Movement w) × (resolve_line w s c.line ≡ inr m)
        × (o : List (Event w) × String × String × Int64) × (receipt_for w s c ≡ inr o)
        × (es ≡ o.0 ++ received_events w c o (record m { from = external; to = c.to }))
  unfolding do_receive
  receive_accepted s c es h = elim (Sum-cases (resolve_line w s c.line)) [
    | inl (e, bad) ↦ absurd (ground (arith, bad))
    | inr (m, fine) ↦ elim (Sum-cases (require_location w s c.to)) [
      | inl (e, bad) ↦ absurd (ground (arith, fine, bad))
      | inr (u, to) ↦ elim (Sum-cases (receipt_for w s c)) [
        | inl (e, bad) ↦ absurd (ground (arith, fine, to, bad))
        | inr (o, opened) ↦ (m, fine, o, opened, ground (arith, fine, to, opened))
      ]
    ]
  ]
