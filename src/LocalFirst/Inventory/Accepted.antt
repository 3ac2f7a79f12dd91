-- ===== src/LocalFirst/Inventory/Accepted.antt =====
-- What a command's event that is accepted does to the balances, for each type of event.
use local_first_architecture.Base.{
  ◌+◌, ◌<◌, ◌^◌, String, ◌≡◌, refl, sym, ap, ◌∙◌, true, false, none, some, [], ◌∷◌, ◌⊎◌, inl, inr,
  ◌==◌, text_comparable, arith, Bool-cases, Option-cases, Sum-cases,
}
use local_first_architecture.Base.Int64.{Int64, int_zero, is_negative, add_int}
use local_first_architecture.LocalFirst.Clock.{now}
use local_first_architecture.LocalFirst.Store.{Record, next_record, AppendError, append}
use local_first_architecture.LocalFirst.Balances.{
  Change, Moved, Codec, Key, key_comparable, same_stock_iff, State, balance, credit, debit, apply,
  type_received, type_issued, type_moved,
}
use local_first_architecture.LocalFirst.Balances.Effect.{balance-credit, balance-debit}
use local_first_architecture.LocalFirst.Inventory.{
  Live, Inventory, CommandError, guard, touched_keys, any_negative, check, project, append_event,
}

-- What an accepted event has passed, and what a refused one leaves.
unfoldable pub IsAccepted : {P : Type 0} → Codec P → Inventory P → Record P → Inventory P → Type 0
unfolding touched_keys
IsAccepted codec i r j =
    (apply codec i.live.balances r ≡ inr j.live.balances)
    × (any_negative (touched_keys codec r) j.live.balances ≡ false)

abbrev pub IsUnmoved : {P : Type 0} → Inventory P → Inventory P → Type 0
IsUnmoved i j = (j.store ≡ i.store) × (j.live.balances ≡ i.live.balances)

module _ {P : Type 0} (codec : Codec P) where
  check_passed :
      (live : Live) (r : Record P)
      → check codec live r ≡ none
      → (s : State) × (apply codec live.balances r ≡ inr s)
        × (any_negative (touched_keys codec r) s ≡ false)
  unfolding check
  check_passed live r h = elim (Sum-cases (apply codec live.balances r)) [
    | inl (e, bad) ↦ absurd (ground (arith, bad))
    | inr (s, fine) ↦ elim (Bool-cases (any_negative (touched_keys codec r) s)) [
      | inl below ↦ absurd (ground (arith, fine, below))
      | inr ok ↦ (s, fine, ok)
    ]
  ]

  pub append_event-cases :
      (i : Inventory P) (reading : Int64) (wall : Record P → Int64) (typ : String) (payload : P)
      → let out = append_event codec i reading wall typ payload in
        ((r : Record P) × (out.0 ≡ inr r)
          × (r.typ ≡ typ)
          × (r.payload ≡ payload)
          × IsAccepted codec i r out.1)
        ⊎ ((e : CommandError) × (out.0 ≡ inl e) × IsUnmoved i out.1)
  unfolding append_event append project IsAccepted
  append_event-cases i reading wall typ payload =
      let live : Live = record (i.live) { clk = now i.live.clk reading } in
      let r = next_record i.store typ payload live.clk.last in
      elim (Option-cases (check codec live r)) [
        | inr (e, refused) ↦
            rw (append_event, append, refused, append)
              (inr (CommandError.not_appended (AppendError.rejected e), refl, (refl, refl)))
        | inl ok ↦
            let (s, applied, fine) = check_passed live r ok in
            rw (append_event, append, ok, append, applied)
              (inl (r, refl, refl, refl, (applied, fine)))
      ]

-- What the encoding of events promises: an event decodes to itself.
pub record IsFaithful {P : Type 0} (codec : Codec P) : Type 0 where
  pub change_back : (e : Change) → codec.decode_change (codec.encode_change e) ≡ some e
  pub moved_back : (e : Moved) → codec.decode_moved (codec.encode_moved e) ≡ some e

-- The credit of a command to a balance stays within an int64.
abbrev pub Fits : Key → Key → Int64 → State → Type 0
Fits j k q s = (j == k) ≡ true → balance k s + q < 2 ^ 64 + 2 ^ 63

-- No balance has gone below zero.
abbrev pub IsKept : State → State → Key → Type 0
IsKept s t k = is_negative (balance k s) ≡ false → is_negative (balance k t) ≡ false

pub guard-positive :
    {P : Type 0} (i : Inventory P) (q : Int64) (location : String)
    → guard i q location ≡ none
    → int_zero < q
unfolding guard
guard-positive i q location h = ground arith

credit-IsKept :
    (j k : Key) (q : Int64) (s : State) → int_zero < q → Fits j k q s → IsKept s (credit j q s) k
credit-IsKept j k q s pos fits = unfold add_int in ground (arith, balance-credit k j q s, fits)

debit_other :
    (j k : Key) (q : Int64) (s : State) → (j == k) ≡ false → balance k (debit j q s) ≡ balance k s
debit_other j k q s h = ground (arith, balance-debit k j q s)

module _ {P : Type 0} (codec : Codec P) (faithful : IsFaithful codec) where
  pub received-IsKept :
      (i j : Inventory P) (r : Record P) (e : Change) (k : Key)
      → r.typ ≡ type_received
      → r.payload ≡ codec.encode_change e
      → IsAccepted codec i r j
      → int_zero < e.qty
      → Fits (record { sku = e.sku; location = e.location }) k e.qty i.live.balances
      → IsKept i.live.balances j.live.balances k
  unfolding IsAccepted apply
  received-IsKept i j r e k typ payload (applied, fine) pos fits =
      let at : Key = record { sku = e.sku; location = e.location } in
      let done : apply codec i.live.balances r ≡ inr (credit at e.qty i.live.balances) =
        rw (typ, payload, faithful.change_back e) refl in
      let same : j.live.balances ≡ credit at e.qty i.live.balances = cc (applied, done) in
      rw same (credit-IsKept at k e.qty i.live.balances pos fits)

  pub issued-IsKept :
      (i j : Inventory P) (r : Record P) (e : Change) (k : Key)
      → r.typ ≡ type_issued
      → r.payload ≡ codec.encode_change e
      → IsAccepted codec i r j
      → IsKept i.live.balances j.live.balances k
  unfolding IsAccepted apply touched_keys
  issued-IsKept i j r e k typ payload (applied, fine) =
      let at : Key = record { sku = e.sku; location = e.location } in
      let done : apply codec i.live.balances r ≡ inr (debit at e.qty i.live.balances) =
        rw (typ, payload, faithful.change_back e) refl in
      let touched : touched_keys codec r ≡ at ∷ [] =
        rw (typ, payload, faithful.change_back e) refl in
      let same : j.live.balances ≡ debit at e.qty i.live.balances = cc (applied, done) in
      let kept : is_negative (balance at j.live.balances) ≡ false = ground (arith, touched, fine) in
      elim (Bool-cases (at == k)) [
        | inl own ↦
            let here : at ≡ k = (same_stock_iff at k).0 own in
            λ h. ap (λ x. is_negative (balance x j.live.balances)) (sym here) ∙ kept
        | inr other ↦ λ h.
            ap (λ s. is_negative (balance k s)) same
            ∙ ap is_negative (debit_other at k e.qty i.live.balances other)
            ∙ h
      ]

  pub moved-IsKept :
      (i j : Inventory P) (r : Record P) (e : Moved) (k : Key)
      → r.typ ≡ type_moved
      → r.payload ≡ codec.encode_moved e
      → IsAccepted codec i r j
      → int_zero < e.qty
      → Fits (record { sku = e.sku; location = e.to }) k e.qty i.live.balances
      → IsKept i.live.balances j.live.balances k
  unfolding IsAccepted apply touched_keys
  moved-IsKept i j r e k typ payload (applied, fine) pos fits =
      let from : Key = record { sku = e.sku; location = e.from } in
      let to : Key = record { sku = e.sku; location = e.to } in
      let taken = debit from e.qty i.live.balances in
      let done : apply codec i.live.balances r ≡ inr (credit to e.qty taken) =
        rw (typ, payload, faithful.moved_back e) refl in
      let touched : touched_keys codec r ≡ from ∷ [] =
        rw (typ, payload, faithful.moved_back e) refl in
      let same : j.live.balances ≡ credit to e.qty taken = cc (applied, done) in
      let kept : is_negative (balance from j.live.balances) ≡ false =
        ground (arith, touched, fine) in
      elim (Bool-cases (from == k)) [
        | inl own ↦
            let here : from ≡ k = (same_stock_iff from k).0 own in
            λ h. ap (λ x. is_negative (balance x j.live.balances)) (sym here) ∙ kept
        | inr other ↦
            let alike : balance k taken ≡ balance k i.live.balances =
              debit_other from k e.qty i.live.balances other in
            rw same (λ h.
              credit-IsKept to k e.qty taken pos (λ own. rw alike (fits own))
                (ap is_negative alike ∙ h))
      ]
