-- ===== src/LocalFirst/Balances/Effect.antt =====
-- What a record does to a balance does not depend on the rest of the state.
use local_first_architecture.Base.{
  String, ◌≡◌, refl, ap, ◌∙◌, Bool, true, false, Option, none, some, inl, inr, ◌==◌,
  text_comparable, if◌then◌else◌, arith, Bool-cases, Option-cases,
}
use local_first_architecture.Base.Table.{lookup-insert}
use local_first_architecture.Base.Int64.{
  Int64, int_zero, add_int, sub_int, neg_int, add_int_assoc, add_int-zero, sub_int-InInt,
  sub_int-eq-add-neg, InInt,
}
use local_first_architecture.LocalFirst.Store.{Record}
use local_first_architecture.LocalFirst.Balances.{
  type_received, type_issued, type_moved, Codec, Key, key_comparable, same_stock_iff, State,
  balance, credit, debit, DomainError, bad_payload, unknown_type, apply,
}

pub balance-credit :
    (k j : Key) (q : Int64) (s : State)
    → balance k (credit j q s) ≡ (if j == k then add_int (balance k s) q else balance k s)
unfolding credit
balance-credit k j q s =
    ground (arith, lookup-insert j k (add_int (balance j s) q) s, same_stock_iff j k)

pub balance-debit :
    (k j : Key) (q : Int64) (s : State)
    → balance k (debit j q s) ≡ (if j == k then sub_int (balance k s) q else balance k s)
unfolding debit
balance-debit k j q s =
    ground (arith, lookup-insert j k (sub_int (balance j s) q) s, same_stock_iff j k)

abbrev pub IsInts : State → Type 0
IsInts s = (k : Key) → InInt (balance k s)

abbrev pub shift_of : {E : Type 0} → Option E → (E → Int64) → Int64
shift_of none f = int_zero
shift_of (some e) f = f e

abbrev pub at_key : Key → String → String → Int64 → Int64
at_key k sku location q = if record { sku = sku; location = location } == k then q else int_zero

abbrev pub is_decoded : {E : Type 0} → Option E → Bool
is_decoded none = false
is_decoded (some e) = true

module _ {P : Type 0} (codec : Codec P) where
  -- Whether a record has a known type and a payload of that type.
  abbrev pub is_applicable : Record P → Bool
  is_applicable r =
      if r.typ == type_received
      then is_decoded (codec.decode_change r.payload)
      else if r.typ == type_issued
      then is_decoded (codec.decode_change r.payload)
      else if r.typ == type_moved
      then is_decoded (codec.decode_moved r.payload)
      else false

  -- What a record adds to the balance of a key.
  abbrev pub shift : Key → Record P → Int64
  shift k r =
      if r.typ == type_received
      then shift_of (codec.decode_change r.payload) (λ e. at_key k e.sku e.location e.qty)
      else if r.typ == type_issued
      then shift_of (codec.decode_change r.payload) (λ e. at_key k e.sku e.location (neg_int e.qty))
      else if r.typ == type_moved
      then shift_of (codec.decode_moved r.payload)
          (λ e. add_int (at_key k e.sku e.from (neg_int e.qty)) (at_key k e.sku e.to e.qty))
      else int_zero

  -- A state whose balances are those of another one, each with its shift.
  abbrev pub IsShifted : State → State → Record P → Type 0
  IsShifted s t r = (k : Key) → balance k t ≡ add_int (balance k s) (shift k r)

credit_shift :
    (k : Key) (sku location : String) (q : Int64) (s : State)
    → InInt (balance k s)
    → balance k (credit (record { sku = sku; location = location }) q s)
      ≡ add_int (balance k s) (at_key k sku location q)
credit_shift k sku location q s h = ground (
  arith,
  balance-credit k (record { sku = sku; location = location }) q s,
  add_int-zero (balance k s) h,
)

debit_shift :
    (k : Key) (sku location : String) (q : Int64) (s : State)
    → InInt (balance k s)
    → balance k (debit (record { sku = sku; location = location }) q s)
      ≡ add_int (balance k s) (at_key k sku location (neg_int q))
debit_shift k sku location q s h = ground (
  arith,
  balance-debit k (record { sku = sku; location = location }) q s,
  add_int-zero (balance k s) h,
  sub_int-eq-add-neg (balance k s) q,
)

IsInts-debit : (j : Key) (q : Int64) (s : State) → IsInts s → IsInts (debit j q s)
IsInts-debit j q s h k = ground (arith, balance-debit k j q s, sub_int-InInt (balance k s) q, h k)

module _ {P : Type 0} (codec : Codec P) where
  -- A record that applies shifts every balance by its own amount, from any state.
  pub apply-IsShifted :
      (s : State) (r : Record P)
      → IsInts s
      → is_applicable codec r ≡ true
      → (t : State) × (apply codec s r ≡ inr t) × IsShifted codec s t r
  unfolding apply
  apply-IsShifted s r ints ok = elim (Bool-cases (r.typ == type_received)) [
    | inl received ↦ elim (Option-cases (codec.decode_change r.payload)) [
      | inl bad ↦ absurd (ground (arith, received, bad))
      | inr (e, fine) ↦ (
        credit (record { sku = e.sku; location = e.location }) e.qty s,
        rw (received, fine) refl,
        λ k. rw (received, fine) (credit_shift k e.sku e.location e.qty s (ints k)),
      )
    ]
    | inr other ↦ elim (Bool-cases (r.typ == type_issued)) [
      | inl issued ↦ elim (Option-cases (codec.decode_change r.payload)) [
        | inl bad ↦ absurd (ground (arith, other, issued, bad))
        | inr (e, fine) ↦ (
          debit (record { sku = e.sku; location = e.location }) e.qty s,
          rw (other, issued, fine) refl,
          λ k. rw (other, issued, fine) (debit_shift k e.sku e.location e.qty s (ints k)),
        )
      ]
      | inr other' ↦ elim (Bool-cases (r.typ == type_moved)) [
        | inr unknown ↦ absurd (ground (arith, other, other', unknown))
        | inl moved ↦ elim (Option-cases (codec.decode_moved r.payload)) [
          | inl bad ↦ absurd (ground (arith, other, other', moved, bad))
          | inr (e, fine) ↦
              let from : Key = record { sku = e.sku; location = e.from } in
              (
                credit (record { sku = e.sku; location = e.to }) e.qty (debit from e.qty s),
                rw (other, other', moved, fine) refl,
                λ k.
                    rw (other, other', moved, fine)
                      (credit_shift k e.sku e.to e.qty (debit from e.qty s)
                          (IsInts-debit from e.qty s ints k)
                        ∙ ap (λ b. add_int b (at_key k e.sku e.to e.qty))
                            (debit_shift k e.sku e.from e.qty s (ints k))
                        ∙ add_int_assoc (balance k s) (at_key k e.sku e.from (neg_int e.qty))
                            (at_key k e.sku e.to e.qty)),
              )
        ]
      ]
    ]
  ]

  pub apply_refused :
      (s : State) (r : Record P)
      → is_applicable codec r ≡ false
      → (e : DomainError) × (apply codec s r ≡ inl e)
  unfolding apply
  apply_refused s r no_way = elim (Bool-cases (r.typ == type_received)) [
    | inl received ↦ (bad_payload, ground (arith, received))
    | inr other ↦ elim (Bool-cases (r.typ == type_issued)) [
      | inl issued ↦ (bad_payload, ground (arith, other, issued))
      | inr other' ↦ elim (Bool-cases (r.typ == type_moved)) [
        | inl moved ↦ (bad_payload, ground (arith, other, other', moved))
        | inr unknown ↦ (unknown_type, ground (arith, other, other', unknown))
      ]
    ]
  ]
