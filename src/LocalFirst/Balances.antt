-- ===== src/LocalFirst/Balances.antt =====
-- localfirst-go/domain/events.go and reducer.go with projection/fold.go: the balances that a log's
-- records fold to. The encoding of an event as bytes (encoding/json) is a parameter.
pub mod Effect
pub mod Replay
use local_first_architecture.Base.{
  ℕ, String, ◌≡◌, Bool, ◌&&◌, Option, none, some, List, [], ◌∷◌, ◌⊎◌, inl, inr, Comparable, ◌==◌,
  ◌↔◌, text_comparable, if◌then◌else◌, arith,
}
use local_first_architecture.Base.Table.{Table, lookup_or, insert}
use local_first_architecture.Base.Int64.{Int64, int_zero, add_int, sub_int}
use local_first_architecture.LocalFirst.Store.{Record}

-- Received and Issued, which have the same fields.
pub record Change : Type 0 where
  pub sku : String
  pub location : String
  pub qty : Int64

pub record Moved : Type 0 where
  pub sku : String
  pub from : String
  pub to : String
  pub qty : Int64

abbrev pub type_received : String
type_received = "inventory.Received"

abbrev pub type_issued : String
type_issued = "inventory.Issued"

abbrev pub type_moved : String
type_moved = "inventory.Moved"

-- encode and decode of the event structs; `none` is an error of json.Unmarshal.
pub record Codec (P : Type 0) : Type 0 where
  pub encode_change : Change → P
  pub decode_change : P → Option Change
  pub encode_moved : Moved → P
  pub decode_moved : P → Option Moved

pub record Key : Type 0 where
  pub sku : String
  pub location : String

abbrev pub same_stock : Key → Key → Bool
same_stock j k = j.sku == k.sku && j.location == k.location

pub same_stock_iff : (j k : Key) → (same_stock j k ≡ Bool.true) ↔ (j ≡ k)
same_stock_iff j k = (
  λ h.
      ground (
        arith,
        text_comparable.same_iff j.sku k.sku,
        text_comparable.same_iff j.location k.location,
      ),
  λ h.
      ground (
        arith,
        text_comparable.same_iff j.sku k.sku,
        text_comparable.same_iff j.location k.location,
      ),
)

instance abbrev pub key_comparable : Comparable Key
key_comparable = record { same = same_stock; same_iff = same_stock_iff }

abbrev pub State : Type 0
State = Table Key Int64

abbrev pub balance : Key → State → Int64
balance k s = lookup_or int_zero k s

-- s[k] += q
unfoldable pub credit : Key → Int64 → State → State
credit k q s = insert k (add_int (balance k s) q) s

-- s[k] -= q
unfoldable pub debit : Key → Int64 → State → State
debit k q s = insert k (sub_int (balance k s) q) s

pub data DomainError : Type 0 where
  bad_payload unknown_type : DomainError

-- The state after an event that was decoded, or the error of one that was not.
abbrev pub decoded : {E : Type 0} → Option E → (E → State) → DomainError ⊎ State
decoded none f = inl bad_payload
decoded (some e) f = inr (f e)

module _ {P : Type 0} (codec : Codec P) where
  -- BalanceReducer{}.Apply(s, r)
  unfoldable pub apply : State → Record P → DomainError ⊎ State
  apply s r =
      if r.typ == type_received
      then decoded (codec.decode_change r.payload)
          (λ e. credit (record { sku = e.sku; location = e.location }) e.qty s)
      else if r.typ == type_issued
      then decoded (codec.decode_change r.payload)
          (λ e. debit (record { sku = e.sku; location = e.location }) e.qty s)
      else if r.typ == type_moved
      then decoded (codec.decode_moved r.payload) (λ e.
        credit (record { sku = e.sku; location = e.to }) e.qty
          (debit (record { sku = e.sku; location = e.from }) e.qty s))
      else inl unknown_type

  -- The loop of FoldRecords, which starts from the empty state.
  unfoldable pub fold_records : State → List (Record P) → DomainError ⊎ State
  fold_records s [] = inr s
  fold_records s (r ∷ rs) = elim (apply s r) [ inl e ↦ inl e | inr next ↦ fold_records next rs ]
