-- ===== src/LocalFirst/Inventory.antt =====
-- localfirst-go/domain/inventory.go: a node's aggregate over its store. What an operation on the clock
-- reads is an argument; `wall` gives the reading that Project takes for a record. The mutexes are left
-- out, so a command is one step.
pub mod Accepted
pub mod Safety
pub mod Restart
mod Examples
use local_first_architecture.Base.{
  ℕ, String, Bool, true, false, not, ◌&&◌, ◌||◌, Option, none, some, List, [], ◌∷◌, ◌⊎◌, inl, inr,
  leb, ◌==◌, text_comparable, if◌then◌else◌,
}
use local_first_architecture.Base.Int64.{Int64, int_zero, is_negative}
use local_first_architecture.LocalFirst.Clock.{Hlc, Clock, now, observe}
use local_first_architecture.LocalFirst.Store.{Record, Store, AppendError, append, merge}
use local_first_architecture.LocalFirst.Store.Query.{since}
use local_first_architecture.LocalFirst.Balances.{
  Change, Moved, Codec, Key, State, DomainError, type_received, type_issued, type_moved, balance,
  apply, fold_records,
}

-- What a record moves on: the balances, and the clock that observes its stamp.
pub record Live : Type 0 where
  pub balances : State
  pub clk : Clock

pub record Inventory (P : Type 0) : Type 0 where
  pub store : Store P
  pub owned : List String
  pub live : Live

pub data CheckError : Type 0 where
  unusable : DomainError → CheckError
  negative_balance : CheckError

pub data CommandError : Type 0 where
  bad_qty not_owned : CommandError
  not_appended : AppendError CheckError → CommandError

abbrev pub contains : String → List String → Bool
contains x [] = false
contains x (y ∷ ys) = y == x || contains x ys

abbrev pub any_negative : List Key → State → Bool
any_negative [] s = false
any_negative (k ∷ ks) s = is_negative (balance k s) || any_negative ks s

-- len(i.owned) > 0
abbrev pub owns_some : List String → Bool
owns_some [] = false
owns_some (x ∷ xs) = true

module _ {P : Type 0} where
  -- i.guard(qty, location), with `none` for a nil error
  unfoldable pub guard : Inventory P → Int64 → String → Option CommandError
  guard i qty location =
      if leb qty int_zero
      then some bad_qty
      else if owns_some i.owned && not (contains location i.owned)
      then some not_owned
      else none

  abbrev pub guarded :
      Option CommandError
      → Inventory P
      → (CommandError ⊎ Record P) × Inventory P
      → (CommandError ⊎ Record P) × Inventory P
  guarded none i out = out
  guarded (some e) i out = (inl e, i)

module _ {P : Type 0} (codec : Codec P) where
  -- An event that does not decode is the zero value here; Apply has refused it before.
  unfoldable pub touched_keys : Record P → List Key
  touched_keys r =
      if r.typ == type_issued
      then elim (codec.decode_change r.payload) [
        | none ↦ record { sku = ""; location = "" } ∷ []
        | some e ↦ record { sku = e.sku; location = e.location } ∷ []
      ]
      else if r.typ == type_moved
      then elim (codec.decode_moved r.payload) [
        | none ↦ record { sku = ""; location = "" } ∷ []
        | some e ↦ record { sku = e.sku; location = e.from } ∷ []
      ]
      else []

  -- i.Check(r)
  unfoldable pub check : Live → Record P → Option CheckError
  check live r = elim (apply codec live.balances r) [
    | inl e ↦ some (unusable e)
    | inr next ↦ if any_negative (touched_keys r) next then some negative_balance else none
  ]

  -- i.Project(r): what its commit closure installs, with the clock that has observed the record
  unfoldable pub project : (Record P → Int64) → Live → Record P → Option Live
  project wall live r = elim (apply codec live.balances r) [
    | inl e ↦ none
    | inr next ↦ some (record { balances = next; clk = observe live.clk (wall r) r.clock })
  ]

  unfoldable pub append_event :
      Inventory P
      → Int64
      → (Record P → Int64)
      → String
      → P
      → (CommandError ⊎ Record P) × Inventory P
  append_event i reading wall typ payload =
      let clk = now i.live.clk reading in
      let (answer, store, live) =
        append i.store (record (i.live) { clk = clk }) typ payload clk.last (some check)
          (some (project wall)) in
      (
        elim answer [ inl e ↦ inl (not_appended e) | inr r ↦ inr r ],
        record i { store = store; live = live },
      )

  unfoldable pub receive :
      Inventory P
      → Int64
      → (Record P → Int64)
      → String
      → String
      → Int64
      → (CommandError ⊎ Record P) × Inventory P
  receive i reading wall sku location qty = guarded (guard i qty location) i (
      append_event i reading wall type_received
        (codec.encode_change (record { sku = sku; location = location; qty = qty })))

  unfoldable pub issue :
      Inventory P
      → Int64
      → (Record P → Int64)
      → String
      → String
      → Int64
      → (CommandError ⊎ Record P) × Inventory P
  issue i reading wall sku location qty = guarded (guard i qty location) i (
      append_event i reading wall type_issued
        (codec.encode_change (record { sku = sku; location = location; qty = qty })))

  unfoldable pub move :
      Inventory P
      → Int64
      → (Record P → Int64)
      → String
      → String
      → String
      → Int64
      → (CommandError ⊎ Record P) × Inventory P
  move i reading wall sku from to qty = guarded (guard i qty from) i (
      append_event i reading wall type_moved
        (codec.encode_moved (record { sku = sku; from = from; to = to; qty = qty })))

  -- Balance(sku, location)
  unfoldable pub balance_of : Inventory P → String → String → Int64
  balance_of i sku location = balance (record { sku = sku; location = location }) i.live.balances

  -- NewInventory: the state is the replay of the log, in the order of replay.
  unfoldable pub new_inventory : Store P → Clock → List String → DomainError ⊎ Inventory P
  new_inventory store clk owned = elim (fold_records codec [] (since store [])) [
    | inl e ↦ inl e
    | inr s ↦
        inr (record { store = store; owned = owned; live = record { balances = s; clk = clk } })
  ]
