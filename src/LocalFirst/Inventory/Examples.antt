-- ===== src/LocalFirst/Inventory/Examples.antt =====
-- A shop that owns "a" and holds 5 bolts there. A payload is the event itself.
use local_first_architecture.Base.{ℕ, ◌≡◌, refl, Option, none, some, List, [], ◌∷◌, inl, inr, arith}
use local_first_architecture.Base.Int64.{Int64, plus, add_int, sub_int}
use local_first_architecture.Base.Table.{lookup, insert}
use mathlib.Core.List.{Permᴰ}
use local_first_architecture.LocalFirst.Balances.Effect.{IsInts}
use local_first_architecture.LocalFirst.Clock.{Hlc, new, observe, advance, lift, lift_all}
use local_first_architecture.LocalFirst.Store.{Record, Store, is_held, highest_seq}
use local_first_architecture.LocalFirst.Store.Consistent.{IsConsistent}
use local_first_architecture.LocalFirst.Balances.{
  Change, Moved, Codec, Key, State, balance, apply, credit, debit, type_received, type_issued,
  fold_records,
}
use local_first_architecture.LocalFirst.Balances.Replay.{fold-perm_balances}
use local_first_architecture.LocalFirst.Inventory.{
  Live, Inventory, CommandError, project, new_inventory,
}
use local_first_architecture.LocalFirst.Inventory.Accepted.{IsFaithful, IsKept, IsUnmoved}
use local_first_architecture.LocalFirst.Inventory.Safety.{issues, run, command-IsKept}
use local_first_architecture.LocalFirst.Inventory.Restart.{new_inventory-balances}

data Payload : Type 0 where
  change : Change → Payload
  moved : Moved → Payload

abbrev change_of : Payload → Option Change
change_of (change e) = some e
change_of (moved e) = none

abbrev moved_of : Payload → Option Moved
moved_of (change e) = none
moved_of (moved e) = some e

abbrev plain : Codec Payload
plain = record {
  encode_change = change;
  decode_change = change_of;
  encode_moved = moved;
  decode_moved = moved_of;
}

plain-IsFaithful : IsFaithful plain
plain-IsFaithful = record { change_back = λ e. refl; moved_back = λ e. refl }

abbrev bolts : Key
bolts = record { sku = "bolt"; location = "a" }

abbrev no_wall : Record Payload → Int64
no_wall r = plus 0

abbrev stamp : ℕ → Hlc
stamp t = record { wall = plus t; logical = 0; node_id = "shop" }

abbrev log : List (Record Payload)
log =
    record {
      node_id = "shop";
      seq = 1;
      clock = stamp 8;
      typ = type_received;
      payload = change (record { sku = "bolt"; location = "a"; qty = plus 7 });
    }
    ∷ record {
      node_id = "shop";
      seq = 2;
      clock = stamp 9;
      typ = type_issued;
      payload = change (record { sku = "bolt"; location = "a"; qty = plus 2 });
    }
    ∷ []

abbrev kept : Store Payload
kept = record { node_id = "shop"; records = log; cursors = []; next_seq = 2 }

abbrev first : Live
first = record { balances = []; clk = record { node_id = "shop"; last = stamp 0 } }

abbrev stock : Live
stock = record {
  balances = (bolts, plus 5) ∷ [];
  clk = record { node_id = "shop"; last = record { wall = plus 9; logical = 1; node_id = "shop" } };
}

abbrev shop : Inventory Payload
shop = record { store = kept; owned = "a" ∷ []; live = stock }

-- An order of 3 bolts from 5.
command-IsKept_example :
    let out = run plain shop (plus 10) no_wall (issues "bolt" "a" (plus 3)) in
    IsKept shop.live.balances out.1.live.balances bolts
    × ((e : CommandError) → out.0 ≡ inl e → IsUnmoved shop out.1)
command-IsKept_example =
    command-IsKept plain plain-IsFaithful shop (plus 10) no_wall (issues "bolt" "a" (plus 3)) bolts
      tt

kept-IsConsistent : IsConsistent (some (project plain no_wall)) first kept stock
unfolding is_held highest_seq project apply credit debit observe advance lift lift_all insert lookup
    add_int sub_int
kept-IsConsistent = record { keyed = (refl, (refl, tt)); numbered = refl; projected = refl }

new_inventory-balances_example :
    (i : Inventory Payload) × (new_inventory plain kept (new "shop") ("a" ∷ []) ≡ inr i)
    × ((k : Key) → balance k i.live.balances ≡ balance k stock.balances)
new_inventory-balances_example =
    new_inventory-balances plain no_wall kept first stock (new "shop") ("a" ∷ []) refl
      kept-IsConsistent (ground arith, (ground arith, tt))

empty-IsInts : IsInts []
unfolding lookup
empty-IsInts k = omega arith

folded : fold_records plain [] log ≡ inr stock.balances
unfolding fold_records apply credit debit insert lookup add_int sub_int
folded = refl

abbrev backwards : List (Record Payload)
backwards =
    record {
      node_id = "shop";
      seq = 2;
      clock = stamp 9;
      typ = type_issued;
      payload = change (record { sku = "bolt"; location = "a"; qty = plus 2 });
    }
    ∷ record {
      node_id = "shop";
      seq = 1;
      clock = stamp 8;
      typ = type_received;
      payload = change (record { sku = "bolt"; location = "a"; qty = plus 7 });
    }
    ∷ []

swapped : Permᴰ log backwards
swapped = Permᴰ.swap refl refl

fold-perm_balances_example :
    (u : State) × (fold_records plain [] backwards ≡ inr u)
    × ((k : Key) → balance k stock.balances ≡ balance k u)
fold-perm_balances_example = fold-perm_balances plain swapped [] stock.balances empty-IsInts folded
