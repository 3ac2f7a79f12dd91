-- ===== src/Warehouse/State/Early.antt =====
-- Transfers whose receipt comes before their dispatch.
use local_first_architecture.Base.{
  String, ◌≡◌, refl, ap, ◌∙◌, sym, Bool, true, false, ◌||◌, none, some, List, [], ◌∷◌, ◌==◌,
  text_comparable, arith, same_refl, if◌then◌else◌,
}
use local_first_architecture.Base.Table.{Table, lookup, lookup_or, insert, delete, lookup-insert}
use local_first_architecture.Warehouse.World.{World}
use local_first_architecture.Warehouse.Event.{
  StockKey, key_comparable, Movement, transfer_dispatched, transfer_received,
}
use local_first_architecture.Warehouse.State.{State, TransferState, in_flight, move, move_stock}
use local_first_architecture.Warehouse.State.Apply.{
  move_all, tally, lines_of, buffer, completed, transfer_for, apply_dispatch, apply_receipt,
  apply_payload,
}

delete-insert_absent :
    {A : Type 0} (k : String) (v : A) (m : Table String A)
    → lookup k m ≡ none
    → delete k (insert k v m) ≡ m
unfolding lookup insert delete
delete-insert_absent k v [] h = ground (arith, same_refl k)
delete-insert_absent k v ((j, x) ∷ m) h = ground (arith, delete-insert_absent k v m, same_refl k)

insert_twice :
    {A : Type 0} (k : String) (u v : A) (m : Table String A)
    → insert k v (insert k u m) ≡ insert k v m
unfolding insert
insert_twice k u v [] = ground (arith, same_refl k)
insert_twice k u v ((j, x) ∷ m) = ground (arith, insert_twice k u v m, same_refl k)

module _ (w : World) where
  -- The stock after the lines.
  abbrev stock_after : Bool → List (Movement w) → Table StockKey w.Qty → Table StockKey w.Qty
  stock_after mine [] stock = stock
  stock_after mine (l ∷ ls) stock =
      stock_after mine ls (if mine then move_stock w l stock else stock)

  move_all-stock :
      (mine : Bool) (ls : List (Movement w)) (s : State w)
      → move_all w mine ls s ≡ record s { stock = stock_after mine ls s.stock }
  unfolding move_all
  move_all-stock mine [] s = refl
  move_all-stock true (l ∷ ls) s = move_all-stock true ls (move w l s)
  move_all-stock false (l ∷ ls) s = move_all-stock false ls s

  lines_of-buffer : (at : w.Time) (ls : List (Movement w)) → lines_of w (buffer w at ls) ≡ ls
  lines_of-buffer at [] = refl
  lines_of-buffer at (l ∷ ls) = ap (λ xs. l ∷ xs) (lines_of-buffer at ls)

  -- A receipt that waits for its dispatch, once the dispatch is there.
  abbrev arrived :
      String → String → String → List (Movement w) → List (Movement w) → State w → State w
  arrived id from_node to_node ds ls s = record s {
    stock =
        stock_after (s.apply_all_movements || s.home == to_node) ls
          (stock_after (s.apply_all_movements || s.home == from_node) ds s.stock);
    transfers =
        insert id
          (completed w (record {
            id = id;
            from_node = from_node;
            to_node = to_node;
            dispatched = tally w ds [];
            received = tally w ls [];
            status = in_flight;
          }))
          s.transfers;
  }

  receipt_first :
      (at : w.Time) (id from_node to_node : String) (ds ls : List (Movement w)) (l : Movement w)
      (s : State w)
      → lookup id s.transfers ≡ none
      → lookup id s.pending_receipts ≡ none
      → apply_dispatch w id from_node to_node ds (apply_receipt w at id (l ∷ ls) s)
        ≡ arrived id from_node to_node ds (l ∷ ls) s
  unfolding apply_dispatch apply_receipt
  receipt_first at id from_node to_node ds ls l s fresh idle =
      let waits : State w = record s {
        pending_receipts = insert id (buffer w at (l ∷ ls)) s.pending_receipts;
      } in
      let first : apply_receipt w at id (l ∷ ls) s ≡ waits =
        rw (apply_receipt, fresh, lookup_or, idle) refl in
      let found : lookup id waits.pending_receipts ≡ some (buffer w at (l ∷ ls)) =
        ground
          (arith, lookup-insert id id (buffer w at (l ∷ ls)) s.pending_receipts, same_refl id) in
      ap (apply_dispatch w id from_node to_node ds) first
      ∙ (rw
          (
            apply_dispatch,
            transfer_for,
            lookup_or,
            found,
            fresh,
            move_all-stock (s.apply_all_movements || s.home == from_node) ds waits,
            lines_of-buffer at ls,
            move_all-stock (s.apply_all_movements || s.home == to_node) (l ∷ ls) (record waits {
              stock = stock_after (s.apply_all_movements || s.home == from_node) ds s.stock;
            }),
            delete-insert_absent id (buffer w at (l ∷ ls)) s.pending_receipts idle,
          )
          refl)

  dispatch_first :
      (at : w.Time) (id from_node to_node : String) (ds ls : List (Movement w)) (s : State w)
      → lookup id s.transfers ≡ none
      → lookup id s.pending_receipts ≡ none
      → apply_receipt w at id ls (apply_dispatch w id from_node to_node ds s)
        ≡ arrived id from_node to_node ds ls s
  unfolding apply_dispatch apply_receipt
  dispatch_first at id from_node to_node ds ls s fresh idle =
      let mine = s.apply_all_movements || s.home == from_node in
      let sent : TransferState w = record {
        id = id;
        from_node = from_node;
        to_node = to_node;
        dispatched = tally w ds [];
        received = [];
        status = in_flight;
      } in
      let under_way : State w = record s {
        stock = stock_after mine ds s.stock;
        transfers = insert id sent s.transfers;
      } in
      let first : apply_dispatch w id from_node to_node ds s ≡ under_way =
        rw (apply_dispatch, idle, transfer_for, lookup_or, fresh, move_all-stock mine ds s) refl in
      let found : lookup id under_way.transfers ≡ some sent =
        ground (arith, lookup-insert id id sent s.transfers, same_refl id) in
      ap (apply_receipt w at id ls) first
      ∙ (rw
          (
            apply_receipt,
            found,
            move_all-stock (s.apply_all_movements || s.home == to_node) ls under_way,
            insert_twice id sent (completed w (record sent { received = tally w ls [] }))
                s.transfers,
          )
          refl)

  -- A receipt of a transfer that comes before its dispatch is not lost and not booked twice: it leaves
  -- the state that it leaves after it, in every balance, in the transfer with its counts and its status,
  -- and with nothing left to wait. Of quantities nothing is assumed. The conditions are that the
  -- receipt has a line, and that neither the transfer nor a receipt of it is there yet.
  pub receipt-dispatch :
      (at at' : w.Time) (id from_node to_node : String) (ds ls : List (Movement w)) (l : Movement w)
      (s : State w)
      → lookup id s.transfers ≡ none
      → lookup id s.pending_receipts ≡ none
      → let sent = transfer_dispatched id from_node to_node ds in
        let received = transfer_received id (l ∷ ls) in
        apply_payload w at' sent (apply_payload w at received s)
        ≡ apply_payload w at' received (apply_payload w at sent s)
  unfolding apply_payload
  receipt-dispatch at at' id from_node to_node ds ls l s fresh idle =
      receipt_first at id from_node to_node ds ls l s fresh idle
      ∙ sym (dispatch_first at' id from_node to_node ds (l ∷ ls) s fresh idle)
