-- ===== src/Lab/Node/Examples.antt =====
-- A node restarts over the samples' log, with a wall clock that has jumped backwards, and receives.
use local_first_architecture.Base.{
  ◌+◌, ◌≤◌, ◌≡◌, refl, inr, true, none, some, List, [], ◌∷◌, All, arith, ◌⊎◌,
}
use local_first_architecture.Base.Int64.{Int64, plus}
use local_first_architecture.Base.Table.{lookup}
use local_first_architecture.Lab.Clock.{before, compare, now}
use local_first_architecture.Lab.Event.{Event, validate}
use local_first_architecture.Lab.Vector.{VersionVector, seq_of}
use local_first_architecture.Lab.Item.{ItemState, new_item_state, apply, fold}
use local_first_architecture.Lab.Item.Convergence.{SameState}
use local_first_architecture.Lab.Samples.{picked, at_a, at_a-IsStamped, at_a-Rising}
use local_first_architecture.Lab.Log.{
  Log, events_for_sku, count_for_sku, load_snapshot, append_local, store_local, next_event,
  high_mark, max_seq, insert_event, held, same_id,
}
use local_first_architecture.Lab.Projector.{restore, start_of, project, maybe_snapshot}
use local_first_architecture.Lab.Node.{
  Node, Merged, merge_events, start, emit, settle, get, blank, fill_delta,
}
use local_first_architecture.Lab.Node.Restart.{start-now_after}
use local_first_architecture.Lab.Node.Emit.{emit-get}
use local_first_architecture.Lab.Node.Merge.{
  well_formed, sound_events, IsAmong, merge_events-stored, merge_events-later,
}

abbrev fresh : Log ItemState
fresh = record { events = at_a; watermark = []; snapshots = []; cursors = [] }

abbrev shelf : Node ItemState
shelf = record {
  id = "a";
  log = fresh;
  clk = record { id = "a"; last = record { wall = plus 12; logical = 3; node = "c" } };
  snapshot_every = 2;
}

abbrev restarted : Node ItemState
restarted = elim (start "a" fresh 2 (plus 1)) [ none ↦ shelf | some n ↦ n ]

starts : start "a" fresh 2 (plus 1) ≡ some restarted
unfolding start
starts = refl

start-now_after_example : All (λ e. before e.hlc (now restarted.clk (plus 2)).last ≡ true) at_a
start-now_after_example =
    start-now_after "a" fresh 2 (plus 1) (plus 2) (plus 20) restarted (omega arith) (omega arith)
      (omega arith) (omega arith) (omega arith) starts

-- On the shelf, the stamp is past the last one although the wall reads less.
shelf-later : All (λ e. before e.hlc (now shelf.clk (plus 2)).last ≡ true) at_a
unfolding before compare now
shelf-later = (refl, (refl, (refl, tt)))

abbrev five : Event → Event
five = fill_delta (plus 5)

abbrev filled : Node ItemState
filled = (emit (λ s. s) some shelf (plus 2) "S" five).1

done : emit (λ s. s) some shelf (plus 2) "S" five ≡ (inr (record { node = "a"; seq = 2 }), filled)
unfolding emit settle append_local store_local next_event high_mark max_seq validate lookup
    maybe_snapshot count_for_sku restore load_snapshot now insert_event held same_id
done = refl

reads : get (λ s. s) some shelf "S" ≡ some (fold new_item_state (events_for_sku fresh "S" []))
unfolding get project restore load_snapshot lookup
reads = refl

nothing_covered :
    (from : ItemState × VersionVector)
    → start_of {B = ItemState} (λ s. s) some fresh "S" ≡ some from
    → seq_of "a" from.1 ≤ high_mark "a" fresh
unfolding restore load_snapshot lookup high_mark max_seq
nothing_covered from h = let empty : from ≡ (new_item_state, []) = cc h in rw empty (omega arith)

emit-get_example :
    (t : ItemState) × (get (λ s. s) some filled "S" ≡ some t)
    × SameState
        (apply
          (fold new_item_state (events_for_sku fresh "S" []))
          (five (blank "a" (now shelf.clk (plus 2)).last "S" 2)))
        t
emit-get_example =
    emit-get (λ s. s) some shelf filled (plus 2) "S" five (record { node = "a"; seq = 2 })
      (fold new_item_state (events_for_sku fresh "S" [])) (λ t. refl) (λ e. (refl, refl, refl))
      at_a-IsStamped at_a-Rising shelf-later nothing_covered done reads

-- A batch with an event that carries no payload.
abbrev batch : List (Event × Int64)
batch =
    (picked, plus 1)
    ∷ (blank "d" (record { wall = plus 90; logical = 0; node = "d" }) "S" 1, plus 2)
    ∷ []

abbrev begun : Merged ItemState
begun = record { node = shelf; accepted = 0; touched = [] }

merge_events-stored_example :
    ((merge_events begun batch).accepted ≡ 0 + well_formed batch)
    × All
        (λ (p : Event × Int64).
          validate p.0 ≡ none → held p.0.id (merge_events begun batch).node.log.events ≡ true)
        batch
    × All
        (λ x. IsAmong x begun.node.log.events ⊎ IsAmong x (sound_events batch))
        (merge_events begun batch).node.log.events
merge_events-stored_example = merge_events-stored begun batch

-- The event without a kind is not counted.
one_accepted : well_formed batch ≡ 1
unfolding validate
one_accepted = refl

merge_events-later_example :
    All
      (λ (p : Event × Int64).
        validate p.0 ≡ none → before p.0.hlc (merge_events begun batch).node.clk.last ≡ true)
      batch
merge_events-later_example =
    merge_events-later begun batch (plus 100) (plus 100) (omega arith) (omega arith) (omega arith)
      (omega arith) (omega arith)
