-- ===== src/Lab/Projector/Examples.antt =====
-- A snapshot and a compaction of the samples' item. A state is its own blob here.
use local_first_architecture.Base.{◌≡◌, refl, none, some, [], ◌∷◌, text_comparable}
use local_first_architecture.Base.Int64.{plus}
use local_first_architecture.Base.Table.{lookup, insert}
use local_first_architecture.Lab.Event.{Event}
use local_first_architecture.Lab.Vector.{VersionVector, observe, contains}
use local_first_architecture.Lab.Item.{ItemState, apply, new_item_state, fold}
use local_first_architecture.Lab.Item.Convergence.{SameState}
use local_first_architecture.Lab.Samples.{
  received, restocked, picked, at_a, twice_at_a, twice_at_a-IsStamped, twice_at_a-Rising,
}
use local_first_architecture.Lab.Log.{
  Log, events_for_sku, count_for_sku, load_snapshot, compact, save_snapshot, order_by_hlc, place,
  version_vector, in_run, row_number, raise_all,
}
use local_first_architecture.Lab.Clock.{before, compare}
use local_first_architecture.Lab.Log.Compact.{IsSnapshots}
use local_first_architecture.Lab.Projector.{
  sku_rows, fold_frontier, restore, project, maybe_snapshot,
}
use local_first_architecture.Lab.Projector.Reading.{project-compact}
use local_first_architecture.Lab.Projector.Snapshot.{maybe_snapshot-project}

abbrev fresh : Log ItemState
fresh = record { events = at_a; watermark = []; snapshots = []; cursors = [] }

abbrev folded : Log ItemState
folded = record fresh {
  snapshots = ("S", (fold new_item_state (received ∷ picked ∷ []), ("a", 1) ∷ ("b", 1) ∷ [])) ∷ [];
}

folded-IsSnapshots : IsSnapshots folded.snapshots
unfolding lookup
folded-IsSnapshots = ((refl, tt), ((refl, (refl, tt)), tt))

abbrev up_to : VersionVector
up_to = ("a", 1) ∷ []

project-compact_example :
    project {B = ItemState} (λ s. s) some (compact folded up_to) "S"
    ≡ project (λ s. s) some folded "S"
project-compact_example = project-compact (λ s. s) some folded up_to "S" folded-IsSnapshots

-- A log in which the stream meets two rows of one node.
abbrev busy : Log ItemState
busy = record { events = twice_at_a; watermark = []; snapshots = []; cursors = [] }

abbrev after : Log ItemState
after = elim (maybe_snapshot (λ s. s) some 2 busy "S") [ none ↦ busy | some l ↦ l ]

written : maybe_snapshot (λ s. s) some 2 busy "S" ≡ some after
unfolding maybe_snapshot restore load_snapshot count_for_sku lookup
written = refl

was : project (λ s. s) some busy "S" ≡ some (fold new_item_state (events_for_sku busy "S" []))
unfolding project restore load_snapshot lookup
was = refl

maybe_snapshot-project_example :
    (t : ItemState) × (project (λ s. s) some after "S" ≡ some t)
    × SameState (fold new_item_state (events_for_sku busy "S" [])) t
maybe_snapshot-project_example =
    maybe_snapshot-project (λ s. s) some 2 busy after "S" "S"
      (fold new_item_state (events_for_sku busy "S" [])) (λ t. refl) twice_at_a-IsStamped
      twice_at_a-Rising written was

-- A node whose second event has the earlier timestamp: both are applied before the snapshot, and the
-- second alone after it.
abbrev late_first : Event
late_first = record received { hlc = record { wall = plus 20; logical = 0; node = "a" } }

abbrev early_second : Event
early_second = record restocked { hlc = record { wall = plus 10; logical = 0; node = "a" } }

abbrev backwards : Log ItemState
backwards = record busy { events = late_first ∷ early_second ∷ [] }

both_read :
    project (λ s. s) some backwards "S"
    ≡ some (apply (apply new_item_state early_second) late_first)
unfolding project restore load_snapshot events_for_sku order_by_hlc place before compare contains
    fold lookup
both_read = refl

abbrev snapshot_of : Log ItemState → Log ItemState
snapshot_of l = elim (maybe_snapshot (λ s. s) some 2 l "S") [ none ↦ l | some l' ↦ l' ]

one_lost :
    project (λ s. s) some (snapshot_of backwards) "S" ≡ some (apply new_item_state early_second)
unfolding project maybe_snapshot restore load_snapshot save_snapshot count_for_sku events_for_sku
    sku_rows order_by_hlc place before compare fold_frontier version_vector in_run row_number
    raise_all observe contains fold lookup insert
one_lost = refl
