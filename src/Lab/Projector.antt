-- ===== src/Lab/Projector.antt =====
-- eventlog-lab/crdt/projector.go: the state of an item, read from a snapshot and the events behind
-- it. encoding/json is the section's `marshal` and `unmarshal`; the log's own errors are left out.
pub mod Reading
pub mod Covering
pub mod Rising
pub mod OneMore
pub mod Snapshot
mod Examples
use local_first_architecture.Base.{
  ℕ, String, Bool, Option, none, some, List, [], ◌∷◌, nat_beq, ltb, filter, ◌==◌, text_comparable,
  if◌then◌else◌,
}
use local_first_architecture.Lab.Event.{Event}
use local_first_architecture.Lab.Vector.{VersionVector, seq_of, observe, contains}
use local_first_architecture.Lab.Item.{ItemState, new_item_state, apply, fold}
use local_first_architecture.Lab.Log.{
  Log, order_by_hlc, events_for_sku, count_for_sku, version_vector, load_snapshot, save_snapshot,
}

-- The rows of one SKU in HLC order, before any are skipped: the query of EventsForSKU.
unfoldable pub sku_rows : {B : Type 0} → Log B → String → List Event
sku_rows l sku = filter (λ e. e.sku == sku) (order_by_hlc l.events)

-- The loop of MaybeSnapshot over the stream of EventsForSKU. `covers` is both the map that the stream
-- skips by and the one that the loop raises, so that a row is tested against what the rows before it
-- have raised. Events past the frontier are left for a later snapshot.
unfoldable pub fold_frontier :
    VersionVector → ItemState → VersionVector → List Event → ItemState × VersionVector
fold_frontier frontier state covers [] = (state, covers)
fold_frontier frontier state covers (e ∷ es) =
    let skipped = fold_frontier frontier state covers es in
    let taken = fold_frontier frontier (apply state e) (observe covers e.id) es in
    if contains covers e.id
    then skipped
    else if ltb (seq_of e.id.node frontier) e.id.seq
    then skipped
    else taken

module _ {B : Type 0} (marshal : ItemState → B) (unmarshal : B → Option ItemState) where
  -- The snapshot's state and coverage, or the identity; `none` is a blob that does not parse.
  unfoldable pub restore : Option (B × VersionVector) → Option (ItemState × VersionVector)
  restore none = some (new_item_state, [])
  restore (some (blob, covers)) = elim (unmarshal blob) [
    | none ↦ none
    | some state ↦ some (state, covers)
  ]

  abbrev pub start_of : Log B → String → Option (ItemState × VersionVector)
  start_of l sku = restore (load_snapshot l sku)

  -- p.Project(sku)
  unfoldable pub project : Log B → String → Option ItemState
  project l sku = elim (start_of l sku) [
    | none ↦ none
    | some (state, covers) ↦ some (fold state (events_for_sku l sku covers))
  ]

  -- p.MaybeSnapshot(sku), with `every` = 0 for snapshots turned off
  unfoldable pub maybe_snapshot : ℕ → Log B → String → Option (Log B)
  maybe_snapshot every l sku =
      if nat_beq every 0
      then some l
      else if ltb (count_for_sku l sku) every
      then some l
      else elim (start_of l sku) [
        | none ↦ none
        | some (state, covers) ↦
            let taken = fold_frontier (version_vector l) state covers (sku_rows l sku) in
            some (save_snapshot l sku (marshal taken.0) taken.1)
      ]
