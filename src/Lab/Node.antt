-- ===== src/Lab/Node.antt =====
-- eventlog-lab/node/node.go: a replica, its log with a clock and a projector. The wall-clock readings
-- that an operation takes are its arguments. The reporting table of the Postgres log, which Merge
-- refreshes there, and a nil log are left out.
pub mod Restart
pub mod Emit
pub mod Merge
mod Examples
use local_first_architecture.Base.{
  ℕ, ◌+◌, String, Bool, true, false, not, Option, none, some, List, [], ◌∷◌, leb, ◌==◌,
  text_comparable, if◌then◌else◌, ◌⊎◌, inl, inr,
}
use local_first_architecture.Base.Int64.{Int64, int_zero, neg_int}
use local_first_architecture.Lab.Clock.{Hlc, Clock, no_hlc, before, new, now, observe}
use local_first_architecture.Lab.Event.{
  EventId, MetaSet, Event, kind_quantity_delta, kind_meta_set, kind_delete_set, is_empty,
}
use local_first_architecture.Lab.Vector.{VersionVector}
use local_first_architecture.Lab.Item.{ItemState, hlc_equal}
use local_first_architecture.Lab.Log.{Log, append, append_local, since, version_vector}
use local_first_architecture.Lab.Projector.{project, maybe_snapshot}

pub record Node (B : Type 0) : Type 0 where
  pub id : String
  pub log : Log B
  pub clk : Clock
  pub snapshot_every : ℕ

pub data NodeError : Type 0 where
  bad_quantity meta_nothing empty_sku not_stored no_snapshot : NodeError

-- The loop of recoverClock.
unfoldable pub highest : Hlc → List Event → Hlc
highest h [] = h
highest h (e ∷ es) = highest (if before h e.hlc then e.hlc else h) es

unfoldable pub recover_clock : Clock → List Event → Int64 → Clock
recover_clock c es reading =
    if not (hlc_equal (highest no_hlc es) no_hlc) then observe c reading (highest no_hlc es) else c

-- New, with `none` for an empty id
unfoldable pub start : {B : Type 0} → String → Log B → ℕ → Int64 → Option (Node B)
start id log every reading =
    if id == ""
    then none
    else some (record {
      id = id;
      log = log;
      clk = recover_clock (new id) (since log []) reading;
      snapshot_every = every;
    })

-- The event that `emit` mints, before `fill`.
abbrev pub blank : String → Hlc → String → ℕ → Event
blank id stamp sku seq = record {
  id = record { node = id; seq = seq };
  hlc = stamp;
  sku = sku;
  kind = int_zero;
  delta = int_zero;
  meta = none;
  deleted_to = none;
}

-- The `fill` of Receive and Pick.
abbrev pub fill_delta : Int64 → Event → Event
fill_delta d e = record e { kind = kind_quantity_delta; delta = d }

module _ {B : Type 0} (marshal : ItemState → B) (unmarshal : B → Option ItemState) where
  -- The end of `emit`: the snapshot after the append.
  unfoldable pub settle : Node B → String → Event → (NodeError ⊎ EventId) × Node B
  settle n sku e = elim (maybe_snapshot marshal unmarshal n.snapshot_every n.log sku) [
    | none ↦ (inl no_snapshot, n)
    | some log ↦ (inr e.id, record n { log = log })
  ]

  -- n.emit(sku, fill)
  unfoldable pub emit : Node B → Int64 → String → (Event → Event) → (NodeError ⊎ EventId) × Node B
  emit n reading sku fill =
      let clk = now n.clk reading in
      let stored = append_local n.log (λ s. fill (blank n.id clk.last sku s)) in
      if sku == "" then (inl empty_sku, n) else elim stored.0 [
        | none ↦ (inl not_stored, record n { clk = clk; log = stored.1 })
        | some e ↦ settle (record n { clk = clk; log = stored.1 }) sku e
      ]

  unfoldable pub receive : Node B → Int64 → String → Int64 → (NodeError ⊎ EventId) × Node B
  receive n reading sku qty =
      if leb qty int_zero then (inl bad_quantity, n) else emit n reading sku (fill_delta qty)

  unfoldable pub pick : Node B → Int64 → String → Int64 → (NodeError ⊎ EventId) × Node B
  pick n reading sku qty =
      if leb qty int_zero
      then (inl bad_quantity, n)
      else emit n reading sku (fill_delta (neg_int qty))

  unfoldable pub set_meta :
      Node B → Int64 → String → Option String → Option Int64 → (NodeError ⊎ EventId) × Node B
  set_meta n reading sku name reorder_point =
      let meta : Option MetaSet = some (record { name = name; reorder_point = reorder_point }) in
      if is_empty meta
      then (inl meta_nothing, n)
      else emit n reading sku (λ e. record e { kind = kind_meta_set; meta = meta })

  unfoldable pub delete_item : Node B → Int64 → String → Bool → (NodeError ⊎ EventId) × Node B
  delete_item n reading sku deleted =
      emit n reading sku (λ e. record e { kind = kind_delete_set; deleted_to = some deleted })

  -- n.Get(sku)
  unfoldable pub get : Node B → String → Option ItemState
  get n sku = if sku == "" then none else project marshal unmarshal n.log sku

-- A set of SKUs, in the order in which they came in.
unfoldable pub touch : String → List String → List String
touch sku [] = sku ∷ []
touch sku (s ∷ rest) = if s == sku then s ∷ rest else s ∷ touch sku rest

-- What the first loop of Merge has done.
pub record Merged (B : Type 0) : Type 0 where
  pub node : Node B
  pub accepted : ℕ
  pub touched : List String

module _ {B : Type 0} where
  -- A malformed event is skipped; each event comes with the wall reading of its Observe.
  unfoldable pub merge_event : Merged B → Event → Int64 → Merged B
  merge_event m e reading =
      let stored = append m.node.log e in
      elim stored.0 [
        | some bad ↦ m
        | none ↦ record {
          node = record (m.node) { log = stored.1; clk = observe m.node.clk reading e.hlc };
          accepted = m.accepted + 1;
          touched = touch e.sku m.touched;
        }
      ]

  unfoldable pub merge_events : Merged B → List (Event × Int64) → Merged B
  merge_events m [] = m
  merge_events m ((e, reading) ∷ es) = merge_events (merge_event m e reading) es

module _ {B : Type 0} (marshal : ItemState → B) (unmarshal : B → Option ItemState) where
  -- The second loop; it stops at the first snapshot that fails.
  unfoldable pub settle_all : Node B → List String → Option NodeError × Node B
  settle_all n [] = (none, n)
  settle_all n (sku ∷ skus) = elim (maybe_snapshot marshal unmarshal n.snapshot_every n.log sku) [
    | none ↦ (some no_snapshot, n)
    | some log ↦ settle_all (record n { log = log }) skus
  ]

  -- n.Merge(events). `ranged` is the order that the range over the touched SKUs takes them in.
  unfoldable pub merge :
      (List String → List String) → Node B → List (Event × Int64) → (ℕ × Option NodeError) × Node B
  merge ranged n events =
      let merged = merge_events (record { node = n; accepted = 0; touched = [] }) events in
      let settled = settle_all merged.node (ranged merged.touched) in
      ((merged.accepted, settled.0), settled.1)
