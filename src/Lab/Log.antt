-- ===== src/Lab/Log.antt =====
-- eventlog-lab/eventlog/sqlite.go with the statements of log.go: a node's log. The four tables are
-- the state; a statement is a function on them, and a transaction is one step. The database's own
-- failures are left out. A snapshot's blob is a value of `B`. The source keeps a sequence number as
-- uint64 and writes it to the table as int64; the numbers here stand for those below 2 ^ 63, where the
-- two agree and the largest of them is also the largest row. From 2 ^ 63 on, which a node reaches after
-- as many events of its own, the rows of the source would be negative.
pub mod Frontier
pub mod Append
pub mod Compact
pub mod HighMark
pub mod Sorted
mod Examples
use Prim.Native.Nat.{max, min}
use local_first_architecture.Base.{
  ℕ, suc, ◌+◌, String, Bool, true, false, not, ◌&&◌, ◌||◌, Option, none, some, List, [], ◌∷◌, ◌++◌,
  nat_beq, ltb, leb, length, filter, ◌==◌, text_comparable, if◌then◌else◌,
}
use local_first_architecture.Base.Table.{Table, lookup, lookup_or, insert}
use local_first_architecture.Base.Order.{is_lt}
use local_first_architecture.Lab.Clock.{before}
use local_first_architecture.Lab.Event.{EventId, Event, Malformed, validate}
use local_first_architecture.Lab.Vector.{VersionVector, seq_of, observe, contains}

pub record Log (B : Type 0) : Type 0 where
  pub events : List Event  -- events
  pub watermark : VersionVector  -- seq_watermark
  pub snapshots : Table String (B × VersionVector)  -- snapshots
  pub cursors : Table String ℕ  -- sync_cursors

unfoldable pub same_id : EventId → EventId → Bool
same_id a b = a.node == b.node && nat_beq a.seq b.seq

-- Whether a row has the primary key (node_id, seq).
unfoldable pub held : EventId → List Event → Bool
held id [] = false
held id (e ∷ es) = same_id e.id id || held id es

-- INSERT … ON CONFLICT (node_id, seq) DO NOTHING
unfoldable pub insert_event : Event → List Event → List Event
insert_event e es = if held e.id es then es else es ++ (e ∷ [])

-- SELECT MAX(seq) FROM events WHERE node_id = ?, with 0 for no row
unfoldable pub max_seq : String → List Event → ℕ
max_seq node [] = 0
max_seq node (e ∷ es) =
    let rest = max_seq node es in if e.id.node == node then max e.id.seq rest else rest

-- Rows of a node above `w` up to `s`: the ROW_NUMBER of a row with sequence number `s`.
unfoldable pub row_number : ℕ → String → ℕ → List Event → ℕ
row_number w node s [] = 0
row_number w node s (e ∷ es) =
    let rest = row_number w node s es in
    if e.id.node == node && (ltb w e.id.seq && leb e.id.seq s) then suc rest else rest

-- e.seq > w and e.seq - ROW_NUMBER() - w = 0
unfoldable pub in_run : VersionVector → List Event → Event → Bool
in_run marks all e =
    ltb (seq_of e.id.node marks) e.id.seq
    && nat_beq e.id.seq
        (row_number (seq_of e.id.node marks) e.id.node e.id.seq all + seq_of e.id.node marks)

-- The maximum by node over the watermarks and the rows of the contiguous runs.
unfoldable pub raise_all : List Event → VersionVector → VersionVector
raise_all [] vv = vv
raise_all (e ∷ es) vv = observe (raise_all es vv) e.id

-- ORDER BY hlc_wall, hlc_logical, node_id
unfoldable pub place : Event → List Event → List Event
place e [] = e ∷ []
place e (x ∷ xs) = if before x.hlc e.hlc then x ∷ place e xs else e ∷ x ∷ xs

unfoldable pub order_by_hlc : List Event → List Event
order_by_hlc [] = []
order_by_hlc (e ∷ es) = place e (order_by_hlc es)

module _ {B : Type 0} where
  -- Append: the error of an event that is turned away, and the log.
  unfoldable pub append : Log B → Event → Option Malformed × Log B
  append l e = elim (validate e) [
    | some m ↦ (some m, l)
    | none ↦ (none, record l { events = insert_event e l.events })
  ]

  -- The highest number that the node has used, whether its row survives or not; the numbers of the
  -- table are below 2 ^ 63, so that their int64 is their value and the next one does not overflow it.
  unfoldable pub high_mark : String → Log B → ℕ
  high_mark node l = max (max_seq node l.events) (seq_of node l.watermark)

  -- The event that the mint gives for the next number.
  unfoldable pub next_event : Log B → (ℕ → Event) → Event
  next_event l mint = mint (high_mark (mint 0).id.node l + 1)

  unfoldable pub store_local : Log B → Event → Option Event × Log B
  store_local l e = elim (validate e) [
    | some m ↦ (none, l)
    | none ↦ (some e, record l { events = insert_event e l.events })
  ]

  -- AppendLocal: the stored event, or none if it was turned away.
  unfoldable pub append_local : Log B → (ℕ → Event) → Option Event × Log B
  append_local l mint = store_local l (next_event l mint)

  -- The events that `skip` does not cover, in HLC order.
  unfoldable pub since : Log B → VersionVector → List Event
  since l skip = filter (λ e. not (contains skip e.id)) (order_by_hlc l.events)

  unfoldable pub events_for_sku : Log B → String → VersionVector → List Event
  events_for_sku l sku after =
      filter (λ e. not (contains after e.id)) (filter (λ e. e.sku == sku) (order_by_hlc l.events))

  unfoldable pub count_for_sku : Log B → String → ℕ
  count_for_sku l sku = length (filter (λ e. e.sku == sku) l.events)

  unfoldable pub version_vector : Log B → VersionVector
  version_vector l = raise_all (filter (in_run l.watermark l.events) l.events) l.watermark

  unfoldable pub cursor : Log B → String → ℕ
  cursor l peer = lookup_or 0 peer l.cursors

  -- … DO UPDATE SET last_seq = MAX(last_seq, excluded.last_seq)
  unfoldable pub set_cursor : Log B → String → ℕ → Log B
  set_cursor l peer last = record l { cursors = insert peer (max (cursor l peer) last) l.cursors }

  unfoldable pub load_snapshot : Log B → String → Option (B × VersionVector)
  load_snapshot l sku = lookup sku l.snapshots

  unfoldable pub save_snapshot : Log B → String → B → VersionVector → Log B
  save_snapshot l sku state covers = record l { snapshots = insert sku (state, covers) l.snapshots }

-- The entries of a snapshot's vector that `up_to` has too, each lowered to the smaller of the two.
unfoldable pub intersect : VersionVector → VersionVector → VersionVector
intersect [] up_to = []
intersect ((node, seq) ∷ snap) up_to = elim (lookup node up_to) [
  | none ↦ intersect snap up_to
  | some peer_seq ↦ (node, min seq peer_seq) ∷ intersect snap up_to
]

-- SELECT EXISTS(SELECT 1 FROM events WHERE node_id = ? AND seq > ?)
unfoldable pub stranded : String → ℕ → List Event → Bool
stranded node seq [] = false
stranded node seq (e ∷ es) = (e.id.node == node && ltb seq e.id.seq) || stranded node seq es

-- DELETE FROM events WHERE sku = ? AND node_id = ? AND seq <= ?
unfoldable pub doomed : String → String → ℕ → Event → Bool
doomed sku node seq e = e.sku == sku && (e.id.node == node && leb e.id.seq seq)

module _ {B : Type 0} where
  -- One round of the inner loop of Compact.
  unfoldable pub compact_node : Log B → String → String → ℕ → Log B
  compact_node l sku node seq = if stranded node seq l.events then l else record l {
    watermark = insert node (max (seq_of node l.watermark) seq) l.watermark;
    events = filter (λ e. not (doomed sku node seq e)) l.events;
  }

  unfoldable pub compact_nodes : Log B → String → VersionVector → Log B
  compact_nodes l sku [] = l
  compact_nodes l sku ((node, seq) ∷ safe) = compact_nodes (compact_node l sku node seq) sku safe

  -- The loop over the snapshots' coverage, which is read once at the start.
  unfoldable pub compact_skus : Log B → Table String (B × VersionVector) → VersionVector → Log B
  compact_skus l [] up_to = l
  compact_skus l ((sku, (state, snap)) ∷ covered) up_to =
      compact_skus (compact_nodes l sku (intersect snap up_to)) covered up_to

  unfoldable pub compact : Log B → VersionVector → Log B
  compact l up_to = compact_skus l l.snapshots up_to
