-- ===== src/Lab/Sync.antt =====
-- eventlog-lab/sync/codec.go, with the batches of server.go and the delays of client.go: events on the
-- wire. A nil wire event is left out; so are the stream's own failures.
pub mod RoundTrip
pub mod Delay
mod Examples
use local_first_architecture.Base.{
  ℕ, ◌+◌, ◌-◌, ◌*◌, ◌%◌, ◌/◌, ◌^◌, zero, suc, String, Bool, true, false, ◌||◌, Option, none, some,
  List, [], ◌∷◌, ◌++◌, ◌⊎◌, inl, inr, length, nat_beq, leb, if◌then◌else◌,
}
use local_first_architecture.Base.Int64.{Int64, int_zero, plus, add_int}
use local_first_architecture.Lab.Event.{EventId, MetaSet, Event, Malformed, validate, is_some}

-- message Event. An int32 stands as the number above it by 2 ^ 31.
pub record WireEvent : Type 0 where
  pub node_id : String
  pub seq : ℕ
  pub hlc_wall : Int64
  pub hlc_logical : ℕ
  pub sku : String
  pub kind : ℕ
  pub delta : Int64
  pub name : Option String
  pub reorder_point : Option Int64
  pub deleted_to : Option Bool

-- The conversions int32(k) and Kind(k).
abbrev pub to_int32 : Int64 → ℕ
to_int32 k = (k + 2 ^ 31) % 2 ^ 32

abbrev pub of_int32 : ℕ → Int64
of_int32 k = k + (2 ^ 63 - 2 ^ 31)

abbrev pub name_of : Option MetaSet → Option String
name_of none = none
name_of (some m) = m.name

abbrev pub reorder_of : Option MetaSet → Option Int64
reorder_of none = none
reorder_of (some m) = m.reorder_point

abbrev pub to_wire : Event → WireEvent
to_wire e = record {
  node_id = e.id.node;
  seq = e.id.seq;
  hlc_wall = e.hlc.wall;
  hlc_logical = e.hlc.logical;
  sku = e.sku;
  kind = to_int32 e.kind;
  delta = e.delta;
  name = name_of e.meta;
  reorder_point = reorder_of e.meta;
  deleted_to = e.deleted_to;
}

-- encodeEvent(e)
unfoldable pub encode_event : Event → Malformed ⊎ WireEvent
encode_event e = elim (validate e) [ none ↦ inr (to_wire e) | some m ↦ inl m ]

abbrev pub meta_of : Option String → Option Int64 → Option MetaSet
meta_of name reorder_point =
    if is_some name || is_some reorder_point
    then some (record { name = name; reorder_point = reorder_point })
    else none

abbrev pub of_wire : WireEvent → Event
of_wire w = record {
  id = record { node = w.node_id; seq = w.seq };
  hlc = record { wall = w.hlc_wall; logical = w.hlc_logical; node = w.node_id };
  sku = w.sku;
  kind = of_int32 w.kind;
  delta = w.delta;
  meta = meta_of w.name w.reorder_point;
  deleted_to = w.deleted_to;
}

-- decodeEvent(pe) of a non-nil frame
unfoldable pub decode_event : WireEvent → Malformed ⊎ Event
decode_event w = elim (validate (of_wire w)) [ none ↦ inr (of_wire w) | some m ↦ inl m ]

-- The closure `flush` of streamEvents: an empty batch is not sent.
unfoldable pub flush : List WireEvent → List (List WireEvent)
flush [] = []
flush (w ∷ ws) = (w ∷ ws) ∷ []

-- The loop of streamEvents: the batches that it sends, and the error that stops it.
unfoldable pub stream_events :
    ℕ → List WireEvent → List Event → List (List WireEvent) × Option Malformed
stream_events size batch [] = (flush batch, none)
stream_events size batch (e ∷ es) = elim (encode_event e) [
  | inl m ↦ ([], some m)
  | inr w ↦ elim (nat_beq (length (batch ++ (w ∷ []))) size) [
    | true ↦ let rest = stream_events size [] es in ((batch ++ (w ∷ [])) ∷ rest.0, rest.1)
    | false ↦ stream_events size (batch ++ (w ∷ [])) es
  ]
]

-- The first loop of mergeFrame: a frame's events, those that do not decode left out.
unfoldable pub decode_frame : List WireEvent → List Event
decode_frame [] = []
decode_frame (w ∷ ws) = elim (decode_event w) [
  | inl m ↦ decode_frame ws
  | inr e ↦ e ∷ decode_frame ws
]

-- 30 * time.Second, in nanoseconds
abbrev pub max_backoff : Int64
max_backoff = plus (30 * 10 ^ 9)

-- The loop of backoffFor; maxBackoff/2 is 15 seconds.
unfoldable pub double : Int64 → ℕ → Int64
double d zero = if leb d max_backoff then d else max_backoff
double d (suc attempts) =
    let rest = double (add_int d d) attempts in
    if leb (plus (15 * 10 ^ 9)) d then max_backoff else rest

-- backoffFor(base, attempt); the loop of a negative count does not run.
unfoldable pub backoff_for : Int64 → ℕ → Int64
backoff_for base attempt = if leb base int_zero then int_zero else double base attempt
