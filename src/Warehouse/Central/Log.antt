-- ===== src/Warehouse/Central/Log.antt =====
-- memory.go: central's log, its own events, and the queues to the nodes.
use Prim.Native.String.{compare as compare_text}
use local_first_architecture.Base.{
  ℕ, zero, suc, ◌+◌, ◌%◌, ◌^◌, Ordering, String, Bool, true, false, not, ◌||◌, Option, none, some,
  List, [], ◌∷◌, ◌++◌, ◌⊎◌, inl, inr, ltb, leb, ◌==◌, text_comparable, pair_comparable,
  if◌then◌else◌,
}
use local_first_architecture.Base.Int64.{Int64, int_zero}
use local_first_architecture.Base.Order.{is_lt}
use local_first_architecture.Base.Table.{Table, lookup, lookup_or, insert}
use local_first_architecture.Warehouse.World.{World}
use local_first_architecture.Warehouse.Hlc.{Hlc, compare, tick, merge}
use local_first_architecture.Warehouse.Event.{EventId, id_comparable, Event, Envelope}
use local_first_architecture.Warehouse.Event.Seal.{Codec, EventError, new_envelope}
use local_first_architecture.Warehouse.Central.{central_node, ReceiptFact, Outbound, Memory}

-- Central's next reading.
abbrev pub next_hlc : Option Hlc → Hlc → Int64 → Hlc
next_hlc none last millis = tick last millis central_node
next_hlc (some cause) last millis = merge last cause millis central_node

-- less(a, b)
unfoldable pub less : EventId → EventId → Bool
less a b =
    if not (a.node_id == b.node_id)
    then is_lt (compare_text a.node_id b.node_id)
    else ltb a.seq b.seq

module _ {w : World} where
  -- Append: the envelopes that were new, and the store.
  unfoldable pub append : List (Envelope w) → Memory w → List (Envelope w) × Memory w
  append [] m = ([], m)
  append (e ∷ es) m = elim (lookup e.id m.events) [
    | some there ↦ append es m
    | none ↦
        let rest = append es (record m { events = insert e.id e m.events }) in (e ∷ rest.0, rest.1)
  ]

  -- The order of sortedEvents.
  unfoldable pub comes_before : Envelope w → Envelope w → Bool
  comes_before e f = elim (compare e.hlc f.hlc) [
    | Ordering.lt ↦ true
    | Ordering.eq ↦ ltb e.id.seq f.id.seq
    | Ordering.gt ↦ false
  ]

  unfoldable pub place : Envelope w → List (Envelope w) → List (Envelope w)
  place e [] = e ∷ []
  place e (f ∷ fs) = if comes_before f e then f ∷ place e fs else e ∷ f ∷ fs

  unfoldable pub sort : Table EventId (Envelope w) → List (Envelope w)
  sort [] = []
  sort ((id, e) ∷ es) = place e (sort es)

  unfoldable pub sorted_events : Memory w → List (Envelope w)
  sorted_events m = sort m.events

  -- env.CausationID != nil && *env.CausationID == id
  abbrev pub is_caused_by : EventId → Envelope w → Bool
  is_caused_by id e = elim e.causation_id [ none ↦ false | some cause ↦ cause == id ]

  unfoldable pub caused_by : EventId → List (Envelope w) → List (Envelope w)
  caused_by id [] = []
  caused_by id (e ∷ es) = let rest = caused_by id es in if is_caused_by id e then e ∷ rest else rest

  -- CompensationsOf(id)
  unfoldable pub compensations_of : Memory w → EventId → List (Envelope w)
  compensations_of m id = caused_by id (sorted_events m)

  -- The HLC of the event that is compensated; the zero HLC if there is none.
  abbrev pub causing : Memory w → EventId → Hlc
  causing m id = elim (lookup id m.events) [
    | none ↦ record { wall = int_zero; counter = 0; node = "" }
    | some e ↦ e.hlc
  ]

  -- The loop of EmitCentral; an event that is not sealed has used up its number.
  unfoldable pub emit_loop :
      Codec w
      → Option EventId
      → Option Hlc
      → w.Time
      → List (Event w)
      → Memory w
      → (EventError ⊎ List (Envelope w)) × Memory w
  emit_loop codec causation cause now [] m = (inr [], m)
  emit_loop codec causation cause now (e ∷ es) m =
      let n = (m.central_n + 1) % 2 ^ 64 in
      let hlc = next_hlc cause m.central_hl (w.unix_milli now) in
      let m' : Memory w = record m { central_n = n; central_hl = hlc } in
      elim (new_envelope codec (record { node_id = central_node; seq = n }) hlc now causation e) [
        | inl error ↦ (inl error, m')
        | inr env ↦
            let rest =
              emit_loop codec causation cause now es
                (record m' { events = insert env.id env m'.events }) in
            (elim (rest.0) [ inl error ↦ inl error | inr envs ↦ inr (env ∷ envs) ], rest.1)
      ]

  -- EmitCentral(events, causation, now)
  unfoldable pub emit_central :
      Codec w
      → List (Event w)
      → Option EventId
      → w.Time
      → Memory w
      → (EventError ⊎ List (Envelope w)) × Memory w
  emit_central codec events causation now m =
      let cause : Option Hlc = elim causation [ none ↦ none | some id ↦ some (causing m id) ] in
      emit_loop codec causation cause now events m

  -- Enqueue(target, envs), once for each target and event
  unfoldable pub enqueue : String → List (Envelope w) → Memory w → Memory w
  enqueue target [] m = m
  enqueue target (e ∷ es) m =
      if lookup_or false (target, e.id) m.enqueued
      then enqueue target es m
      else enqueue target es (record m {
        enqueued = insert (target, e.id) true m.enqueued;
        next_ord = (m.next_ord + 1) % 2 ^ 64;
        queue =
            insert target
              (lookup_or [] target m.queue
                ++ (record { ord = (m.next_ord + 1) % 2 ^ 64; env = e } ∷ []))
              m.queue;
      })

  -- The loop of Outbound, with room for `limit` more rows.
  unfoldable pub take_after : ℕ → ℕ → List (Outbound w) → List (Outbound w)
  take_after after_ord zero rows = []
  take_after after_ord (suc limit) [] = []
  take_after after_ord (suc limit) (row ∷ rows) =
      if leb row.ord after_ord
      then take_after after_ord (suc limit) rows
      else row ∷ take_after after_ord limit rows

  -- Outbound(target, afterOrd, limit); a limit below 1 gives nothing.
  unfoldable pub outbound : Memory w → String → ℕ → ℕ → List (Outbound w)
  outbound m target after_ord limit = take_after after_ord limit (lookup_or [] target m.queue)

  -- The loop of DeliveryNoteFirstSeen.
  unfoldable pub first_seen :
      String → String → Option EventId → Table EventId (ReceiptFact w) → Option EventId
  first_seen note sku first [] = first
  first_seen note sku first ((id, f) ∷ fs) =
      if not (f.delivery_note == note) || not (f.sku == sku)
      then first_seen note sku first fs
      else first_seen note sku
          (elim first [
            | none ↦ some f.event_id
            | some seen ↦ if less f.event_id seen then some f.event_id else some seen
          ])
          fs

  unfoldable pub delivery_note_first_seen : Memory w → String → String → Option EventId
  delivery_note_first_seen m note sku = first_seen note sku none m.receipts
