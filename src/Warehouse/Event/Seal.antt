-- ===== src/Warehouse/Event/Seal.antt =====
-- event.go: the table of event types, NewEnvelope and DecodePayload.
use local_first_architecture.Base.{
  String, ◌≡◌, refl, Bool, true, false, ◌||◌, Option, some, List, [], ◌∷◌, ◌⊎◌, inl, inr, ◌==◌,
  text_comparable, arith, Bool-cases, Option-cases,
}
use local_first_architecture.Base.Results.{◌>>=◌, ◌>>◌, require, found}
use local_first_architecture.Warehouse.Hlc.{Hlc}
use local_first_architecture.Warehouse.World.{World}
use local_first_architecture.Warehouse.Event.{
  EventId, Payload, goods_received, put_away, picked, stock_adjusted, stock_reserved,
  reservation_released, reservation_consumed, transfer_dispatched, transfer_received,
  receipt_opened, receipt_line_recorded, receipt_closed, count_started, count_line_counted,
  count_closed, item_upserted, location_registered, Event, Envelope,
}

-- The name under which payloadFactories has the type of a payload.
unfoldable pub type_of : {w : World} → Payload w → String
type_of (goods_received r d p m) = "GoodsReceived"
type_of (put_away m) = "PutAway"
type_of (picked m o) = "Picked"
type_of (stock_adjusted m r) = "StockAdjusted"
type_of (stock_reserved r k q) = "StockReserved"
type_of (reservation_released r) = "ReservationReleased"
type_of (reservation_consumed r) = "ReservationConsumed"
type_of (transfer_dispatched t f o ls) = "TransferDispatched"
type_of (transfer_received t ls) = "TransferReceived"
type_of (receipt_opened r d p) = "ReceiptOpened"
type_of (receipt_line_recorded l) = "ReceiptLineRecorded"
type_of (receipt_closed r) = "ReceiptClosed"
type_of (count_started c l) = "CountStarted"
type_of (count_line_counted c k q) = "CountLineCounted"
type_of (count_closed c) = "CountClosed"
type_of (item_upserted i) = "ItemUpserted"
type_of (location_registered c k) = "LocationRegistered"

abbrev pub among : String → List String → Bool
among t [] = false
among t (u ∷ us) = u == t || among t us

-- The keys of payloadFactories.
unfoldable pub is_registered : String → Bool
is_registered t = among t (
    "GoodsReceived" ∷ "PutAway" ∷ "Picked" ∷ "StockAdjusted" ∷ "StockReserved"
    ∷ "ReservationReleased" ∷ "ReservationConsumed" ∷ "TransferDispatched" ∷ "TransferReceived"
    ∷ "ReceiptOpened" ∷ "ReceiptLineRecorded" ∷ "ReceiptClosed" ∷ "CountStarted"
    ∷ "CountLineCounted" ∷ "CountClosed" ∷ "ItemUpserted" ∷ "LocationRegistered" ∷ [])

-- json.Marshal, and json.Unmarshal into the struct of a type name; `none` is an error.
pub record Codec (w : World) : Type 0 where
  pub marshal : Payload w → Option w.Raw
  pub unmarshal : String → w.Raw → Option (Payload w)

pub data EventError : Type 0 where
  unknown_type wrong_payload not_encoded not_decoded : EventError

module _ {w : World} (codec : Codec w) where
  -- NewEnvelope(id, hlc, recordedAt, causation, e)
  unfoldable pub new_envelope :
      EventId → Hlc → w.Time → Option EventId → Event w → EventError ⊎ Envelope w
  new_envelope id hlc recorded_at causation e = do
    require (is_registered e.typ) unknown_type
    require (e.typ == type_of e.payload) wrong_payload
    raw ← found (codec.marshal e.payload) not_encoded
    inr (record {
      id = id;
      aggregate_id = e.aggregate_id;
      typ = e.typ;
      hlc = hlc;
      recorded_at = recorded_at;
      causation_id = causation;
      payload = raw;
    })

  -- DecodePayload(env)
  unfoldable pub decode_payload : Envelope w → EventError ⊎ Payload w
  decode_payload env = do
    require (is_registered env.typ) unknown_type
    found (codec.unmarshal env.typ env.payload) not_decoded

  -- What encoding/json promises: a payload that is encoded decodes, as its own type, to itself.
  abbrev pub IsFaithful : Type 0
  IsFaithful =
      (p : Payload w) (raw : w.Raw)
      → codec.marshal p ≡ some raw
      → codec.unmarshal (type_of p) raw ≡ some p

  is_registered-type_of : (p : Payload w) → is_registered (type_of p) ≡ true
  unfolding is_registered type_of
  is_registered-type_of (goods_received r d p m) = refl
  is_registered-type_of (put_away m) = refl
  is_registered-type_of (picked m o) = refl
  is_registered-type_of (stock_adjusted m r) = refl
  is_registered-type_of (stock_reserved r k q) = refl
  is_registered-type_of (reservation_released r) = refl
  is_registered-type_of (reservation_consumed r) = refl
  is_registered-type_of (transfer_dispatched t f o ls) = refl
  is_registered-type_of (transfer_received t ls) = refl
  is_registered-type_of (receipt_opened r d p) = refl
  is_registered-type_of (receipt_line_recorded l) = refl
  is_registered-type_of (receipt_closed r) = refl
  is_registered-type_of (count_started c l) = refl
  is_registered-type_of (count_line_counted c k q) = refl
  is_registered-type_of (count_closed c) = refl
  is_registered-type_of (item_upserted i) = refl
  is_registered-type_of (location_registered c k) = refl

  -- What NewEnvelope seals, DecodePayload reads: an envelope that enters the log holds the payload of
  -- the event under the event's own type, and decodes to it. JSON is taken to round-trip.
  pub new-decode_payload :
      IsFaithful
      → (id : EventId) (hlc : Hlc) (recorded_at : w.Time) (causation : Option EventId) (e : Event w)
        (env : Envelope w)
      → new_envelope id hlc recorded_at causation e ≡ inr env
      → (decode_payload env ≡ inr e.payload)
        × (env.typ ≡ type_of e.payload)
        × (env.id ≡ id)
        × (env.causation_id ≡ causation)
  unfolding new_envelope decode_payload
  new-decode_payload faithful id hlc recorded_at causation e env h =
      elim (Bool-cases (is_registered e.typ)) [
        | inr unknown ↦ absurd (ground (arith, unknown))
        | inl known ↦ elim (Bool-cases (e.typ == type_of e.payload)) [
          | inr wrong ↦ absurd (ground (arith, known, wrong))
          | inl typed ↦ elim (Option-cases (codec.marshal e.payload)) [
            | inl bad ↦ absurd (ground (arith, known, typed, bad))
            | inr (raw, fine) ↦
                let back = faithful e.payload raw fine in
                let same = (text_comparable.same_iff e.typ (type_of e.payload)).0 typed in
                ground (arith, known, typed, fine, back, same, is_registered-type_of e.payload)
          ]
        ]
      ]

  -- An event with a name that is not in the table, or with the payload of another name, is refused.
  pub new_envelope-refused :
      (id : EventId) (hlc : Hlc) (recorded_at : w.Time) (causation : Option EventId) (e : Event w)
      → (e.typ == type_of e.payload) ≡ false
      → (x : EventError) × (new_envelope id hlc recorded_at causation e ≡ inl x)
  unfolding new_envelope
  new_envelope-refused id hlc recorded_at causation e h = elim (Bool-cases (is_registered e.typ)) [
    | inr unknown ↦ (unknown_type, ground (arith, unknown))
    | inl known ↦ (wrong_payload, ground (arith, known, h))
  ]
