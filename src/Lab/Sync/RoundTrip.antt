-- ===== src/Lab/Sync/RoundTrip.antt =====
-- What one side streams, the other side decodes.
use mathlib.Core.Path.{subst}
use local_first_architecture.Base.{
  ℕ, ◌+◌, ◌≤◌, ◌<◌, ◌≡◌, refl, ap, ◌∙◌, sym, inl, inr, true, false, Option, none, List, [], ◌∷◌,
  ◌++◌, length, nat_beq, arith, Bool-cases, Sum-cases, All, append-nil, append_assoc, length-append,
}
use local_first_architecture.Lab.Event.{Event, MetaSet, Malformed, validate}
use local_first_architecture.Lab.Event.Valid.{HasShape, IsWellFormed, validate_iff}
use local_first_architecture.Lab.Sync.{
  WireEvent, to_int32, of_int32, to_wire, of_wire, meta_of, name_of, reorder_of, encode_event,
  decode_event, flush, stream_events, decode_frame,
}

kind-of_int32 : (e : Event) → HasShape e → of_int32 (to_int32 e.kind) ≡ e.kind
kind-of_int32 e (HasShape.quantity k d m t b) = rw k refl
kind-of_int32 e (HasShape.metadata s k d m t b) = rw k refl
kind-of_int32 e (HasShape.tombstone b k d m t) = rw k refl

meta-meta_of : (e : Event) → HasShape e → meta_of (name_of e.meta) (reorder_of e.meta) ≡ e.meta
meta-meta_of e (HasShape.quantity k d m t b) = ground arith
meta-meta_of e (HasShape.metadata s k d m t b) = ground arith
meta-meta_of e (HasShape.tombstone b k d m t) = ground arith

of_wire-to_wire : (e : Event) → IsWellFormed e → of_wire (to_wire e) ≡ e
of_wire-to_wire e w =
    ap (λ (k : ℕ). record (of_wire (to_wire e)) { kind = k }) (kind-of_int32 e w.shaped)
    ∙ ap (λ (m : Option MetaSet). record (of_wire (to_wire e)) { kind = e.kind; meta = m })
        (meta-meta_of e w.shaped)
    ∙ ap (λ n. record e { hlc = record (e.hlc) { node = n } }) (sym w.stamped)

encode_event-valid : (e : Event) → validate e ≡ none → encode_event e ≡ inr (to_wire e)
unfolding encode_event
encode_event-valid e v = rw (v, encode_event) refl

decode_event-valid :
    (w : WireEvent) → validate (of_wire w) ≡ none → decode_event w ≡ inr (of_wire w)
unfolding decode_event
decode_event-valid w v = rw (v, decode_event) refl

decode-to_wire : (e : Event) → validate e ≡ none → decode_event (to_wire e) ≡ inr e
decode-to_wire e v =
    let same = of_wire-to_wire e ((validate_iff e).0 v) in
    decode_event-valid (to_wire e) (ap validate same ∙ v) ∙ ap (λ (x : Event). inr x) same

-- Encoding and decoding an event that Validate accepts gives the event back.
pub encode-decode :
    (e : Event)
    → validate e ≡ none
    → (w : WireEvent) × (encode_event e ≡ inr w) × (decode_event w ≡ inr e)
encode-decode e v = (to_wire e, encode_event-valid e v, decode-to_wire e v)

-- The frames of a session, decoded one after the other.
abbrev pub decode_frames : List (List WireEvent) → List Event
decode_frames [] = []
decode_frames (f ∷ fs) = decode_frame f ++ decode_frames fs

decode_frame-append :
    (xs ys : List WireEvent) → decode_frame (xs ++ ys) ≡ decode_frame xs ++ decode_frame ys
unfolding decode_frame
decode_frame-append [] ys = refl
decode_frame-append (w ∷ xs) ys = elim (Sum-cases (decode_event w)) [
  | inl (m, bad) ↦ rw (bad, decode_frame) (decode_frame-append xs ys)
  | inr (e, fine) ↦ rw (fine, decode_frame) (ap (λ es. e ∷ es) (decode_frame-append xs ys))
]

decode_frame-one : (e : Event) → validate e ≡ none → decode_frame (to_wire e ∷ []) ≡ e ∷ []
unfolding decode_frame
decode_frame-one e v = rw (decode-to_wire e v, decode_frame) refl

decode-flush : (batch : List WireEvent) → decode_frames (flush batch) ≡ decode_frame batch
unfolding flush decode_frame
decode-flush [] = refl
decode-flush (w ∷ ws) = append-nil (decode_frame (w ∷ ws))

-- A batch that can be sent.
abbrev pub IsBatch : ℕ → List WireEvent → Type 0
IsBatch size b = (1 ≤ length b) × (length b ≤ size)

flush-IsBatch :
    (size : ℕ) (batch : List WireEvent) → length batch < size → All (IsBatch size) (flush batch)
unfolding flush
flush-IsBatch size [] h = tt
flush-IsBatch size (w ∷ ws) h = (omega arith, tt)

module _ (size : ℕ) (positive : 0 < size) where
  stream_full :
      (batch : List WireEvent) (e : Event) (es : List Event)
      → validate e ≡ none
      → nat_beq (length (batch ++ (to_wire e ∷ []))) size ≡ true
      → stream_events size batch (e ∷ es)
        ≡ ((batch ++ (to_wire e ∷ [])) ∷ (stream_events size [] es).0, (stream_events size [] es).1)
  unfolding stream_events
  stream_full batch e es v full = rw (encode_event-valid e v, stream_events, full) refl

  stream_longer :
      (batch : List WireEvent) (e : Event) (es : List Event)
      → validate e ≡ none
      → nat_beq (length (batch ++ (to_wire e ∷ []))) size ≡ false
      → stream_events size batch (e ∷ es) ≡ stream_events size (batch ++ (to_wire e ∷ [])) es
  unfolding stream_events
  stream_longer batch e es v short = rw (encode_event-valid e v, stream_events, short) refl

  -- What a run of the loop has sent, given what was in the batch.
  abbrev IsStreamed :
      List WireEvent → List Event → List (List WireEvent) × Option Malformed → Type 0
  IsStreamed batch es sent =
      (sent.1 ≡ none)
      × (decode_frames sent.0 ≡ decode_frame batch ++ es)
      × All (IsBatch size) sent.0

  stream_events-IsStreamed :
      (es : List Event) (batch : List WireEvent)
      → All (λ e. validate e ≡ none) es
      → length batch < size
      → IsStreamed batch es (stream_events size batch es)
  stream_events-IsStreamed [] batch v short =
      unfold stream_events in
      (
        refl,
        decode-flush batch ∙ sym (append-nil (decode_frame batch)),
        flush-IsBatch size batch short,
      )
  stream_events-IsStreamed (e ∷ es) batch v short =
      let longer : decode_frame (batch ++ (to_wire e ∷ [])) ≡ decode_frame batch ++ (e ∷ []) =
        decode_frame-append batch (to_wire e ∷ [])
        ∙ ap (λ xs. decode_frame batch ++ xs) (decode_frame-one e v.0) in
      let one : length (batch ++ (to_wire e ∷ [])) ≡ length batch + 1 =
        length-append batch (to_wire e ∷ []) in
      elim (Bool-cases (nat_beq (length (batch ++ (to_wire e ∷ []))) size)) [
        | inl full ↦
            let rest = stream_events-IsStreamed es [] v.1 positive in
            subst (IsStreamed batch (e ∷ es)) (sym (stream_full batch e es v.0 full)) (
              rest.0,
              ap (λ xs. xs ++ decode_frames (stream_events size [] es).0) longer
                  ∙ append_assoc (decode_frame batch) (e ∷ [])
                      (decode_frames (stream_events size [] es).0)
                  ∙ ap (λ xs. decode_frame batch ++ (e ∷ xs))
                      (rest.1 ∙ (unfold decode_frame in refl)),
              (omega (arith, one, short), rest.2),
            )
        | inr short' ↦
            let rest =
              stream_events-IsStreamed es (batch ++ (to_wire e ∷ [])) v.1 (ground (arith, one)) in
            subst (IsStreamed batch (e ∷ es)) (sym (stream_longer batch e es v.0 short')) (
              rest.0,
              rest.1 ∙ ap (λ xs. xs ++ es) longer ∙ append_assoc (decode_frame batch) (e ∷ []) es,
              rest.2,
            )
      ]

-- A session's stream loses nothing: of events that Validate accepts, the loop sends every one without
-- an error, in non-empty batches of at most the batch size, and the peer that decodes the batches one
-- after the other gets the events back, in the same order. The batch size is positive, as both
-- constructors make it.
pub stream-decode :
    (size : ℕ) (es : List Event)
    → 0 < size
    → All (λ e. validate e ≡ none) es
    → let sent = stream_events size [] es in
      (sent.1 ≡ none) × (decode_frames sent.0 ≡ es) × All (IsBatch size) sent.0
stream-decode size es positive v =
    let r = stream_events-IsStreamed size positive es [] v positive in
    (r.0, r.1 ∙ (unfold decode_frame in refl), r.2)
