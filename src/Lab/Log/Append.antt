-- ===== src/Lab/Log/Append.antt =====
-- Appending is idempotent, and a node never uses a sequence number twice.
use Prim.Native.Nat.{max}
use local_first_architecture.Base.{
  ℕ, ◌+◌, ◌≤◌, String, ◌≡◌, refl, ap, ◌∙◌, inl, inr, true, false, ◌||◌, Option, none, some, List,
  [], ◌∷◌, ◌++◌, ◌==◌, text_comparable, if◌then◌else◌, arith, Bool-cases, Option-cases, same_refl,
}
use local_first_architecture.Lab.Event.{EventId, Event, Malformed, validate}
use local_first_architecture.Lab.Log.{
  Log, same_id, held, insert_event, max_seq, high_mark, append, append_local, next_event,
  store_local,
}
use local_first_architecture.Lab.Log.Frontier.{IsKeyed}

pub same_id_self : (a : EventId) → same_id a a ≡ true
unfolding same_id
same_id_self a = ground (arith, same_refl a.node)

same_id_iff : (a b : EventId) → same_id a b ≡ true → a ≡ b
unfolding same_id
same_id_iff a b h = ground (arith, text_comparable.same_iff a.node b.node)

pub held-append :
    (id : EventId) (xs ys : List Event) → held id (xs ++ ys) ≡ (held id xs || held id ys)
unfolding held
held-append id [] ys = refl
held-append id (x ∷ xs) ys = ground (arith, held-append id xs ys)

-- After an insertion, the ids held are those held before and the new one.
pub held-insert_event :
    (id : EventId) (e : Event) (es : List Event)
    → held id (insert_event e es) ≡ (held id es || same_id e.id id)
unfolding insert_event
held-insert_event id e es = elim (Bool-cases (held e.id es)) [
  | inl old ↦ rw old (ground (arith, same_id_iff e.id id))
  | inr new ↦ rw new (unfold held in ground (arith, held-append id es (e ∷ [])))
]

IsKeyed-append :
    (e : Event) (es : List Event) → IsKeyed es → held e.id es ≡ false → IsKeyed (es ++ (e ∷ []))
unfolding held same_id
IsKeyed-append e [] k h = (refl, tt)
IsKeyed-append e (x ∷ xs) k h = ground (
  arith,
  IsKeyed-append e xs k.1,
  held-append x.id xs (e ∷ []),
  text_comparable.same_iff x.id.node e.id.node,
  text_comparable.same_iff e.id.node x.id.node,
)

insert_event-IsKeyed : (e : Event) (es : List Event) → IsKeyed es → IsKeyed (insert_event e es)
unfolding insert_event
insert_event-IsKeyed e es k = elim (Bool-cases (held e.id es)) [
  | inl old ↦ rw old k
  | inr new ↦ rw new (IsKeyed-append e es k new)
]

insert_event-held : (e : Event) (es : List Event) → held e.id es ≡ true → insert_event e es ≡ es
unfolding insert_event
insert_event-held e es h = rw h

insert_event_twice :
    (e : Event) (es : List Event) → insert_event e (insert_event e es) ≡ insert_event e es
insert_event_twice e es =
    insert_event-held e (insert_event e es)
      (ground (arith, held-insert_event e.id e es, same_id_self e.id))

max_seq-append :
    (node : String) (e : Event) (es : List Event)
    → max_seq node (es ++ (e ∷ []))
      ≡ (if e.id.node == node then max (max_seq node es) e.id.seq else max_seq node es)
unfolding max_seq
max_seq-append node e [] = ground arith
max_seq-append node e (x ∷ xs) = elim (Bool-cases (x.id.node == node)) [
  | inl mine ↦ rw mine (
      rw (max_seq-append node e xs) (elim (Bool-cases (e.id.node == node)) [
        | inl new ↦ rw new (omega arith)
        | inr other ↦ rw other refl
      ]))
  | inr theirs ↦ rw theirs (max_seq-append node e xs)
]

held-max_seq : (id : EventId) (es : List Event) → held id es ≡ true → id.seq ≤ max_seq id.node es
unfolding held same_id max_seq
held-max_seq id [] h = cc
held-max_seq id (x ∷ xs) h =
    ground (arith, held-max_seq id xs, text_comparable.same_iff x.id.node id.node)

-- What the mint gives is the node's event with the number that it is asked for.
abbrev pub IsMint : String → (ℕ → Event) → Type 0
IsMint node mint = (s : ℕ) → (mint s).id ≡ record { node = node; seq = s }

module _ {B : Type 0} where
  pub append_valid :
      (l : Log B) (e : Event)
      → validate e ≡ none
      → append l e ≡ (none, record l { events = insert_event e l.events })
  unfolding append
  append_valid l e valid = rw (valid, append)

  pub append_invalid :
      (l : Log B) (e : Event) (m : Malformed) → validate e ≡ some m → append l e ≡ (some m, l)
  unfolding append
  append_invalid l e m bad = rw (bad, append)

  -- Delivering an event again changes nothing: the second Append leaves the log as the first left
  -- it, accepted or not, and answers the same.
  pub append_again : (l : Log B) (e : Event) → append (append l e).1 e ≡ append l e
  append_again l e = elim (Option-cases (validate e)) [
    | inl valid ↦ rw (append_valid l e valid) (
        append_valid (record l { events = insert_event e l.events }) e valid
        ∙ ap (λ (es : List Event). (none, record l { events = es }))
            (insert_event_twice e l.events))
    | inr (m, bad) ↦ rw (append_invalid l e m bad) (append_invalid l e m bad)
  ]

  pub store_local-some :
      (l : Log B) (e x : Event)
      → (store_local l e).0 ≡ some x
      → (e ≡ x) × ((store_local l e).1 ≡ record l { events = insert_event e l.events })
  store_local-some l e x h = elim (Option-cases (validate e)) [
    | inl valid ↦
        let stored : store_local l e ≡ (some e, record l { events = insert_event e l.events }) =
          unfold store_local in rw (valid, store_local) in
        (cc (ap (λ (r : Option Event × Log B). r.0) stored, h), ap (λ r. r.1) stored)
    | inr (m, bad) ↦
        let refused : store_local l e ≡ (none, l) = unfold store_local in rw (bad, store_local) in
        absurd (cc (ap (λ (r : Option Event × Log B). r.0) refused, h))
  ]

  pub next_event-id :
      (l : Log B) (node : String) (mint : ℕ → Event)
      → IsMint node mint
      → (next_event l mint).id ≡ record { node = node; seq = high_mark node l + 1 }
  unfolding next_event
  next_event-id l node mint m =
      m _ ∙ ap (λ (i : EventId). record { node = node; seq = high_mark i.node l + 1 }) (m 0)

  pub next-absent :
      (l : Log B) (node : String) (e : Event)
      → e.id ≡ record { node = node; seq = high_mark node l + 1 }
      → held e.id l.events ≡ false
  unfolding high_mark
  next-absent l node e i = elim (Bool-cases (held e.id l.events)) [
    | inr absent ↦ absent
    | inl present ↦ absurd (ground (arith, held-max_seq e.id l.events present, i))
  ]

  high_mark-next :
      (l : Log B) (node : String) (e : Event)
      → e.id ≡ record { node = node; seq = high_mark node l + 1 }
      → high_mark node (record l { events = insert_event e l.events }) ≡ e.id.seq
  unfolding high_mark insert_event
  high_mark-next l node e i =
      let absent = next-absent l node e i in
      rw absent (rw (max_seq-append node e l.events) (ground (arith, i, same_refl node)))

  -- AppendLocal stores its event under a number above every one that the node has used, also where
  -- compaction has deleted the rows: the event was not held, it is now, and the node's high mark is
  -- its number, the old mark and one.
  pub append_local_fresh :
      (l : Log B) (node : String) (mint : ℕ → Event) (e : Event)
      → IsMint node mint
      → (append_local l mint).0 ≡ some e
      → (e.id.node ≡ node)
        × (e.id.seq ≡ high_mark node l + 1)
        × (held e.id l.events ≡ false)
        × (held e.id (append_local l mint).1.events ≡ true)
        × (high_mark node (append_local l mint).1 ≡ e.id.seq)
  unfolding append_local
  append_local_fresh l node mint e m h =
      let (same, after) = store_local-some l (next_event l mint) e h in
      let i : e.id ≡ record { node = node; seq = high_mark node l + 1 } =
        rw (← same) (next_event-id l node mint m) in
      (
        ap (λ (x : EventId). x.node) i,
        ap (λ (x : EventId). x.seq) i,
        next-absent l node e i,
        rw after (rw same (ground (arith, held-insert_event e.id e l.events, same_id_self e.id))),
        rw after (rw same (high_mark-next l node e i)),
      )
