-- ===== src/Lab/Node/Merge.antt =====
-- Merging a batch stores every well-formed event of it and moves the clock past them all.
use mathlib.Core.Path.{subst}
use local_first_architecture.Base.{
  ℕ, suc, ◌+◌, ◌-◌, ◌^◌, ◌≤◌, ◌<◌, ◌≡◌, refl, ap, ◌∙◌, sym, inl, inr, true, none, some, List, [],
  ◌∷◌, length, ◌⊎◌, arith, Bool-cases, Option-cases, All, All-map, All-snoc,
}
use local_first_architecture.Base.Int64.{Int64}
use local_first_architecture.Lab.Clock.{Hlc, before, observe, observes}
use local_first_architecture.Lab.Clock.Order.{compare-IsTotal}
use local_first_architecture.Lab.Clock.Monotonic.{IsWithin, step_after, observe_after}
use local_first_architecture.Lab.Event.{EventId, Event, Malformed, validate}
use local_first_architecture.Lab.Log.{held, insert_event}
use local_first_architecture.Lab.Log.Append.{
  held-insert_event, same_id_self, append_valid, append_invalid,
}
use local_first_architecture.Lab.Node.{Merged, touch, merge_event, merge_events}

-- The number of the well-formed events of a batch, and these.
abbrev pub well_formed : List (Event × Int64) → ℕ
well_formed [] = 0
well_formed ((e, reading) ∷ es) = elim (validate e) [
  | none ↦ suc (well_formed es)
  | some m ↦ well_formed es
]

abbrev pub sound_events : List (Event × Int64) → List Event
sound_events [] = []
sound_events ((e, reading) ∷ es) = elim (validate e) [
  | none ↦ e ∷ sound_events es
  | some m ↦ sound_events es
]

-- An event stands in a list.
abbrev pub IsAmong : Event → List Event → Type 0
IsAmong x [] = ⊥
IsAmong x (y ∷ ys) = (x ≡ y) ⊎ IsAmong x ys

IsAmong-self : (xs : List Event) → All (λ x. IsAmong x xs) xs
IsAmong-self [] = tt
IsAmong-self (x ∷ xs) = (inl refl, All-map (λ y h. inr h) xs (IsAmong-self xs))

insert_event-All :
    (P : Event → Type 0) (e : Event) (es : List Event) → All P es → P e → All P (insert_event e es)
unfolding insert_event
insert_event-All P e es h p = elim (Bool-cases (held e.id es)) [
  | inl there ↦ rw there h
  | inr new ↦ rw new (All-snoc P e es h p)
]

before_trans : (a b c : Hlc) → before a b ≡ true → before b c ≡ true → before a c ≡ true
unfolding before
before_trans a b c h k = ground (arith, compare-IsTotal.cmp_trans a b c)

module _ {B : Type 0} where
  -- The step of a well-formed event.
  taken_in : Merged B → Event → Int64 → Merged B
  taken_in m e reading = record {
    node = record (m.node) {
      log = record (m.node.log) { events = insert_event e m.node.log.events };
      clk = observe m.node.clk reading e.hlc;
    };
    accepted = m.accepted + 1;
    touched = touch e.sku m.touched;
  }

  merge_event-valid :
      (m : Merged B) (e : Event) (reading : Int64)
      → validate e ≡ none
      → merge_event m e reading ≡ taken_in m e reading
  unfolding merge_event taken_in
  merge_event-valid m e reading v =
      rw (append_valid m.node.log e v, merge_event, append_valid m.node.log e v) refl

  merge_event-invalid :
      (m : Merged B) (e : Event) (reading : Int64) (bad : Malformed)
      → validate e ≡ some bad
      → merge_event m e reading ≡ m
  unfolding merge_event
  merge_event-invalid m e reading bad v = rw (append_invalid m.node.log e bad v, merge_event) refl

  accepted-merge_events :
      (es : List (Event × Int64)) (m : Merged B)
      → (merge_events m es).accepted ≡ m.accepted + well_formed es
  unfolding merge_events
  accepted-merge_events [] m = omega arith
  accepted-merge_events ((e, reading) ∷ es) m = elim (Option-cases (validate e)) [
    | inl fine ↦
        ap (λ (n : Merged B). (merge_events n es).accepted) (merge_event-valid m e reading fine)
        ∙ accepted-merge_events es (taken_in m e reading)
        ∙ (rw (fine, well_formed) (unfold taken_in in omega arith))
    | inr (bad, malformed) ↦
        ap (λ (n : Merged B). (merge_events n es).accepted)
          (merge_event-invalid m e reading bad malformed)
        ∙ accepted-merge_events es m
        ∙ (rw (malformed, well_formed) refl)
  ]

  held-merge_event :
      (m : Merged B) (e : Event) (reading : Int64) (id : EventId)
      → held id m.node.log.events ≡ true
      → held id (merge_event m e reading).node.log.events ≡ true
  held-merge_event m e reading id h = elim (Option-cases (validate e)) [
    | inl fine ↦
        rw (merge_event-valid m e reading fine)
          (unfold taken_in in ground (arith, held-insert_event id e m.node.log.events))
    | inr (bad, malformed) ↦ rw (merge_event-invalid m e reading bad malformed) h
  ]

  held-merge_events :
      (es : List (Event × Int64)) (m : Merged B) (id : EventId)
      → held id m.node.log.events ≡ true
      → held id (merge_events m es).node.log.events ≡ true
  unfolding merge_events
  held-merge_events [] m id h = h
  held-merge_events ((e, reading) ∷ es) m id h =
      held-merge_events es (merge_event m e reading) id (held-merge_event m e reading id h)

  held-new :
      (m : Merged B) (e : Event) (reading : Int64)
      → validate e ≡ none
      → held e.id (merge_event m e reading).node.log.events ≡ true
  held-new m e reading fine = rw (merge_event-valid m e reading fine) (
      unfold taken_in in
      ground (arith, held-insert_event e.id e m.node.log.events, same_id_self e.id))

  stored-merge_events :
      (es : List (Event × Int64)) (m : Merged B)
      → All
          (λ (p : Event × Int64).
            validate p.0 ≡ none → held p.0.id (merge_events m es).node.log.events ≡ true)
          es
  unfolding merge_events
  stored-merge_events [] m = tt
  stored-merge_events ((e, reading) ∷ es) m = (
    λ fine. held-merge_events es (merge_event m e reading) e.id (held-new m e reading fine),
    stored-merge_events es (merge_event m e reading),
  )

  -- What the rows and the well-formed events satisfy, the rows of the end do.
  rows-merge_events :
      (P : Event → Type 0) (es : List (Event × Int64)) (m : Merged B)
      → All P m.node.log.events
      → All P (sound_events es)
      → All P (merge_events m es).node.log.events
  unfolding merge_events
  rows-merge_events P [] m h k = h
  rows-merge_events P ((e, reading) ∷ es) m h k = elim (Option-cases (validate e)) [
    | inl fine ↦
        let both : P e × All P (sound_events es) =
          subst (λ v. All P (elim v [ none ↦ e ∷ sound_events es | some x ↦ sound_events es ])) fine
            k in
        subst (λ (n : Merged B). All P (merge_events n es).node.log.events)
          (sym (merge_event-valid m e reading fine))
          (rows-merge_events P es (taken_in m e reading)
            (unfold taken_in in insert_event-All P e m.node.log.events h both.0) both.1)
    | inr (bad, malformed) ↦
        let rest : All P (sound_events es) =
          subst (λ v. All P (elim v [ none ↦ e ∷ sound_events es | some x ↦ sound_events es ]))
            malformed k in
        subst (λ (n : Merged B). All P (merge_events n es).node.log.events)
          (sym (merge_event-invalid m e reading bad malformed)) (rows-merge_events P es m h rest)
  ]

  -- Merge stores the well-formed events of a batch and nothing else: the loop's count is that of the
  -- batch's well-formed events, each of these is held at the end, whatever else the batch carries, and
  -- every row of the end is a row of before or one of them.
  pub merge_events-stored :
      (m : Merged B) (es : List (Event × Int64))
      → ((merge_events m es).accepted ≡ m.accepted + well_formed es)
        × All
            (λ (p : Event × Int64).
              validate p.0 ≡ none → held p.0.id (merge_events m es).node.log.events ≡ true)
            es
        × All
            (λ x. IsAmong x m.node.log.events ⊎ IsAmong x (sound_events es))
            (merge_events m es).node.log.events
  merge_events-stored m es = (
    accepted-merge_events es m,
    stored-merge_events es m,
    rows-merge_events (λ x. IsAmong x m.node.log.events ⊎ IsAmong x (sound_events es)) es m
        (All-map (λ x h. inl h) m.node.log.events (IsAmong-self m.node.log.events))
        (All-map (λ x h. inr h) (sound_events es) (IsAmong-self (sound_events es))),
  )

  -- The clock after one event: never behind, and past the event if it was accepted.
  merge_event-clk :
      (m : Merged B) (e : Event) (reading b : ℕ)
      → IsWithin b m.node.clk.last
      → IsWithin b e.hlc
      → reading ≤ b
      → 2 ^ 63 ≤ b
      → b < 2 ^ 64 - 1
      → let c = (merge_event m e reading).node.clk in
        ((h : Hlc) → before h m.node.clk.last ≡ true → before h c.last ≡ true)
        × (validate e ≡ none → before e.hlc c.last ≡ true)
        × IsWithin (b + 1) c.last
  merge_event-clk m e reading b w v r low small = elim (Option-cases (validate e)) [
    | inl fine ↦
        let past = observe_after m.node.clk reading e.hlc b w v r small in
        rw (merge_event-valid m e reading fine) (
          unfold taken_in in
          (
            λ h k. before_trans h m.node.clk.last (observe m.node.clk reading e.hlc).last k past.0,
            λ f. past.1,
            (step_after m.node.clk (observes reading e.hlc) b w (r, v) low small).1,
          ))
    | inr (bad, malformed) ↦
        rw (merge_event-invalid m e reading bad malformed)
          (λ h k. k, λ f. absurd (cc (f, malformed)), omega (arith, w))
  ]

  clk-merge_events :
      (es : List (Event × Int64)) (m : Merged B) (a b : ℕ)
      → IsWithin b m.node.clk.last
      → All (λ (p : Event × Int64). IsWithin a p.0.hlc × (p.1 ≤ a)) es
      → a ≤ b
      → 2 ^ 63 ≤ b
      → b + length es < 2 ^ 64
      → ((h : Hlc)
          → before h m.node.clk.last ≡ true
          → before h (merge_events m es).node.clk.last ≡ true)
        × All
            (λ (p : Event × Int64).
              validate p.0 ≡ none → before p.0.hlc (merge_events m es).node.clk.last ≡ true)
            es
  unfolding merge_events
  clk-merge_events [] m a b w v le low small = (λ h k. k, tt)
  clk-merge_events ((e, reading) ∷ es) m a b w v le low small =
      let (keeps, past, near) =
        merge_event-clk m e reading b w (omega (arith, v.0.0)) (omega (arith, v.0.1)) low
          (omega arith) in
      let rest =
        clk-merge_events es (merge_event m e reading) a (b + 1) near v.1 (omega arith) (omega arith)
          (omega arith) in
      (λ h k. rest.0 h (keeps h k), (λ fine. rest.0 e.hlc (past fine), rest.1))

  -- After a merge the node's clock is past every event that it accepted from the batch, so that a later
  -- local write wins over them. The condition is that no wall comes closer to math.MaxInt64 than one
  -- millisecond an event, and that the counters are inside uint32.
  pub merge_events-later :
      (m : Merged B) (es : List (Event × Int64)) (a b : ℕ)
      → IsWithin b m.node.clk.last
      → All (λ (p : Event × Int64). IsWithin a p.0.hlc × (p.1 ≤ a)) es
      → a ≤ b
      → 2 ^ 63 ≤ b
      → b + length es < 2 ^ 64
      → All
          (λ (p : Event × Int64).
            validate p.0 ≡ none → before p.0.hlc (merge_events m es).node.clk.last ≡ true)
          es
  merge_events-later m es a b w v le low small = (clk-merge_events es m a b w v le low small).1
