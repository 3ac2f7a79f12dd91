-- ===== src/Lab/Node/Emit.antt =====
-- What a local operation does to the next read.

use local_first_architecture.Base.{
  ℕ, ◌+◌, ◌≤◌, String, ◌≡◌, refl, ap, ◌∙◌, sym, inl, inr, true, false, Option, some, List, [], ◌∷◌,
  ◌++◌, ◌==◌, text_comparable, arith, Bool-cases, Option-cases, All, All-map, Each2, Each2-snoc,
}
use local_first_architecture.Base.Int64.{Int64}
use local_first_architecture.Lab.Clock.{before, now}
use local_first_architecture.Lab.Event.{EventId, Event}
use local_first_architecture.Lab.Vector.{VersionVector, seq_of, contains}
use local_first_architecture.Lab.Item.{ItemState, apply}
use local_first_architecture.Lab.Item.Convergence.{SameStamp, IsStamped, SameState, SameState-trans}
use local_first_architecture.Lab.Log.{Log, held, insert_event, high_mark, append_local, next_event}
use local_first_architecture.Lab.Log.Append.{IsMint, next_event-id, next-absent, store_local-some}
use local_first_architecture.Lab.Projector.{start_of, project, maybe_snapshot}
use local_first_architecture.Lab.Projector.Snapshot.{maybe_snapshot-project}
use local_first_architecture.Lab.Projector.Rising.{Rising, Rising-next}
use local_first_architecture.Lab.Node.{Node, blank, settle, emit, get}
use local_first_architecture.Lab.Projector.OneMore.{SameStamp-before, project-append}

-- A `fill` sets the payload alone.
abbrev pub IsFill : (Event → Event) → Type 0
IsFill fill = (e : Event) → ((fill e).id ≡ e.id) × ((fill e).hlc ≡ e.hlc) × ((fill e).sku ≡ e.sku)

module _ {B : Type 0} (marshal : ItemState → B) (unmarshal : B → Option ItemState) where
  abbrev mint_of : Node B → Int64 → String → (Event → Event) → ℕ → Event
  mint_of n reading sku fill s = fill (blank n.id (now n.clk reading).last sku s)

  settle-cases :
      (n after : Node B) (sku : String) (e : Event) (id : EventId)
      → settle marshal unmarshal n sku e ≡ (inr id, after)
      → (log : Log B) × (maybe_snapshot marshal unmarshal n.snapshot_every n.log sku ≡ some log)
        × (after.log ≡ log)
        × (e.id ≡ id)
  unfolding settle
  settle-cases n after sku e id h =
      elim (Option-cases (maybe_snapshot marshal unmarshal n.snapshot_every n.log sku)) [
        | inl bad ↦ absurd (ground (arith, bad))
        | inr (log, fine) ↦ (log, fine, ground (arith, fine), ground (arith, fine))
      ]

  -- An operation that answers with an id has stored an event and settled.
  emit-cases :
      (n after : Node B) (reading : Int64) (sku : String) (fill : Event → Event) (id : EventId)
      → emit marshal unmarshal n reading sku fill ≡ (inr id, after)
      → ((sku == "") ≡ false)
        × (e : Event) × ((append_local n.log (mint_of n reading sku fill)).0 ≡ some e)
        × (settle marshal unmarshal
              (record n {
                clk = now n.clk reading;
                log = (append_local n.log (mint_of n reading sku fill)).1;
              })
              sku
              e
            ≡ (inr id, after))
  unfolding emit
  emit-cases n after reading sku fill id h = elim (Bool-cases (sku == "")) [
    | inl nameless ↦ absurd (ground (arith, nameless))
    | inr named ↦ elim (Option-cases (append_local n.log (mint_of n reading sku fill)).0) [
      | inl bad ↦ absurd (ground (arith, named, bad))
      | inr (e, fine) ↦ (named, e, fine, ground (arith, named, fine))
    ]
  ]

  insert_event-absent :
      (e : Event) (es : List Event) → held e.id es ≡ false → insert_event e es ≡ es ++ (e ∷ [])
  unfolding insert_event
  insert_event-absent e es h = rw h refl

  -- The log behind a stored event: its row at the end, under the next number.
  append_local-some :
      (l : Log B) (node : String) (mint : ℕ → Event) (e : Event)
      → IsMint node mint
      → (append_local l mint).0 ≡ some e
      → (e.id ≡ record { node = node; seq = high_mark node l + 1 })
        × (mint e.id.seq ≡ e)
        × ((append_local l mint).1 ≡ record l { events = l.events ++ (e ∷ []) })
  unfolding append_local next_event
  append_local-some l node mint e m h =
      let (same, after) = store_local-some l (next_event l mint) e h in
      let i : e.id ≡ record { node = node; seq = high_mark node l + 1 } =
        rw (← same) (next_event-id l node mint m) in
      let n : (mint 0).id.node ≡ node = ap (λ (x : EventId). x.node) (m 0) in
      (
        i,
        ap (λ (x : EventId). mint x.seq) i ∙ ap (λ v. mint (high_mark v l + 1)) (sym n) ∙ same,
        after
            ∙ ap (λ (x : Event). record l { events = insert_event x l.events }) same
            ∙ ap (λ (es : List Event). record l { events = es })
                (insert_event-absent e l.events (next-absent l node e i)),
      )

  above-contains :
      (covers : VersionVector) (id : EventId) (node : String) (top : ℕ)
      → id ≡ record { node = node; seq = top + 1 }
      → seq_of node covers ≤ top
      → contains covers id ≡ false
  unfolding contains
  above-contains covers id node top i h = rw i (ground arith)

  get_named :
      (n : Node B) (sku : String)
      → (sku == "") ≡ false
      → get marshal unmarshal n sku ≡ project marshal unmarshal n.log sku
  unfolding get
  get_named n sku named = rw named refl

  -- A local operation that answers with an id shows in the next read, once: Get then reads the state
  -- of before with the operation's event applied, also where a snapshot was written on the way. The
  -- operation is emit with a fill that sets the payload alone, as those of Receive, Pick, SetMeta and
  -- Delete do. The further conditions are that the blob of a state parses back to it, that the SKU's
  -- snapshot covers no number of the node above the highest used one, that no two different stored
  -- events share a timestamp, that each node's timestamps rise with its numbers, and that the new event
  -- is after all of them.
  pub emit-get :
      (n after : Node B) (reading : Int64) (sku : String) (fill : Event → Event) (id : EventId)
      (s : ItemState)
      → ((t : ItemState) → unmarshal (marshal t) ≡ some t)
      → IsFill fill
      → IsStamped n.log.events
      → Each2 Rising n.log.events
      → All (λ x. before x.hlc (now n.clk reading).last ≡ true) n.log.events
      → ((from : ItemState × VersionVector)
          → start_of marshal unmarshal n.log sku ≡ some from
          → seq_of n.id from.1 ≤ high_mark n.id n.log)
      → emit marshal unmarshal n reading sku fill ≡ (inr id, after)
      → get marshal unmarshal n sku ≡ some s
      → (t : ItemState) × (get marshal unmarshal after sku ≡ some t)
        × SameState (apply s (fill (blank n.id (now n.clk reading).last sku id.seq))) t
  emit-get n after reading sku fill id s back fills stamped rising later covered done was =
      let mint = mint_of n reading sku fill in
      let (named, e, stored, settled) = emit-cases n after reading sku fill id done in
      let (i, minted, more) = append_local-some n.log n.id mint e (λ k. (fills _).0) stored in
      let (log, snapped, left, answered) = settle-cases _ after sku e id settled in
      let h : e.hlc ≡ (now n.clk reading).last =
        ap (λ (x : Event). x.hlc) (sym minted) ∙ (fills _).1 in
      let k : e.sku ≡ sku = ap (λ (x : Event). x.sku) (sym minted) ∙ (fills _).2 in
      let stamps : IsStamped (n.log.events ++ (e ∷ [])) =
        Each2-snoc SameStamp e n.log.events stamped
          (All-map (λ x b. SameStamp-before x e (rw h b)) n.log.events later) in
      let at : e.id.seq ≡ high_mark e.id.node n.log + 1 =
        ap (λ (x : EventId). x.seq) i
        ∙ ap (λ v. high_mark v n.log + 1) (sym (ap (λ (x : EventId). x.node) i)) in
      let rises : Each2 Rising (n.log.events ++ (e ∷ [])) =
        Rising-next n.log e at (All-map (λ x b. rw h b) n.log.events later) rising in
      let read : project marshal unmarshal n.log sku ≡ some s = sym (get_named n sku named) ∙ was in
      let (t, now_reads, same) =
        project-append marshal unmarshal n.log sku e s k
          (λ from st. above-contains from.1 e.id n.id (high_mark n.id n.log) i (covered from st))
          stamps read in
      let (u, then_reads, same') =
        maybe_snapshot-project marshal unmarshal n.snapshot_every
          (record n.log { events = n.log.events ++ (e ∷ []) }) log sku sku t back stamps rises
          (rw (← more) snapped) now_reads in
      (
        u,
        get_named after sku named
            ∙ ap (λ (l : Log B). project marshal unmarshal l sku) left
            ∙ then_reads,
        SameState-trans (apply s (mint id.seq)) t u (rw (← answered, minted) same) same',
      )
