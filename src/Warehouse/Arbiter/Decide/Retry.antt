-- ===== src/Warehouse/Arbiter/Decide/Retry.antt =====
-- Arbitrate again, after whatever other calls: the decision stands, and nothing changes.
use mathlib.Core.Path.{subst}
use local_first_architecture.Base.{
  ◌≡◌, refl, sym, ap, ◌∙◌, Option, none, some, List, [], ◌∷◌, ◌⊎◌, inl, inr, arith, Bool-cases,
  Option-cases, Sum-cases, same_refl, ◌==◌, false,
}
use local_first_architecture.Base.Table.{lookup, lookup-insert}
use local_first_architecture.Warehouse.World.{World}
use local_first_architecture.Warehouse.Event.{EventId, id_comparable, Envelope}
use local_first_architecture.Warehouse.Event.Seal.{Codec, decode_payload}
use local_first_architecture.Warehouse.Central.{
  accepted, rejected, Decision, Memory, record_decision, decision,
}
use local_first_architecture.Warehouse.Central.Log.{append, compensations_of, enqueue}
use local_first_architecture.Warehouse.Arbiter.{Rejection, validate}
use local_first_architecture.Warehouse.Arbiter.Decide.{
  ArbiterError, not_decodable, not_dispatched, first_id, record_event, fan_out, compensate,
  conclude, decide, arbitrate,
}
use local_first_architecture.Warehouse.Arbiter.Decide.Books.{
  append-SameBooks, record_event-decisions,
}
use local_first_architecture.Warehouse.Arbiter.Decide.Chain.{fan_out-SameBooks, conclude-decision}

module _ {w : World} (codec : Codec w) where
  -- What an answer with a decision leaves: the decision stands in the store.
  abbrev Stands : EventId → (ArbiterError ⊎ (Decision × List (Envelope w))) × Memory w → Type 0
  Stands id out =
      (d : Decision) (comps : List (Envelope w))
      → out.0 ≡ inr (d, comps)
      → decision out.1 id ≡ some d

  record_decision-found :
      (d : Decision) (s : Memory w) → decision (record_decision d s) d.event_id ≡ some d
  unfolding record_decision
  record_decision-found d s =
      ground (arith, lookup-insert d.event_id d.event_id d s.decisions, same_refl d.event_id)

  decided-Stands :
      (d : Decision) (comps : List (Envelope w)) (s : Memory w)
      → Stands d.event_id (inr (d, comps), record_decision d s)
  decided-Stands d comps s d' comps' h =
      let same : d ≡ d' = cc h in record_decision-found d s ∙ ap some same

  failed-Stands : (id : EventId) (e : ArbiterError) (s : Memory w) → Stands id (inl e, s)
  failed-Stands id e s d comps h = absurd (cc h)

  conclude-Stands :
      (now : w.Time) (env : Envelope w) (r : Option (Rejection w)) (s : Memory w)
      → Stands env.id (conclude codec now env r s)
  unfolding conclude
  conclude-Stands now env none s =
      decided-Stands
        (record { event_id = env.id; verdict = accepted; reason = none; compensating_id = none }) []
        s
  conclude-Stands now env (some r) s =
      let out = compensate codec now env r s in
      elim (Sum-cases (out.0)) [
        | inl (e, bad) ↦
            let step : conclude codec now env (some r) s ≡ (inl e, out.1) =
              rw (conclude, bad) refl in
            subst (Stands env.id) (sym step) (failed-Stands env.id e out.1)
        | inr (comps, fine) ↦
            let d : Decision = record {
              event_id = env.id;
              verdict = rejected;
              reason = some r.reason;
              compensating_id = first_id comps;
            } in
            let t = enqueue env.id.node_id comps out.1 in
            let step : conclude codec now env (some r) s ≡ (inr (d, comps), record_decision d t) =
              rw (conclude, fine) refl in
            subst (Stands env.id) (sym step) (decided-Stands d comps t)
      ]

  decide-Stands :
      (now : w.Time) (env : Envelope w) (s : Memory w) → Stands env.id (decide codec now env s)
  unfolding decide
  decide-Stands now env s =
      let s1 = (append (env ∷ []) s).1 in
      elim (Sum-cases (decode_payload codec env)) [
        | inl (e, bad) ↦
            let step : decide codec now env s ≡ (inl (not_decodable e), s1) =
              rw (decide, bad) refl in
            subst (Stands env.id) (sym step) (failed-Stands env.id (not_decodable e) s1)
        | inr (p, fine) ↦
            let rej = validate s1 env.id p in
            let done = record_event env p rej s1 in
            elim (Bool-cases (done.0)) [
              | inl bad ↦
                  let step : decide codec now env s ≡ (inl not_dispatched, done.1) =
                    rw (decide, fine, bad) refl in
                  subst (Stands env.id) (sym step) (failed-Stands env.id not_dispatched done.1)
              | inr good ↦
                  let step : decide codec now env s
                      ≡ conclude codec now env rej (fan_out env p rej done.1) =
                    rw (decide, fine, good) refl in
                  subst (Stands env.id) (sym step)
                    (conclude-Stands now env rej (fan_out env p rej done.1))
            ]
      ]

  arbitrate_decided :
      (later : w.Time) (env : Envelope w) (t : Memory w) (d : Decision)
      → decision t env.id ≡ some d
      → arbitrate codec later env t ≡ (inr (d, compensations_of t env.id), t)
  unfolding arbitrate
  arbitrate_decided later env t d there = rw (arbitrate, there) refl

  arbitrate-Stands :
      (now : w.Time) (env : Envelope w) (s : Memory w) → Stands env.id (arbitrate codec now env s)
  unfolding arbitrate
  arbitrate-Stands now env s = elim (Option-cases (decision s env.id)) [
    | inl new ↦
        let step : arbitrate codec now env s ≡ decide codec now env s = rw (arbitrate, new) refl in
        subst (Stands env.id) (sym step) (decide-Stands now env s)
    | inr (d, there) ↦
        let step = arbitrate_decided now env s d there in
        subst (Stands env.id) (sym step)
          (λ d' comps h. let same : d ≡ d' = cc h in there ∙ ap some same)
  ]

  decide-keeps :
      (now : w.Time) (env : Envelope w) (s : Memory w) (id : EventId)
      → (env.id == id) ≡ false
      → decision (decide codec now env s).1 id ≡ decision s id
  unfolding decide
  decide-keeps now env s id other =
      let s1 = (append (env ∷ []) s).1 in
      let kept : decision s1 id ≡ decision s id =
        ap (lookup id) (append-SameBooks (env ∷ []) s).decisions_kept in
      elim (Sum-cases (decode_payload codec env)) [
        | inl (e, bad) ↦ rw (decide, bad) kept
        | inr (p, fine) ↦
            let rej = validate s1 env.id p in
            let done = record_event env p rej s1 in
            let counted : decision done.1 id ≡ decision s id =
              ap (lookup id) (record_event-decisions env p rej s1) ∙ kept in
            elim (Bool-cases (done.0)) [
              | inl bad ↦ rw (decide, fine, bad) counted
              | inr good ↦
                  let told = fan_out env p rej done.1 in
                  let step : decide codec now env s ≡ conclude codec now env rej told =
                    rw (decide, fine, good) refl in
                  ap (λ out. decision out.1 id) step
                  ∙ conclude-decision codec now env rej told id other
                  ∙ ap (lookup id) (fan_out-SameBooks env p rej done.1).decisions_kept
                  ∙ counted
            ]
      ]

  -- A decision stands, whatever event is arbitrated.
  arbitrate-keeps :
      (now : w.Time) (env : Envelope w) (s : Memory w) (id : EventId) (d : Decision)
      → decision s id ≡ some d
      → decision (arbitrate codec now env s).1 id ≡ some d
  unfolding arbitrate
  arbitrate-keeps now env s id d there = elim (Option-cases (decision s env.id)) [
    | inr (d', before) ↦
        ap (λ out. decision out.1 id) (arbitrate_decided now env s d' before) ∙ there
    | inl new ↦ elim (Bool-cases (env.id == id)) [
      | inl same ↦
          let e : env.id ≡ id = (id_comparable.same_iff env.id id).0 same in
          absurd (cc (new, there, e))
      | inr other ↦
          let step : arbitrate codec now env s ≡ decide codec now env s =
            rw (arbitrate, new) refl in
          ap (λ out. decision out.1 id) step ∙ decide-keeps now env s id other ∙ there
    ]
  ]

  -- The store after a history of calls.
  abbrev pub arbitrate_all : List (w.Time × Envelope w) → Memory w → Memory w
  arbitrate_all [] s = s
  arbitrate_all ((now, env) ∷ calls) s = arbitrate_all calls (arbitrate codec now env s).1

  arbitrate_all-keeps :
      (calls : List (w.Time × Envelope w)) (s : Memory w) (id : EventId) (d : Decision)
      → decision s id ≡ some d
      → decision (arbitrate_all calls s) id ≡ some d
  arbitrate_all-keeps [] s id d there = there
  arbitrate_all-keeps ((now, env) ∷ calls) s id d there =
      arbitrate_all-keeps calls (arbitrate codec now env s).1 id d
        (arbitrate-keeps now env s id d there)

  -- Arbitrate is safe to retry: once it has given a decision on an event, a later call on that event, at
  -- any instant and after any history of calls on whatever events, gives the same decision with the
  -- compensations that the log then holds, and changes nothing: no event is emitted, no queue grows and
  -- no quantity is counted again.
  pub arbitrate_again :
      (now later : w.Time) (env : Envelope w) (s : Memory w) (d : Decision)
      (comps : List (Envelope w)) (between : List (w.Time × Envelope w))
      → let out = arbitrate codec now env s in
        let t = arbitrate_all between out.1 in
        out.0 ≡ inr (d, comps)
        → arbitrate codec later env t ≡ (inr (d, compensations_of t env.id), t)
  arbitrate_again now later env s d comps between h =
      let out = arbitrate codec now env s in
      arbitrate_decided later env (arbitrate_all between out.1) d
        (arbitrate_all-keeps between out.1 env.id d (arbitrate-Stands now env s d comps h))
