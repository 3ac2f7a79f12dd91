-- ===== src/LocalFirst/Store/Consistent.antt =====
-- Append and Merge keep the store consistent: one row to a key, the next number behind the node's
-- highest one, and a projection that is the replay of the log.
use Prim.Native.Nat.{max}
use local_first_architecture.Base.{
  ℕ, ◌+◌, ◌≤◌, String, ◌≡◌, refl, ap, ◌∙◌, sym, inl, inr, true, false, ◌||◌, Option, none, some,
  List, [], ◌∷◌, ◌++◌, ◌==◌, text_comparable, if◌then◌else◌, arith, Bool-cases, Option-cases,
  same_refl,
}
use local_first_architecture.LocalFirst.Clock.{Hlc}
use local_first_architecture.LocalFirst.Store.{
  Record, Store, is_held, exec, highest_seq, AppendError, check_with, next_record, project_with,
  merge_one, raise_own, merge_loop, merge, append,
}

module _ {P : Type 0} where
  -- The primary key: no two rows have one.
  abbrev pub IsKeyed : List (Record P) → Type 0
  IsKeyed [] = Unit
  IsKeyed (r ∷ rs) = (is_held r rs ≡ false) × IsKeyed rs

  is_held-append :
      (q : Record P) (xs ys : List (Record P))
      → is_held q (xs ++ ys) ≡ (is_held q xs || is_held q ys)
  unfolding is_held
  is_held-append q [] ys = refl
  is_held-append q (x ∷ xs) ys = ground (arith, is_held-append q xs ys)

  IsKeyed-append :
      (r : Record P) (rs : List (Record P))
      → IsKeyed rs
      → is_held r rs ≡ false
      → IsKeyed (rs ++ (r ∷ []))
  unfolding is_held
  IsKeyed-append r [] k h = (refl, tt)
  IsKeyed-append r (q ∷ qs) k h = ground (
    arith,
    IsKeyed-append r qs k.1,
    is_held-append q qs (r ∷ []),
    text_comparable.same_iff q.node_id r.node_id,
    text_comparable.same_iff r.node_id q.node_id,
  )

  highest_seq-append :
      (node : String) (r : Record P) (rs : List (Record P))
      → highest_seq node (rs ++ (r ∷ []))
        ≡ (if r.node_id == node then max (highest_seq node rs) r.seq else highest_seq node rs)
  unfolding highest_seq
  highest_seq-append node r [] = ground arith
  highest_seq-append node r (q ∷ qs) = elim (Bool-cases (q.node_id == node)) [
    | inl mine ↦ rw mine (
        rw (highest_seq-append node r qs) (elim (Bool-cases (r.node_id == node)) [
          | inl new ↦ rw new (omega arith)
          | inr other ↦ rw other refl
        ]))
    | inr theirs ↦ rw theirs (highest_seq-append node r qs)
  ]

  is_held-highest_seq :
      (r : Record P) (rs : List (Record P)) → is_held r rs ≡ true → r.seq ≤ highest_seq r.node_id rs
  unfolding is_held highest_seq
  is_held-highest_seq r [] h = cc h
  is_held-highest_seq r (q ∷ qs) h =
      ground (arith, is_held-highest_seq r qs, text_comparable.same_iff q.node_id r.node_id)

  exec-absent :
      (r : Record P) (rs : List (Record P)) → is_held r rs ≡ false → exec r rs ≡ rs ++ (r ∷ [])
  unfolding exec
  exec-absent r rs h = rw h refl

module _ {P T : Type 0} (p : Option (T → Record P → Option T)) where
  -- The projection of a log, record by record in the order of insertion.
  abbrev pub replay : T → List (Record P) → Option T
  replay t [] = some t
  replay t (r ∷ rs) = elim (project_with p t r) [ none ↦ none | some t' ↦ replay t' rs ]

  replay-step :
      (t u : T) (q : Record P) (qs : List (Record P))
      → project_with p t q ≡ some u
      → replay t (q ∷ qs) ≡ replay u qs
  replay-step t u q qs k = rw (k, replay) refl

  replay-one :
      (t t' : T) (r : Record P) → project_with p t r ≡ some t' → replay t (r ∷ []) ≡ some t'
  replay-one t t' r k = ground (arith, k)

  replay-append :
      (t0 t t' : T) (r : Record P) (rs : List (Record P))
      → replay t0 rs ≡ some t
      → project_with p t r ≡ some t'
      → replay t0 (rs ++ (r ∷ [])) ≡ some t'
  replay-append t0 t t' r [] h k = let same : t0 ≡ t = cc h in rw same (replay-one t t' r k)
  replay-append t0 t t' r (q ∷ qs) h k = elim (Option-cases (project_with p t0 q)) [
    | inl bad ↦ absurd (ground (arith, bad))
    | inr (u, fine) ↦
        replay-step t0 u q (qs ++ (r ∷ [])) fine
        ∙ replay-append u t t' r qs (sym (replay-step t0 u q qs fine) ∙ h) k
  ]

  pub record IsConsistent (t0 : T) (s : Store P) (t : T) : Type 0 where
    pub keyed : IsKeyed s.records
    pub numbered : s.next_seq ≡ highest_seq s.node_id s.records
    pub projected : replay t0 s.records ≡ some t

  -- One more record that is not held, and projects.
  grown :
      (t0 : T) (s : Store P) (t t' : T) (r : Record P) (next : ℕ)
      → IsConsistent t0 s t
      → is_held r s.records ≡ false
      → project_with p t r ≡ some t'
      → next ≡ highest_seq s.node_id (s.records ++ (r ∷ []))
      → IsConsistent t0 (record s { records = exec r s.records; next_seq = next }) t'
  grown t0 s t t' r next c absent fine up = rw (exec-absent r s.records absent) (record {
    keyed = IsKeyed-append r s.records c.keyed absent;
    numbered = up;
    projected = replay-append t0 t t' r s.records c.projected fine;
  })

  next-absent :
      (t0 : T) (s : Store P) (t : T) (r : Record P)
      → IsConsistent t0 s t
      → r.node_id ≡ s.node_id
      → r.seq ≡ s.next_seq + 1
      → is_held r s.records ≡ false
  next-absent t0 s t r c mine next = elim (Bool-cases (is_held r s.records)) [
    | inr absent ↦ absent
    | inl present ↦ absurd (
        omega (
          arith,
          is_held-highest_seq r s.records present,
          ap (λ n. highest_seq n s.records) mine,
          c.numbered,
          next,
        ))
  ]

  raise_own-next :
      (t0 : T) (s : Store P) (t : T) (r : Record P)
      → IsConsistent t0 s t
      → raise_own s s.next_seq r ≡ highest_seq s.node_id (s.records ++ (r ∷ []))
  raise_own-next t0 s t r c = ground (arith, highest_seq-append s.node_id r s.records, c.numbered)

  merge_loop-IsConsistent :
      (t0 : T) (rs : List (Record P)) (n : ℕ) (s : Store P) (t : T)
      → IsConsistent t0 s t
      → let m = merge_loop n s.next_seq s t rs p in IsConsistent t0 m.2 m.3
  unfolding merge_loop merge_one
  merge_loop-IsConsistent t0 [] n s t c = c
  merge_loop-IsConsistent t0 (r ∷ rs) n s t c = elim (Bool-cases (is_held r s.records)) [
    | inl old ↦ rw (old, merge_loop) (merge_loop-IsConsistent t0 rs n s t c)
    | inr new ↦ elim (Option-cases (project_with p t r)) [
      | inl bad ↦ rw (new, bad, merge_loop) c
      | inr (t', fine) ↦
          rw (new, fine, merge_loop)
            (merge_loop-IsConsistent t0 rs (n + 1)
              (record s { records = exec r s.records; next_seq = raise_own s s.next_seq r }) t'
              (grown t0 s t t' r (raise_own s s.next_seq r) c new fine (raise_own-next t0 s t r c)))
    ]
  ]

  -- Merge keeps the store consistent, whatever the batch carries and also where a record that does not
  -- project stops it half-way: no key is stored twice, the next number stays behind the node's highest
  -- one, and the projection is the replay of the records in the order in which they came in.
  pub merge-IsConsistent :
      (t0 : T) (s : Store P) (t : T) (rs : List (Record P))
      → IsConsistent t0 s t
      → let m = merge s t rs p in IsConsistent t0 m.2 m.3
  unfolding merge
  merge-IsConsistent t0 s t rs c = merge_loop-IsConsistent t0 rs 0 s t c

  module _ {E : Type 0} where
    -- Append keeps the store consistent on each of its paths: no key is stored twice, the next number
    -- stays behind the node's highest one, and the projection is the replay of the log. A rejected or
    -- not projected record leaves the store and the projection as they were.
    pub append-IsConsistent :
        (t0 : T) (s : Store P) (t : T) (typ : String) (payload : P) (ts : Hlc)
        (v : Option (T → Record P → Option E))
        → IsConsistent t0 s t
        → let a = append s t typ payload ts v p in
          IsConsistent t0 a.1 a.2 × ((e : AppendError E) → a.0 ≡ inl e → (a.1 ≡ s) × (a.2 ≡ t))
    unfolding append
    append-IsConsistent t0 s t typ payload ts v c =
        let r = next_record s typ payload ts in
        let absent = next-absent t0 s t r c refl refl in
        elim (Option-cases (check_with v t r)) [
          | inr (e, refused) ↦ rw (refused, append) (c, λ x k. (refl, refl))
          | inl ok ↦ elim (Option-cases (project_with p t r)) [
            | inl bad ↦ rw (ok, bad, append) (c, λ x k. (refl, refl))
            | inr (t', fine) ↦
                rw (ok, fine, append)
                  (
                    grown t0 s t t' r (s.next_seq + 1) c absent fine (
                        ground (
                          arith,
                          highest_seq-append s.node_id r s.records,
                          c.numbered,
                          same_refl s.node_id,
                        )),
                    λ x k. absurd (cc k),
                  )
          ]
        ]
