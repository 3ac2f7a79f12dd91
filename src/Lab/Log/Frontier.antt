-- ===== src/Lab/Log/Frontier.antt =====
-- The version vector of a log reports gap-free prefixes.
use Prim.Native.Nat.{max}
use local_first_architecture.Base.{
  ℕ, zero, suc, ◌+◌, ◌≤◌, ◌<◌, String, ◌≡◌, refl, ap, ◌⊎◌, inl, inr, Bool, true, false, List, [],
  ◌∷◌, nat_beq, ltb, filter, ◌==◌, text_comparable, if◌then◌else◌, arith, Bool-cases, nat_beq_iff,
  ◌-◌,
}
use local_first_architecture.Lab.Event.{EventId, Event}
use local_first_architecture.Lab.Vector.{VersionVector, seq_of}
use local_first_architecture.Lab.Vector.Lattice.{seq_of-observe}
use local_first_architecture.Lab.Log.{
  Log, same_id, held, row_number, in_run, raise_all, version_vector,
}

-- The primary key: no two rows have one id.
abbrev pub IsKeyed : List Event → Type 0
IsKeyed [] = Unit
IsKeyed (e ∷ es) = (held e.id es ≡ false) × IsKeyed es

abbrev row : String → ℕ → EventId
row node s = record { node = node; seq = s }

-- The next row of the run is counted once, if it is there.
row_number-suc :
    (w : ℕ) (node : String) (s : ℕ) (es : List Event)
    → IsKeyed es
    → w ≤ s
    → row_number w node (suc s) es ≡ (
        if held (row node (suc s)) es then suc (row_number w node s es) else row_number w node s es)
unfolding row_number held same_id
row_number-suc w node s [] k h = refl
row_number-suc w node s (e ∷ es) k h =
    ground (arith, row_number-suc w node s es k.1 h, text_comparable.same_iff e.id.node node)

row_number-start : (w : ℕ) (node : String) (es : List Event) → row_number w node (0 + w) es ≡ 0
unfolding row_number
row_number-start w node [] = refl
row_number-start w node (e ∷ es) = ground (arith, row_number-start w node es)

module _ (w : ℕ) (node : String) (es : List Event) (keyed : IsKeyed es) where
  row_number-le : (k : ℕ) → row_number w node (k + w) es ≤ k
  row_number-le zero = omega (arith, row_number-start w node es)
  row_number-le (suc k) = ground (arith, row_number-suc w node (k + w) es keyed, row_number-le k)

  -- A full count means that every row up to there is held.
  full-held :
      (k s : ℕ) → row_number w node (k + w) es ≡ k → w < s → s ≤ k + w → held (row node s) es ≡ true
  full-held zero s h lo hi = absurd (omega arith)
  full-held (suc k) s h lo hi = elim (Bool-cases (nat_beq s (suc (k + w)))) [
    | inl last ↦ ground (arith, row_number-suc w node (k + w) es keyed, row_number-le k)
    | inr before_last ↦
        full-held k s (ground (arith, row_number-suc w node (k + w) es keyed, row_number-le k)) lo
          (ground arith)
  ]

  held-full :
      (k : ℕ)
      → ((s : ℕ) → w < s → s ≤ k + w → held (row node s) es ≡ true)
      → row_number w node (k + w) es ≡ k
  held-full zero h = row_number-start w node es
  held-full (suc k) h = ground (
    arith,
    row_number-suc w node (k + w) es keyed,
    h (suc (k + w)),
    held-full k (λ s lo hi. h s lo (omega arith)),
  )

module _ (p : Event → Bool) (vv : VersionVector) (node : String) where
  -- A number that comes from the vector, or from a row that passes the test.
  abbrev Source : ℕ → Type 0
  Source n =
      (n ≡ seq_of node vv) ⊎ ((e : Event) × (p e ≡ true) × (e.id.node ≡ node) × (n ≡ e.id.seq))

  Source-max :
      (n : ℕ) (e : Event)
      → p e ≡ true
      → Source n
      → Source (if e.id.node == node then max n e.id.seq else n)
  Source-max n e taken c = elim (Bool-cases (e.id.node == node)) [
    | inr other ↦ rw other c
    | inl mine ↦ rw mine (elim (Bool-cases (ltb n e.id.seq)) [
      | inl above ↦ inr (e, taken, (text_comparable.same_iff e.id.node node).0 mine, ground arith)
      | inr below ↦ let same : max n e.id.seq ≡ n = ground arith in rw same c
    ])
  ]

  raise_all-Source : (es : List Event) → Source (seq_of node (raise_all (filter p es) vv))
  unfolding raise_all
  raise_all-Source [] = inl refl
  raise_all-Source (e ∷ es) = elim (Bool-cases (p e)) [
    | inr skipped ↦ rw skipped (raise_all-Source es)
    | inl taken ↦ rw taken (
        rw (seq_of-observe (raise_all (filter p es) vv) e.id node)
          (Source-max (seq_of node (raise_all (filter p es) vv)) e taken (raise_all-Source es)))
  ]

  raise_all-ge : (es : List Event) → seq_of node vv ≤ seq_of node (raise_all (filter p es) vv)
  unfolding raise_all
  raise_all-ge [] = omega arith
  raise_all-ge (e ∷ es) =
      ground (arith, raise_all-ge es, seq_of-observe (raise_all (filter p es) vv) e.id node)

  raise_all-held :
      (s : ℕ) (es : List Event)
      → ((e : Event) → e.id ≡ row node s → p e ≡ true)
      → held (row node s) es ≡ true
      → s ≤ seq_of node (raise_all (filter p es) vv)
  unfolding raise_all held same_id
  raise_all-held s [] all h = cc
  raise_all-held s (e ∷ es) all h = ground (
    arith,
    raise_all-held s es all,
    seq_of-observe (raise_all (filter p es) vv) e.id node,
    all e,
    text_comparable.same_iff e.id.node node,
  )

module _ {B : Type 0} (l : Log B) (node : String) (keyed : IsKeyed l.events) where
  abbrev mark : ℕ
  mark = seq_of node l.watermark

  run_row :
      (e : Event)
      → e.id.node ≡ node
      → in_run l.watermark l.events e ≡ true
      → (row_number mark node e.id.seq l.events + mark ≡ e.id.seq) × (mark < e.id.seq)
  unfolding in_run
  run_row e n r = ground arith

  row_run :
      (s : ℕ) (e : Event)
      → row_number mark node s l.events + mark ≡ s
      → mark < s
      → e.id ≡ row node s
      → in_run l.watermark l.events e ≡ true
  unfolding in_run
  row_run s e full above i = ground arith

  below-held :
      (s : ℕ) → mark < s → s ≤ seq_of node (version_vector l) → held (row node s) l.events ≡ true
  unfolding version_vector
  below-held s lo hi =
      elim (raise_all-Source (in_run l.watermark l.events) l.watermark node l.events) [
        | inl none_above ↦ absurd (omega arith)
        | inr (e, r, n, top) ↦
            let (full, above) = run_row e n r in
            full-held mark node l.events keyed (row_number mark node e.id.seq l.events) s
              (ap (λ (t : ℕ). row_number mark node t l.events) full) lo (omega arith)
      ]

  mark-le : mark ≤ seq_of node (version_vector l)
  unfolding version_vector
  mark-le = raise_all-ge (in_run l.watermark l.events) l.watermark node l.events

  -- A held row next to the prefix would lengthen the run.
  run-le :
      (s : ℕ)
      → row_number mark node s l.events + mark ≡ s
      → mark < s
      → held (row node s) l.events ≡ true
      → s ≤ seq_of node (version_vector l)
  unfolding version_vector
  run-le s full above h =
      raise_all-held (in_run l.watermark l.events) l.watermark node s l.events
        (λ e i. row_run s e full above i) h

  next_full :
      (s : ℕ)
      → s ≡ suc (seq_of node (version_vector l))
      → held (row node s) l.events ≡ true
      → row_number mark node s l.events + mark ≡ s
  next_full s next h =
      let back : (s - mark) + mark ≡ s = omega (arith, mark-le) in
      let full : row_number mark node ((s - mark) + mark) l.events ≡ s - mark =
        held-full mark node l.events keyed (s - mark) (λ r lo hi. reached r lo (omega arith)) in
      omega (arith, full, ap (λ (t : ℕ). row_number mark node t l.events) back)
    where
      reached : (r : ℕ) → mark < r → r ≤ s → held (row node r) l.events ≡ true
      reached r lo hi = elim (Bool-cases (nat_beq r s)) [
        | inl last ↦ rw ((nat_beq_iff r s).0 last) h
        | inr earlier ↦ below-held r lo (ground arith)
      ]

  next_absent : held (row node (suc (seq_of node (version_vector l)))) l.events ≡ false
  next_absent =
      let s = suc (seq_of node (version_vector l)) in
      elim (Bool-cases (held (row node s) l.events)) [
        | inr absent ↦ absent
        | inl present ↦ absurd (
            omega (
              arith,
              mark-le,
              run-le s (next_full s refl present) (omega (arith, mark-le)) present,
            ))
      ]

-- The version vector reports, of each node, the end of a gap-free run of held events: it is no
-- less than the node's compaction watermark, every event of the node above the watermark and up
-- to it is held, and the next one is not. The condition is the table's primary key.
pub version_vector-gap_free :
    {B : Type 0} (l : Log B) (node : String)
    → IsKeyed l.events
    → let f = seq_of node (version_vector l) in
      (seq_of node l.watermark ≤ f)
      × ((s : ℕ)
          → seq_of node l.watermark < s
          → s ≤ f
          → held (record { node = node; seq = s }) l.events ≡ true)
      × (held (record { node = node; seq = suc f }) l.events ≡ false)
version_vector-gap_free l node keyed =
    (mark-le l node keyed, below-held l node keyed, next_absent l node keyed)
