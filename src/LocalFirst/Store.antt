-- ===== src/LocalFirst/Store.antt =====
-- localfirst-go/eventlog/record.go and store.go: one node's log with the projection that it keeps in
-- step. A validator and a projector are the domain's, and arguments here, `none` for nil. A commit
-- closure is the projection's next state. The database's own failures are left out.
pub mod Consistent
pub mod Query
mod Examples
use Prim.Native.Nat.{max}
use local_first_architecture.Base.{
  ℕ, ◌+◌, String, Bool, true, false, ◌&&◌, ◌||◌, Option, none, some, List, [], ◌∷◌, ◌++◌, ◌⊎◌, inl,
  inr, nat_beq, ltb, ◌==◌, text_comparable, if◌then◌else◌,
}
use local_first_architecture.Base.Table.{Table, lookup_or, insert}
use local_first_architecture.LocalFirst.Clock.{Hlc}

pub record Record (P : Type 0) : Type 0 where
  pub node_id : String
  pub seq : ℕ
  pub clock : Hlc
  pub typ : String
  pub payload : P

pub record Store (P : Type 0) : Type 0 where
  pub node_id : String
  pub records : List (Record P)  -- the table
  pub cursors : Table String ℕ
  pub next_seq : ℕ

module _ {P : Type 0} where
  abbrev pub same_key : Record P → Record P → Bool
  same_key r q = r.node_id == q.node_id && nat_beq r.seq q.seq

  unfoldable pub is_held : Record P → List (Record P) → Bool
  is_held r [] = false
  is_held r (q ∷ qs) = same_key q r || is_held r qs

  -- exec: INSERT OR IGNORE
  unfoldable pub exec : Record P → List (Record P) → List (Record P)
  exec r rs = if is_held r rs then rs else rs ++ (r ∷ [])

  -- SELECT MAX(seq) FROM records WHERE node_id = ?, with 0 for no row
  unfoldable pub highest_seq : String → List (Record P) → ℕ
  highest_seq node [] = 0
  highest_seq node (r ∷ rs) =
      let rest = highest_seq node rs in if r.node_id == node then max r.seq rest else rest

  -- Open, on the tables that the file holds
  unfoldable pub open_store : String → List (Record P) → Table String ℕ → Store P
  open_store node rs cursors = record {
    node_id = node;
    records = rs;
    cursors = cursors;
    next_seq = highest_seq node rs;
  }

  unfoldable pub cursor : Store P → String → ℕ
  cursor s peer = lookup_or 0 peer s.cursors

  unfoldable pub set_cursor : Store P → String → ℕ → Store P
  set_cursor s peer seq = record s { cursors = insert peer seq s.cursors }

  -- The record that Append makes.
  abbrev pub next_record : Store P → String → P → Hlc → Record P
  next_record s typ payload ts = record {
    node_id = s.node_id;
    seq = s.next_seq + 1;
    clock = ts;
    typ = typ;
    payload = payload;
  }

  -- The new `highestOwn`.
  abbrev pub raise_own : Store P → ℕ → Record P → ℕ
  raise_own s highest r = if r.node_id == s.node_id && ltb highest r.seq then r.seq else highest

pub data AppendError (E : Type 0) : Type 0 where
  rejected : E → AppendError E
  not_projected : AppendError E

module _ {P E T : Type 0} where
  abbrev pub check_with : Option (T → Record P → Option E) → T → Record P → Option E
  check_with none t r = none
  check_with (some v) t r = v t r

module _ {P T : Type 0} where
  abbrev pub project_with : Option (T → Record P → Option T) → T → Record P → Option T
  project_with none t r = some t
  project_with (some p) t r = p t r

  -- s.mergeOne(r, p): whether the record is new, or `none` if it does not project
  unfoldable pub merge_one :
      Store P → T → Record P → Option (T → Record P → Option T) → Option (Bool × Store P × T)
  merge_one s t r p =
      if is_held r s.records then some (false, s, t) else elim (project_with p t r) [
        | none ↦ none
        | some t' ↦ some (true, record s { records = exec r s.records }, t')
      ]

  -- The loop of Merge: the records inserted, whether an error stopped it, the store and the projection.
  unfoldable pub merge_loop :
      ℕ
      → ℕ
      → Store P
      → T
      → List (Record P)
      → Option (T → Record P → Option T)
      → ℕ × Bool × Store P × T
  merge_loop inserted highest s t [] p = (inserted, false, s, t)
  merge_loop inserted highest s t (r ∷ rs) p = elim (merge_one s t r p) [
    | none ↦ (inserted, true, s, t)
    | some (new, s', t') ↦ elim new [
      | false ↦ merge_loop inserted highest s t rs p
      | true ↦
          merge_loop (inserted + 1) (raise_own s highest r)
            (record s' { next_seq = raise_own s highest r }) t' rs p
    ]
  ]

  -- s.Merge(recs, p)
  unfoldable pub merge :
      Store P → T → List (Record P) → Option (T → Record P → Option T) → ℕ × Bool × Store P × T
  merge s t rs p = merge_loop 0 s.next_seq s t rs p

-- s.Append(typ, payload, ts, v, p): check, insert, project, commit
unfoldable pub append :
    {P E T : Type 0}
    → Store P
    → T
    → String
    → P
    → Hlc
    → Option (T → Record P → Option E)
    → Option (T → Record P → Option T)
    → (AppendError E ⊎ Record P) × Store P × T
append s t typ payload ts v p = elim (check_with v t (next_record s typ payload ts)) [
  | some e ↦ (inl (AppendError.rejected e), s, t)
  | none ↦ elim (project_with p t (next_record s typ payload ts)) [
    | none ↦ (inl AppendError.not_projected, s, t)
    | some t' ↦ (
      inr (next_record s typ payload ts),
      record s {
        records = exec (next_record s typ payload ts) s.records;
        next_seq = s.next_seq + 1;
      },
      t',
    )
  ]
]
