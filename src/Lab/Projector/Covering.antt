-- ===== src/Lab/Projector/Covering.antt =====
-- The loop of MaybeSnapshot as it is over rows that are skipped once, at its start: what it folds in,
-- and the coverage that it leaves.

use mathlib.Core.Path.{subst}
use local_first_architecture.Base.{
  ◌≤◌, String, ◌≡◌, refl, sym, ◌⊎◌, inl, inr, Bool, true, false, not, List, [], ◌∷◌, filter, ltb,
  if◌then◌else◌, text_comparable, arith, Bool-cases, All, same_refl,
}
use local_first_architecture.Lab.Event.{Event}
use local_first_architecture.Lab.Vector.{VersionVector, seq_of, contains, observe}
use local_first_architecture.Lab.Vector.Lattice.{seq_of-observe}
use local_first_architecture.Lab.Item.{ItemState, apply, fold}

-- The loop with no test against the coverage that it raises.
unfoldable pub fold_fixed :
    VersionVector → ItemState → VersionVector → List Event → ItemState × VersionVector
fold_fixed frontier state covers [] = (state, covers)
fold_fixed frontier state covers (e ∷ es) =
    let skipped = fold_fixed frontier state covers es in
    let taken = fold_fixed frontier (apply state e) (observe covers e.id) es in
    if ltb (seq_of e.id.node frontier) e.id.seq then skipped else taken

module _ (frontier : VersionVector) where
  -- Whether the loop folds an event in.
  abbrev pub taken : Event → Bool
  taken e = not (ltb (seq_of e.id.node frontier) e.id.seq)

  pub fold_fixed-fold :
      (es : List Event) (s : ItemState) (covers : VersionVector)
      → (fold_fixed frontier s covers es).0 ≡ fold s (filter taken es)
  unfolding fold_fixed fold
  fold_fixed-fold [] s covers = refl
  fold_fixed-fold (e ∷ es) s covers =
      ground
        (arith, fold_fixed-fold es s covers, fold_fixed-fold es (apply s e) (observe covers e.id))

  pub covers-ge :
      (n : String) (es : List Event) (s : ItemState) (covers : VersionVector)
      → seq_of n covers ≤ seq_of n (fold_fixed frontier s covers es).1
  unfolding fold_fixed
  covers-ge n [] s covers = omega arith
  covers-ge n (e ∷ es) s covers = ground (
    arith,
    covers-ge n es s covers,
    covers-ge n es (apply s e) (observe covers e.id),
    seq_of-observe covers e.id n,
  )

  pub covers-le :
      (n : String) (es : List Event) (s : ItemState) (covers : VersionVector)
      → (seq_of n (fold_fixed frontier s covers es).1 ≤ seq_of n covers)
        ⊎ (seq_of n (fold_fixed frontier s covers es).1 ≤ seq_of n frontier)
  unfolding fold_fixed
  covers-le n [] s covers = inl (omega arith)
  covers-le n (e ∷ es) s covers = ground (
    arith,
    covers-le n es s covers,
    covers-le n es (apply s e) (observe covers e.id),
    seq_of-observe covers e.id n,
    text_comparable.same_iff e.id.node n,
  )

  -- What is folded in is covered.
  abbrev pub IsReached : VersionVector → Event → Type 0
  IsReached covers e = taken e ≡ true → contains covers e.id ≡ true

  fold_fixed_skip :
      (e : Event) (es : List Event) (s : ItemState) (covers : VersionVector)
      → taken e ≡ false
      → fold_fixed frontier s covers (e ∷ es) ≡ fold_fixed frontier s covers es
  unfolding fold_fixed
  fold_fixed_skip e es s covers h = ground arith

  fold_fixed_take :
      (e : Event) (es : List Event) (s : ItemState) (covers : VersionVector)
      → taken e ≡ true
      → fold_fixed frontier s covers (e ∷ es)
        ≡ fold_fixed frontier (apply s e) (observe covers e.id) es
  unfolding fold_fixed
  fold_fixed_take e es s covers h = ground arith

  observed-covered :
      (e : Event) (es : List Event) (s : ItemState) (covers : VersionVector)
      → contains (fold_fixed frontier s (observe covers e.id) es).1 e.id ≡ true
  unfolding contains
  observed-covered e es s covers = ground (
    arith,
    covers-ge e.id.node es s (observe covers e.id),
    seq_of-observe covers e.id e.id.node,
    same_refl e.id.node,
  )

  pub covers-IsReached :
      (es : List Event) (s : ItemState) (covers : VersionVector)
      → All (IsReached (fold_fixed frontier s covers es).1) es
  covers-IsReached [] s covers = tt
  covers-IsReached (e ∷ es) s covers = elim (Bool-cases (taken e)) [
    | inr skipped ↦
        subst (λ (r : ItemState × VersionVector). All (IsReached r.1) (e ∷ es))
          (sym (fold_fixed_skip e es s covers skipped))
          (λ h. absurd (cc (h, skipped)), covers-IsReached es s covers)
    | inl folded ↦
        subst (λ (r : ItemState × VersionVector). All (IsReached r.1) (e ∷ es))
          (sym (fold_fixed_take e es s covers folded))
          (
            (λ h. observed-covered e es (apply s e) covers),
            covers-IsReached es (apply s e) (observe covers e.id),
          )
  ]

  -- The rows behind the new coverage are those behind the old one that were skipped.
  pub rows-skipped :
      (old new : VersionVector) (es : List Event)
      → ((n : String) → seq_of n old ≤ seq_of n new)
      → ((n : String) → (seq_of n new ≤ seq_of n old) ⊎ (seq_of n new ≤ seq_of n frontier))
      → All (IsReached new) (filter (λ e. not (contains old e.id)) es)
      → filter (λ e. not (contains new e.id)) es
        ≡ filter (λ e. not (taken e)) (filter (λ e. not (contains old e.id)) es)
  unfolding contains
  rows-skipped old new [] ge le h = refl
  rows-skipped old new (e ∷ es) ge le h =
      ground (arith, rows-skipped old new es ge le, ge e.id.node, le e.id.node)
