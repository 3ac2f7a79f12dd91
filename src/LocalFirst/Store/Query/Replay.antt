-- ===== src/LocalFirst/Store/Query/Replay.antt =====
-- The reads of a log: what Since gives, and what Version says.

use mathlib.Core.List.{Permᴰ}
use mathlib.Core.List.Permᴰ
use local_first_architecture.Base.{
  ◌<◌, String, ◌≡◌, refl, inl, inr, List, [], ◌∷◌, filter-All, ltb, text_comparable, arith,
  Bool-cases, All, All-map,
}
use local_first_architecture.Base.Table.{lookup, lookup-insert}
use local_first_architecture.LocalFirst.Store.{Record, Store, highest_seq}
use local_first_architecture.LocalFirst.Store.Query.{
  seq_of, observe, less, place, sort, since, marks, version,
}

module _ {P : Type 0} where
  place-Permᴰ : (r : Record P) (rs : List (Record P)) → Permᴰ (r ∷ rs) (place r rs)
  unfolding place
  place-Permᴰ r [] = Permᴰ.refl (r ∷ [])
  place-Permᴰ r (q ∷ qs) = elim (Bool-cases (less q r)) [
    | inl first ↦ rw first (Permᴰ.trans (Permᴰ.swap refl refl) (Permᴰ.cons refl (place-Permᴰ r qs)))
    | inr later ↦ rw later (Permᴰ.refl (r ∷ q ∷ qs))
  ]

  pub sort-Permᴰ : (rs : List (Record P)) → Permᴰ rs (sort rs)
  unfolding sort
  sort-Permᴰ [] = Permᴰ.nil
  sort-Permᴰ (r ∷ rs) = Permᴰ.trans (Permᴰ.cons refl (sort-Permᴰ rs)) (place-Permᴰ r (sort rs))

  -- With no vector, Since gives the whole log.
  pub since-everything :
      (s : Store P) → All (λ r. 0 < r.seq) s.records → since s [] ≡ sort s.records
  unfolding since lookup
  since-everything s h =
      rw
        (filter-All (λ (r : Record P). ltb 0 r.seq) s.records
          (All-map (λ (r : Record P) k. ground arith) s.records h))
        refl

  marks-highest_seq :
      (node : String) (rs : List (Record P)) → seq_of node (marks rs) ≡ highest_seq node rs
  unfolding marks highest_seq observe
  marks-highest_seq node [] = unfold lookup in refl
  marks-highest_seq node (r ∷ rs) = ground (
    arith,
    marks-highest_seq node rs,
    lookup-insert r.node_id node r.seq (marks rs),
    text_comparable.same_iff r.node_id node,
  )

  -- Version says of each author what the highest sequence number is.
  pub version-highest_seq :
      (s : Store P) (node : String) → seq_of node (version s) ≡ highest_seq node s.records
  unfolding version
  version-highest_seq s node = marks-highest_seq node s.records
