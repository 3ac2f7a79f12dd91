-- ===== src/LocalFirst/Balances/Replay.antt =====
-- Replaying the records in any order gives the same balances.
use mathlib.Core.List.{Permᴰ}
use local_first_architecture.Base.{
  ◌≡◌, refl, sym, ap, ◌∙◌, true, List, [], ◌∷◌, inl, inr, arith, Bool-cases, All, All-perm,
}
use local_first_architecture.Base.Int64.{
  Int64, int_zero, add_int, add_int_assoc, add_int_comm, add_int-zero, add_int-InInt,
}
use local_first_architecture.LocalFirst.Store.{Record}
use local_first_architecture.LocalFirst.Balances.{Codec, Key, State, balance, fold_records}
use local_first_architecture.LocalFirst.Balances.Effect.{
  IsInts, is_applicable, shift, apply-IsShifted, apply_refused,
}

module _ {P : Type 0} (codec : Codec P) where
  -- What a list of records adds to the balance of a key.
  abbrev pub total : Key → List (Record P) → Int64
  total k [] = int_zero
  total k (r ∷ rs) = add_int (shift codec k r) (total k rs)

  abbrev pub AreApplicable : List (Record P) → Type 0
  AreApplicable = All (λ r. is_applicable codec r ≡ true)

  -- The outcome of a replay: the balances of before, each with its total.
  abbrev pub IsReplayed : State → List (Record P) → State → Type 0
  IsReplayed s rs t = (k : Key) → balance k t ≡ add_int (balance k s) (total k rs)

  pub fold-IsReplayed :
      (rs : List (Record P)) (s : State)
      → IsInts s
      → AreApplicable rs
      → (t : State) × (fold_records codec s rs ≡ inr t) × IsReplayed s rs t
  unfolding fold_records
  fold-IsReplayed [] s ints ok = (s, refl, λ k. sym (add_int-zero (balance k s) (ints k)))
  fold-IsReplayed (r ∷ rs) s ints ok =
      let (u, applied, shifted) = apply-IsShifted codec s r ints ok.0 in
      let ints' : IsInts u = λ k. rw (shifted k) (add_int-InInt (balance k s) (shift codec k r)) in
      let (t, rest, sum) = fold-IsReplayed rs u ints' ok.1 in
      (
        t,
        rw (applied, fold_records) rest,
        λ k.
            sum k
            ∙ ap (λ b. add_int b (total k rs)) (shifted k)
            ∙ add_int_assoc (balance k s) (shift codec k r) (total k rs),
      )

  -- A replay that succeeds has met no unknown type and no bad payload.
  pub fold-AreApplicable :
      (rs : List (Record P)) (s t : State)
      → IsInts s
      → fold_records codec s rs ≡ inr t
      → AreApplicable rs
  unfolding fold_records
  fold-AreApplicable [] s t ints h = tt
  fold-AreApplicable (r ∷ rs) s t ints h = elim (Bool-cases (is_applicable codec r)) [
    | inr refused ↦
        let (e, failed) = apply_refused codec s r refused in absurd (ground (arith, failed))
    | inl ok ↦
        let (u, applied, shifted) = apply-IsShifted codec s r ints ok in
        let ints' : IsInts u =
          λ k. rw (shifted k) (add_int-InInt (balance k s) (shift codec k r)) in
        let step : fold_records codec s (r ∷ rs) ≡ fold_records codec u rs =
          rw (applied, fold_records) refl in
        (ok, fold-AreApplicable rs u t ints' (sym step ∙ h))
  ]

  total-perm : (k : Key) {xs ys : List (Record P)} → Permᴰ xs ys → total k xs ≡ total k ys
  total-perm k Permᴰ.nil = refl
  total-perm k (Permᴰ.cons {a = a} {b = b} {l₁ = xs} {l₂ = ys} e p) =
      ap (λ r. add_int (shift codec k r) (total k xs)) e
      ∙ ap (λ v. add_int (shift codec k b) v) (total-perm k p)
  total-perm k (Permᴰ.swap {a = a} {b = b} {a' = c} {b' = d} {l = l} e f) =
      sym (add_int_assoc (shift codec k a) (shift codec k b) (total k l))
      ∙ ap (λ v. add_int v (total k l)) (add_int_comm (shift codec k a) (shift codec k b))
      ∙ add_int_assoc (shift codec k b) (shift codec k a) (total k l)
      ∙ ap (λ r. add_int (shift codec k r) (add_int (shift codec k a) (total k l))) f
      ∙ ap (λ r. add_int (shift codec k c) (add_int (shift codec k r) (total k l))) e
  total-perm k (Permᴰ.trans p q) = total-perm k p ∙ total-perm k q

  -- Two replays of the same records, in any order, both succeed or both fail, and read the same.
  pub fold-perm_balances :
      {xs ys : List (Record P)}
      → Permᴰ xs ys
      → (s t : State) → IsInts s
      → fold_records codec s xs ≡ inr t
      → (u : State) × (fold_records codec s ys ≡ inr u) × ((k : Key) → balance k t ≡ balance k u)
  fold-perm_balances {xs} {ys} p s t ints h =
      let ok = fold-AreApplicable xs s t ints h in
      let (t', once, sum) = fold-IsReplayed xs s ints ok in
      let (u, other, sum') =
        fold-IsReplayed ys s ints (All-perm (λ r. is_applicable codec r ≡ true) p ok) in
      let same : t ≡ t' = cc (h, once) in
      (
        u,
        other,
        λ k.
            ap (balance k) same
            ∙ sum k
            ∙ ap (λ v. add_int (balance k s) v) (total-perm k p)
            ∙ sym (sum' k),
      )
