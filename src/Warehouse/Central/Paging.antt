-- ===== src/Warehouse/Central/Paging.antt =====
-- Reading a queue page by page from the cursor of the page before.
use local_first_architecture.Base.{
  ℕ, zero, suc, ◌+◌, ◌<◌, ◌≤◌, String, ◌≡◌, refl, sym, ap, ◌∙◌, List, [], ◌∷◌, ◌++◌, inl, inr, leb,
  not, filter, length, List-cases, arith, Bool-cases, text_comparable,
}
use Prim.Native.Nat.{min}
use local_first_architecture.Base.Table.{lookup_or}
use local_first_architecture.Warehouse.World.{World}
use local_first_architecture.Warehouse.Central.{Outbound, Memory}
use local_first_architecture.Warehouse.Central.Log.{take_after, outbound}

module _ {w : World} where
  -- Positions that rise, all past a bound.
  abbrev pub IsAscending : ℕ → List (Outbound w) → Type 0
  IsAscending b [] = Unit
  IsAscending b (r ∷ rs) = (b < r.ord) × IsAscending r.ord rs

  -- The cursor after a page: the position of its last row.
  abbrev pub last_ord : ℕ → List (Outbound w) → ℕ
  last_ord c [] = c
  last_ord c (r ∷ rs) = last_ord r.ord rs

  weaken : (a b : ℕ) (rows : List (Outbound w)) → a ≤ b → IsAscending b rows → IsAscending a rows
  weaken a b [] p h = tt
  weaken a b (r ∷ rows) p h = (omega (arith, h.0, p), h.1)

  last_ord-past : (c : ℕ) (rows : List (Outbound w)) → IsAscending c rows → c ≤ last_ord c rows
  last_ord-past c [] h = omega arith
  last_ord-past c (r ∷ rows) h = omega (arith, h.0, last_ord-past r.ord rows h.1)

  take_after-IsAscending :
      (c n b : ℕ) (rows : List (Outbound w))
      → IsAscending b rows
      → IsAscending b (take_after c n rows)
  unfolding take_after
  take_after-IsAscending c zero b rows h = tt
  take_after-IsAscending c (suc n) b [] h = tt
  take_after-IsAscending c (suc n) b (r ∷ rows) h = elim (Bool-cases (leb r.ord c)) [
    | inl old ↦ rw old (
        weaken b r.ord (take_after c (suc n) rows) (omega (arith, h.0))
          (take_after-IsAscending c (suc n) r.ord rows h.1))
    | inr new ↦ rw new (h.0, take_after-IsAscending c n r.ord rows h.1)
  ]

  -- Rows that are all past both cursors are all read from both.
  take_after-past :
      (c d n b : ℕ) (rows : List (Outbound w))
      → c ≤ b
      → d ≤ b
      → IsAscending b rows
      → take_after c n rows ≡ take_after d n rows
  unfolding take_after
  take_after-past c d zero b rows p q h = refl
  take_after-past c d (suc n) b [] p q h = refl
  take_after-past c d (suc n) b (r ∷ rows) p q h = ground (
    arith,
    h.0,
    take_after-past c d n r.ord rows (omega (arith, h.0, p)) (omega (arith, h.0, q)) h.1,
  )

  take_after-nil : (c n : ℕ) → take_after {w = w} c n [] ≡ []
  unfolding take_after
  take_after-nil c zero = refl
  take_after-nil c (suc n) = refl

  take_after-old :
      (c n : ℕ) (r : Outbound w) (rows : List (Outbound w))
      → r.ord ≤ c
      → take_after c n (r ∷ rows) ≡ take_after c n rows
  unfolding take_after
  take_after-old c zero r rows h = refl
  take_after-old c (suc n) r rows h = ground arith

  take_after-from :
      (c n b : ℕ) (rows : List (Outbound w))
      → IsAscending b rows
      → IsAscending c (take_after c n rows)
  unfolding take_after
  take_after-from c zero b rows h = tt
  take_after-from c (suc n) b [] h = tt
  take_after-from c (suc n) b (r ∷ rows) h = elim (Bool-cases (leb r.ord c)) [
    | inl old ↦ rw old (take_after-from c (suc n) r.ord rows h.1)
    | inr new ↦ rw new (ground (arith, new), take_after-IsAscending c n r.ord rows h.1)
  ]

  -- The page of n rows from a cursor, then the page of m rows from where it ended.
  abbrev two_pages : ℕ → ℕ → ℕ → List (Outbound w) → List (Outbound w)
  two_pages c n m rows = take_after c n rows ++ take_after (last_ord c (take_after c n rows)) m rows

  two_pages-one :
      (c n m b : ℕ) (rows : List (Outbound w))
      → IsAscending b rows
      → two_pages c n m rows ≡ take_after c (n + m) rows
  unfolding take_after
  two_pages-one c zero m b rows h = ap (λ k. take_after c k rows) (omega arith)
  two_pages-one c (suc n) m b [] h = take_after-nil c m ∙ sym (take_after-nil c (suc n + m))
  two_pages-one c (suc n) m b (r ∷ rows) h = elim (Bool-cases (leb r.ord c)) [
    | inl old ↦
        let past : r.ord ≤ c = ground (arith, old) in
        let rest = take_after c (suc n) rows in
        let further : c ≤ last_ord c rest =
          last_ord-past c rest (take_after-from c (suc n) r.ord rows h.1) in
        rw old (
          ap (λ xs. rest ++ xs)
            (take_after-old (last_ord c rest) m r rows (omega (arith, past, further)))
          ∙ two_pages-one c (suc n) m r.ord rows h.1
          ∙ sym (take_after-old c (suc n + m) r rows past))
    | inr new ↦
        let fresh : c ≤ r.ord = ground (arith, new) in
        let rest = take_after r.ord n rows in
        let e : take_after c n rows ≡ rest =
          take_after-past c r.ord n r.ord rows fresh (omega arith) h.1 in
        let further : r.ord ≤ last_ord r.ord rest =
          last_ord-past r.ord rest (take_after-from r.ord n r.ord rows h.1) in
        let one_more : suc n + m ≡ suc (n + m) = omega arith in
        let taken : take_after c (suc (n + m)) (r ∷ rows) ≡ r ∷ take_after c (n + m) rows =
          rw new refl in
        let step : take_after c (suc n + m) (r ∷ rows) ≡ r ∷ take_after c (n + m) rows =
          ap (λ k. take_after c k (r ∷ rows)) one_more ∙ taken in
        rw (new, e)
          (ap (λ xs. r ∷ (rest ++ xs)) (take_after-old (last_ord r.ord rest) m r rows further)
            ∙ ap (λ xs. r ∷ xs)
                (two_pages-one r.ord n m r.ord rows h.1
                  ∙ take_after-past r.ord c (n + m) r.ord rows (omega arith) fresh h.1)
            ∙ sym step)
  ]

  -- The rows past a cursor.
  abbrev pub waiting_past : ℕ → List (Outbound w) → List (Outbound w)
  waiting_past c rows = filter (λ r. not (leb r.ord c)) rows

  length-take_after :
      (c n : ℕ) (rows : List (Outbound w))
      → length (take_after c n rows) ≡ min n (length (waiting_past c rows))
  unfolding take_after
  length-take_after c zero rows = ground arith
  length-take_after c (suc n) [] = ground arith
  length-take_after c (suc n) (r ∷ rows) = elim (Bool-cases (leb r.ord c)) [
    | inl old ↦ rw old (length-take_after c (suc n) rows)
    | inr new ↦ rw new (ground (arith, length-take_after c n rows))
  ]

  -- A page begins what waits; what is left out is behind it.
  abbrev pub Begins : List (Outbound w) → List (Outbound w) → Type 0
  Begins page all = (left : List (Outbound w)) × (page ++ left ≡ all)

  take_after-Begins :
      (c n : ℕ) (rows : List (Outbound w)) → Begins (take_after c n rows) (waiting_past c rows)
  unfolding take_after
  take_after-Begins c zero rows = (waiting_past c rows, refl)
  take_after-Begins c (suc n) [] = ([], refl)
  take_after-Begins c (suc n) (r ∷ rows) = elim (Bool-cases (leb r.ord c)) [
    | inl old ↦ rw old (take_after-Begins c (suc n) rows)
    | inr new ↦
        let (left, same) = take_after-Begins c n rows in rw new (left, ap (λ xs. r ∷ xs) same)
  ]

  take_after-all :
      (c n : ℕ) (rows : List (Outbound w))
      → length (waiting_past c rows) ≤ n
      → take_after c n rows ≡ waiting_past c rows
  unfolding take_after
  take_after-all c zero rows h = elim (List-cases (waiting_past c rows)) [
    | inl nothing ↦ sym nothing
    | inr (r, rs, there) ↦ absurd (ground (arith, there, h))
  ]
  take_after-all c (suc n) [] h = refl
  take_after-all c (suc n) (r ∷ rows) h = elim (Bool-cases (leb r.ord c)) [
    | inl old ↦ rw old (take_after-all c (suc n) rows (ground (arith, old, h)))
    | inr new ↦ rw new (ap (λ xs. r ∷ xs) (take_after-all c n rows (ground (arith, new, h))))
  ]

  -- A node that reads its queue page by page, each from the position where the last page ended, gets
  -- every event that waits past its cursor, once and in the order of the queue: the first page is the
  -- beginning of what waits, as long as its limit allows; two pages are what one longer read gives; and
  -- where the limits reach to the end, the two pages together are all that waits. The positions of the
  -- queue rise, as Enqueue assigns them.
  pub outbound-pages :
      (s : Memory w) (target : String) (c n m b : ℕ)
      → IsAscending b (lookup_or [] target s.queue)
      → let page = outbound s target c n in
        let second = outbound s target (last_ord c page) m in
        let waiting = waiting_past c (lookup_or [] target s.queue) in
        Begins page waiting
        × (length page ≡ min n (length waiting))
        × (page ++ second ≡ outbound s target c (n + m))
        × (length waiting ≤ n + m → page ++ second ≡ waiting)
  unfolding outbound
  outbound-pages s target c n m b h =
      let rows = lookup_or [] target s.queue in
      let both = two_pages-one c n m b rows h in
      (
        take_after-Begins c n rows,
        length-take_after c n rows,
        both,
        λ enough. both ∙ take_after-all c (n + m) rows enough,
      )
