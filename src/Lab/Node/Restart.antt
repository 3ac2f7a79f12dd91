-- ===== src/Lab/Node/Restart.antt =====
-- A restarted node stamps after everything that its log holds.
use Prim.Native.String.compare
use Prim.Native.String.{compare as compare_text}
use mathlib.Core.Path.{subst}
use mathlib.Core.List.Permᴰ
use local_first_architecture.Base.{
  ℕ, ◌+◌, ◌-◌, ◌^◌, ◌≤◌, ◌<◌, Ordering, String, ◌≡◌, refl, ap, ◌∙◌, sym, inl, inr, true, false, not,
  some, List, [], ◌∷◌, ◌==◌, text_comparable, arith, Bool-cases, All, All-map, All-perm, filter-All,
}
use local_first_architecture.Base.Table.{lookup}
use local_first_architecture.Lab.Clock.{Hlc, no_hlc, compare, before, new, now, observes}
use local_first_architecture.Lab.Clock.Order.{compare-IsTotal}
use local_first_architecture.Lab.Clock.Monotonic.{IsWithin, step_after, now_after, observe_after}
use local_first_architecture.Lab.Event.{Event}
use local_first_architecture.Lab.Vector.{contains}
use local_first_architecture.Lab.Item.{hlc_equal}
use local_first_architecture.Lab.Item.Equal.{hlc_equal_iff}
use local_first_architecture.Lab.Log.{Log, order_by_hlc, since}
use local_first_architecture.Lab.Log.Sorted.{order_by_hlc-Permᴰ}
use local_first_architecture.Lab.Node.{Node, highest, recover_clock, start}

-- a is not after b, which is before c.
before_past : (a b c : Hlc) → before b a ≡ false → before b c ≡ true → before a c ≡ true
unfolding before
before_past a b c h k = ground (
  arith,
  compare-IsTotal.cmp_flip b a,
  compare-IsTotal.cmp_eq b a,
  compare-IsTotal.cmp_trans a b c,
)

before_trans : (a b c : Hlc) → before a b ≡ true → before b c ≡ true → before a c ≡ true
unfolding before
before_trans a b c h k = ground (arith, compare-IsTotal.cmp_trans a b c)

-- a is not after b, and b is not after c.
not_after_trans : (a b c : Hlc) → before b a ≡ false → before c b ≡ false → before c a ≡ false
not_after_trans a b c h k = elim (Bool-cases (before c a)) [
  | inr fine ↦ fine
  | inl wrong ↦ absurd (cc (before_past b c a k wrong, h))
]

not_before_self : (a : Hlc) → before a a ≡ false
unfolding before
not_before_self a = ground (arith, compare-IsTotal.cmp_self a)

before_asym : (a b : Hlc) → before a b ≡ true → before b a ≡ false
unfolding before
before_asym a b h = ground (arith, compare-IsTotal.cmp_flip a b)

highest_later :
    (h : Hlc) (e : Event) (es : List Event)
    → before h e.hlc ≡ true
    → highest h (e ∷ es) ≡ highest e.hlc es
unfolding highest
highest_later h e es later = rw later refl

highest_kept :
    (h : Hlc) (e : Event) (es : List Event)
    → before h e.hlc ≡ false
    → highest h (e ∷ es) ≡ highest h es
unfolding highest
highest_kept h e es kept = rw kept refl

highest_start : (h : Hlc) (es : List Event) → before (highest h es) h ≡ false
highest_start h [] = unfold highest in not_before_self h
highest_start h (e ∷ es) = elim (Bool-cases (before h e.hlc)) [
  | inl later ↦ rw (highest_later h e es later) (
      not_after_trans h e.hlc (highest e.hlc es) (before_asym h e.hlc later)
        (highest_start e.hlc es))
  | inr kept ↦ rw (highest_kept h e es kept) (highest_start h es)
]

highest-All : (h : Hlc) (es : List Event) → All (λ e. before (highest h es) e.hlc ≡ false) es
highest-All h [] = tt
highest-All h (e ∷ es) = elim (Bool-cases (before h e.hlc)) [
  | inl later ↦
      subst (λ (t : Hlc). All (λ (x : Event). before t x.hlc ≡ false) (e ∷ es))
        (sym (highest_later h e es later)) (highest_start e.hlc es, highest-All e.hlc es)
  | inr kept ↦
      subst (λ (t : Hlc). All (λ (x : Event). before t x.hlc ≡ false) (e ∷ es))
        (sym (highest_kept h e es kept))
        (not_after_trans e.hlc h (highest h es) kept (highest_start h es), highest-All h es)
]

highest-IsWithin :
    (b : ℕ) (h : Hlc) (es : List Event)
    → IsWithin b h
    → All (λ e. IsWithin b e.hlc) es
    → IsWithin b (highest h es)
highest-IsWithin b h [] w a = unfold highest in w
highest-IsWithin b h (e ∷ es) w a = elim (Bool-cases (before h e.hlc)) [
  | inl later ↦ rw (highest_later h e es later) (highest-IsWithin b e.hlc es a.0 a.1)
  | inr kept ↦ rw (highest_kept h e es kept) (highest-IsWithin b h es w a.1)
]

empty_first : (s : String) → (s == "") ≡ false → compare_text "" s ≡ Ordering.lt
empty_first String.[] h = ground (arith, (text_comparable.same_iff "" "").1 refl)
empty_first (String.◌∷◌ c s) h = compare.nil-cons c s

before-new : (id : String) → (id == "") ≡ false → before no_hlc (new id).last ≡ true
unfolding before compare new
before-new id h = ground (arith, empty_first id h)

-- What recoverClock leaves is after the highest stamp, and near the bound.
recover_clock_past :
    (id : String) (es : List Event) (reading b : ℕ)
    → (id == "") ≡ false
    → All (λ e. IsWithin b e.hlc) es
    → reading ≤ b
    → 2 ^ 63 ≤ b
    → b < 2 ^ 64 - 1
    → (before (highest no_hlc es) (recover_clock (new id) es reading).last ≡ true)
      × IsWithin (b + 1) (recover_clock (new id) es reading).last
unfolding recover_clock
recover_clock_past id es reading b named w r low small =
    let zero_in : IsWithin b (new id).last = unfold new in omega arith in
    let top_in = highest-IsWithin b no_hlc es (omega arith) w in
    elim (Bool-cases (hlc_equal (highest no_hlc es) no_hlc)) [
      | inl nothing ↦
          rw (nothing, (hlc_equal_iff (highest no_hlc es) no_hlc).0 nothing)
            (before-new id named, omega (arith, zero_in))
      | inr top ↦ rw top (
        (observe_after (new id) reading (highest no_hlc es) b zero_in top_in r small).1,
        (step_after (new id) (observes reading (highest no_hlc es)) b zero_in (r, top_in) low
            small).1,
      )
    ]

-- The empty vector covers no event with a number.
nothing-contains : (e : Event) → 0 < e.id.seq → not (contains [] e.id) ≡ true
unfolding contains lookup
nothing-contains e h = ground arith

since-nothing :
    {B : Type 0} (l : Log B)
    → All (λ e. 0 < e.id.seq) (order_by_hlc l.events)
    → since l [] ≡ order_by_hlc l.events
unfolding since
since-nothing l h =
    filter-All (λ e. not (contains [] e.id)) (order_by_hlc l.events)
      (All-map nothing-contains (order_by_hlc l.events) h)

start-clk :
    {B : Type 0} (id : String) (l : Log B) (every : ℕ) (reading : ℕ) (n : Node B)
    → start id l every reading ≡ some n
    → ((id == "") ≡ false) × (n.clk ≡ recover_clock (new id) (since l []) reading)
unfolding start
start-clk id l every reading n h = elim (Bool-cases (id == "")) [
  | inl nameless ↦ absurd (ground (arith, nameless))
  | inr named ↦ (named, ground (arith, named))
]

-- A restarted node never stamps behind its own log: the first stamp that it issues after New, the
-- clock having been recovered, is after the stamp of every event that the log holds, whatever the
-- wall clock reads then. The conditions are that the walls are below math.MaxInt64 by more than a
-- millisecond, the counters inside uint32, and the events' numbers positive.
pub start-now_after :
    {B : Type 0} (id : String) (l : Log B) (every : ℕ) (reading later b : ℕ) (n : Node B)
    → All (λ e. IsWithin b e.hlc × (0 < e.id.seq)) l.events
    → reading ≤ b
    → later ≤ b
    → 2 ^ 63 ≤ b
    → b + 1 < 2 ^ 64 - 1
    → start id l every reading ≡ some n
    → All (λ e. before e.hlc (now n.clk later).last ≡ true) l.events
start-now_after id l every reading later b n w r r' low small started =
    let (named, clk) = start-clk id l every reading n started in
    let es = order_by_hlc l.events in
    let inside =
      All-perm (λ e. IsWithin b e.hlc × (0 < e.id.seq)) (order_by_hlc-Permᴰ l.events) w in
    let same : since l [] ≡ es = since-nothing l (All-map (λ e k. k.1) es inside) in
    let (past, near) =
      recover_clock_past id es reading b named (All-map (λ e k. k.0) es inside) r low
        (omega arith) in
    let c = recover_clock (new id) es reading in
    let next = now_after c later (b + 1) near (omega arith) (omega arith) small in
    let clock_is : n.clk ≡ c = clk ∙ ap (λ xs. recover_clock (new id) xs reading) same in
    All-perm (λ e. before e.hlc (now n.clk later).last ≡ true)
      (Permᴰ.symm (order_by_hlc-Permᴰ l.events))
      (All-map
        (λ e k. rw clock_is (
          before_trans e.hlc c.last (now c later).last
            (before_past e.hlc (highest no_hlc es) c.last k past) next.0))
        es (highest-All no_hlc es))
