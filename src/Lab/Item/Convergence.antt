-- ===== src/Lab/Item/Convergence.antt =====
-- Replicas that applied the same events, in any order, are in the same state.
use mathlib.Core.List.{Permᴰ, Perm}
use mathlib.Core.Logic.{∥∥₁_elim}
use text.Mathlib.TextEquality.{IsScalar-prop}
use local_first_architecture.Base.{
  String, ◌≡◌, refl, sym, ◌∙◌, ap, Bool, not, ◌&&◌, Option, none, some, List, [], ◌∷◌, ◌++◌,
  nat_beq, leb, ◌==◌, text_comparable, if◌then◌else◌, Each2, Each2-perm, arith,
}
use local_first_architecture.Base.Table.{lookup, lookup-insert}
use local_first_architecture.Base.Int64.{Int64, int_zero, add_int, neg_int, add_int_right_comm}
use local_first_architecture.Lab.Clock.{Hlc}
use local_first_architecture.Lab.Event.{
  MetaSet, Event, kind_quantity_delta, kind_meta_set, kind_delete_set,
}
use local_first_architecture.Lab.Item.{Lww, set_if, slot, ItemState, bump, apply, fold}
use local_first_architecture.Lab.Item.Register.{set_comm}

-- Events that share a stamp are one event. Stamps name their node, and no clock issues one twice.
abbrev pub SameStamp : Event → Event → Type 0
SameStamp e f = e.hlc ≡ f.hlc → e ≡ f

abbrev pub IsStamped : List Event → Type 0
IsStamped = Each2 SameStamp

pub SameStamp-flip : (e f : Event) → SameStamp e f → SameStamp f e
SameStamp-flip e f h p = sym (h (sym p))

-- A part of the state that each event changes by itself, whatever the rest of the state.
module _ {ℓ} {B : Type ℓ} (view : ItemState → B) (after : Event → B → B)
    (view-apply : (s : ItemState) (e : Event) → view (apply s e) ≡ after e (view s))
    (after_comm : (e f : Event) (b : B)
      → SameStamp e f
      → after f (after e b) ≡ after e (after f b)) where
  view-fold_same :
      (xs : List Event) (s t : ItemState) → view s ≡ view t → view (fold s xs) ≡ view (fold t xs)
  unfolding fold
  view-fold_same [] s t p = p
  view-fold_same (x ∷ xs) s t p =
      view-fold_same xs (apply s x) (apply t x) (cc (view-apply s x, view-apply t x, p))

  view-fold :
      {xs ys : List Event}
      → Permᴰ xs ys
      → IsStamped xs
      → (s t : ItemState) → view s ≡ view t
      → view (fold s xs) ≡ view (fold t ys)
  unfolding fold
  view-fold Permᴰ.nil h s t p = p
  view-fold (Permᴰ.cons {a = a} {b = b} e q) h s t p =
      view-fold q h.1 (apply s a) (apply t b) (cc (view-apply s a, view-apply t b, e, p))
  view-fold (Permᴰ.swap {a = a} {b = b} {a' = c} {b' = d} {l = l} e f) h s t p =
      view-fold_same l (apply (apply s a) b) (apply (apply t c) d) (
        cc (
          view-apply (apply s a) b,
          view-apply s a,
          view-apply (apply t c) d,
          view-apply t c,
          after_comm a b (view s) h.0.0,
          e,
          f,
          p,
        ))
  view-fold (Permᴰ.trans q r) h s t p =
      view-fold q h s t p ∙ view-fold r (Each2-perm SameStamp SameStamp-flip q h) t t refl

abbrev or_zero : Option Int64 → Int64
or_zero none = int_zero
or_zero (some v) = v

-- What an event does to one slot of `Pos` or `Neg`, and to one register.
pos_after : String → Event → Option Int64 → Option Int64
pos_after k e o =
    if nat_beq e.kind kind_quantity_delta && (leb int_zero e.delta && e.id.node == k)
    then some (add_int (or_zero o) e.delta)
    else o

neg_after : String → Event → Option Int64 → Option Int64
neg_after k e o =
    if nat_beq e.kind kind_quantity_delta && (not (leb int_zero e.delta) && e.id.node == k)
    then some (add_int (or_zero o) (neg_int e.delta))
    else o

abbrev name_write : Option MetaSet → Option String
name_write none = none
name_write (some m) = m.name

abbrev reorder_write : Option MetaSet → Option Int64
reorder_write none = none
reorder_write (some m) = m.reorder_point

name_after : Event → Lww String → Lww String
name_after e r = if nat_beq e.kind kind_meta_set then set_if r (name_write e.meta) e.hlc else r

reorder_after : Event → Lww Int64 → Lww Int64
reorder_after e r =
    if nat_beq e.kind kind_meta_set then set_if r (reorder_write e.meta) e.hlc else r

deleted_after : Event → Lww Bool → Lww Bool
deleted_after e r = if nat_beq e.kind kind_delete_set then set_if r e.deleted_to e.hlc else r

lookup-pos-apply :
    (k : String) (s : ItemState) (e : Event)
    → lookup k (apply s e).pos ≡ pos_after k e (lookup k s.pos)
unfolding apply pos_after bump
lookup-pos-apply k s e = ground (
  arith,
  lookup-insert e.id.node k (add_int (slot e.id.node s.pos) e.delta) s.pos,
  text_comparable.same_iff e.id.node k,
)

lookup-neg-apply :
    (k : String) (s : ItemState) (e : Event)
    → lookup k (apply s e).neg ≡ neg_after k e (lookup k s.neg)
unfolding apply neg_after bump
lookup-neg-apply k s e = ground (
  arith,
  lookup-insert e.id.node k (add_int (slot e.id.node s.neg) (neg_int e.delta)) s.neg,
  text_comparable.same_iff e.id.node k,
)

name-apply : (s : ItemState) (e : Event) → (apply s e).name ≡ name_after e s.name
unfolding apply name_after
name-apply s e = ground arith

reorder-apply :
    (s : ItemState) (e : Event) → (apply s e).reorder_point ≡ reorder_after e s.reorder_point
unfolding apply reorder_after
reorder-apply s e = ground arith

deleted-apply : (s : ItemState) (e : Event) → (apply s e).deleted ≡ deleted_after e s.deleted
unfolding apply deleted_after
deleted-apply s e = ground arith

pos_comm :
    (k : String) (e f : Event) (o : Option Int64)
    → pos_after k f (pos_after k e o) ≡ pos_after k e (pos_after k f o)
unfolding pos_after
pos_comm k e f o = ground (arith, add_int_right_comm (or_zero o) e.delta f.delta)

neg_comm :
    (k : String) (e f : Event) (o : Option Int64)
    → neg_after k f (neg_after k e o) ≡ neg_after k e (neg_after k f o)
unfolding neg_after
neg_comm k e f o =
    ground (arith, add_int_right_comm (or_zero o) (neg_int e.delta) (neg_int f.delta))

set_if_comm {ℓ} :
    {A : Type ℓ} (r : Lww A) (v w : Option A) (a b : Hlc)
    → (a ≡ b → v ≡ w)
    → set_if (set_if r v a) w b ≡ set_if (set_if r w b) v a
set_if_comm r none none a b h = refl
set_if_comm r none (some w) a b h = refl
set_if_comm r (some v) none a b h = refl
set_if_comm r (some v) (some w) a b h = set_comm r v w a b (λ p. cc (h p))

name_comm :
    (e f : Event) (r : Lww String)
    → SameStamp e f
    → name_after f (name_after e r) ≡ name_after e (name_after f r)
unfolding name_after
name_comm e f r h = ground (
  arith,
  set_if_comm r (name_write e.meta) (name_write f.meta) e.hlc f.hlc
      (λ p. ap (λ (x : Event). name_write x.meta) (h p)),
)

reorder_comm :
    (e f : Event) (r : Lww Int64)
    → SameStamp e f
    → reorder_after f (reorder_after e r) ≡ reorder_after e (reorder_after f r)
unfolding reorder_after
reorder_comm e f r h = ground (
  arith,
  set_if_comm r (reorder_write e.meta) (reorder_write f.meta) e.hlc f.hlc
      (λ p. ap (λ (x : Event). reorder_write x.meta) (h p)),
)

deleted_comm :
    (e f : Event) (r : Lww Bool)
    → SameStamp e f
    → deleted_after f (deleted_after e r) ≡ deleted_after e (deleted_after f r)
unfolding deleted_after
deleted_comm e f r h = ground (
  arith,
  set_if_comm r e.deleted_to f.deleted_to e.hlc f.hlc (λ p. ap (λ (x : Event). x.deleted_to) (h p)),
)

-- What can be read of two states is the same. The order of a map's entries cannot.
pub record SameState (s t : ItemState) : Type 0 where
  pub same_pos : (k : String) → lookup k s.pos ≡ lookup k t.pos
  pub same_neg : (k : String) → lookup k s.neg ≡ lookup k t.neg
  pub same_name : s.name ≡ t.name
  pub same_reorder : s.reorder_point ≡ t.reorder_point
  pub same_deleted : s.deleted ≡ t.deleted

permᴰ-SameState :
    {xs ys : List Event}
    → Permᴰ xs ys
    → IsStamped xs
    → (s : ItemState) → SameState (fold s xs) (fold s ys)
permᴰ-SameState p h s = record {
  same_pos = λ k.
      view-fold (λ t. lookup k t.pos) (pos_after k) (lookup-pos-apply k)
        (λ e f o _. pos_comm k e f o) p h s s refl;
  same_neg = λ k.
      view-fold (λ t. lookup k t.neg) (neg_after k) (lookup-neg-apply k)
        (λ e f o _. neg_comm k e f o) p h s s refl;
  same_name = view-fold (λ t. t.name) name_after name-apply name_comm p h s s refl;
  same_reorder =
      view-fold (λ t. t.reorder_point) reorder_after reorder-apply reorder_comm p h s s refl;
  same_deleted = view-fold (λ t. t.deleted) deleted_after deleted-apply deleted_comm p h s s refl;
}

SameState-prop : (s t : ItemState) → IsProp (SameState s t)
SameState-prop s t = hlevel IsScalar-prop

-- `Apply` is order-independent: folding the same events in any order, from any state, gives every
-- reader the same counters and the same registers, also when a counter wraps around. The condition
-- is that no two different events share a timestamp.
pub fold-perm :
    (s : ItemState) (xs ys : List Event)
    → IsStamped xs
    → Perm xs ys
    → SameState (fold s xs) (fold s ys)
fold-perm s xs ys h p =
    ∥∥₁_elim p (SameState-prop (fold s xs) (fold s ys)) (λ q. permᴰ-SameState q h s)

pub fold-append : (s : ItemState) (xs ys : List Event) → fold s (xs ++ ys) ≡ fold (fold s xs) ys
unfolding fold
fold-append s [] ys = refl
fold-append s (x ∷ xs) ys = fold-append (apply s x) xs ys

pub SameState-refl : (s : ItemState) → SameState s s
SameState-refl s = record {
  same_pos = λ k. refl;
  same_neg = λ k. refl;
  same_name = refl;
  same_reorder = refl;
  same_deleted = refl;
}

pub SameState-trans : (s t u : ItemState) → SameState s t → SameState t u → SameState s u
SameState-trans s t u p q = record {
  same_pos = λ k. p.same_pos k ∙ q.same_pos k;
  same_neg = λ k. p.same_neg k ∙ q.same_neg k;
  same_name = p.same_name ∙ q.same_name;
  same_reorder = p.same_reorder ∙ q.same_reorder;
  same_deleted = p.same_deleted ∙ q.same_deleted;
}
