-- ===== src/Lab/Samples.antt =====
-- Events to try the definitions on: two nodes write to one item, and a third renames it.
use local_first_architecture.Base.{
  ◌≡◌, ap, refl, true, false, none, some, List, [], ◌∷◌, ◌==◌, text_comparable, inr, Each2, arith,
}
use local_first_architecture.Base.Int64.{int_zero, plus, minus}
use local_first_architecture.Lab.Clock.{Hlc, before, compare}
use local_first_architecture.Lab.Event.{Event, kind_quantity_delta, kind_meta_set}
use local_first_architecture.Lab.Item.Convergence.{IsStamped}
use local_first_architecture.Lab.Projector.Rising.{Rising}

abbrev pub received : Event
received = record {
  id = record { node = "a"; seq = 1 };
  hlc = record { wall = plus 10; logical = 0; node = "a" };
  sku = "S";
  kind = kind_quantity_delta;
  delta = plus 5;
  meta = none;
  deleted_to = none;
}

abbrev pub picked : Event
picked = record {
  id = record { node = "b"; seq = 1 };
  hlc = record { wall = plus 11; logical = 0; node = "b" };
  sku = "S";
  kind = kind_quantity_delta;
  delta = minus 8;
  meta = none;
  deleted_to = none;
}

abbrev pub renamed : Event
renamed = record {
  id = record { node = "c"; seq = 1 };
  hlc = record { wall = plus 12; logical = 0; node = "c" };
  sku = "S";
  kind = kind_meta_set;
  delta = int_zero;
  meta = some (record { name = some "bolt"; reorder_point = none });
  deleted_to = none;
}

abbrev pub at_a : List Event
at_a = received ∷ picked ∷ renamed ∷ []

abbrev pub at_b : List Event
at_b = picked ∷ received ∷ renamed ∷ []

pub at_a-IsStamped : IsStamped at_a
at_a-IsStamped = (
  (
    λ p. absurd (omega (arith, ap (λ (h : Hlc). h.wall) p)),
    (λ p. absurd (omega (arith, ap (λ (h : Hlc). h.wall) p)), tt),
  ),
  ((λ p. absurd (omega (arith, ap (λ (h : Hlc). h.wall) p)), tt), (tt, tt)),
)

pub at_a-Rising : Each2 Rising at_a
at_a-Rising = (
  (
    λ p. let e : false ≡ true = ap (λ n. n == "b") p in absurd (cc e),
    (λ p. let e : false ≡ true = ap (λ n. n == "c") p in absurd (cc e), tt),
  ),
  ((λ p. let e : false ≡ true = ap (λ n. n == "c") p in absurd (cc e), tt), (tt, tt)),
)

-- Two writes of one node with another's between them.
abbrev pub restocked : Event
restocked = record received {
  id = record { node = "a"; seq = 2 };
  hlc = record { wall = plus 14; logical = 1; node = "a" };
  delta = plus 4;
}

abbrev pub twice_at_a : List Event
twice_at_a = restocked ∷ picked ∷ received ∷ []

pub twice_at_a-IsStamped : IsStamped twice_at_a
twice_at_a-IsStamped = (
  (
    λ p. absurd (omega (arith, ap (λ (h : Hlc). h.wall) p)),
    (λ p. absurd (omega (arith, ap (λ (h : Hlc). h.wall) p)), tt),
  ),
  ((λ p. absurd (omega (arith, ap (λ (h : Hlc). h.wall) p)), tt), (tt, tt)),
)

pub twice_at_a-Rising : Each2 Rising twice_at_a
unfolding before compare
twice_at_a-Rising = (
  (
    λ p. let e : false ≡ true = ap (λ n. n == "b") p in absurd (cc e),
    (λ p. inr (refl, omega arith), tt),
  ),
  ((λ p. let e : false ≡ true = ap (λ n. n == "a") p in absurd (cc e), tt), (tt, tt)),
)
