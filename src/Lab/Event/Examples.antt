-- ===== src/Lab/Event/Examples.antt =====
-- A well-formed event, and one that is turned away.
use local_first_architecture.Base.{◌≡◌, ◌↔◌, refl, none, some}
use local_first_architecture.Base.Int64.{int_zero, plus}
use local_first_architecture.Lab.Event.{Event, kind_quantity_delta, zero_delta, validate}
use local_first_architecture.Lab.Event.Valid.{IsWellFormed, validate_iff}

abbrev received : Event
received = record {
  id = record { node = "a"; seq = 1 };
  hlc = record { wall = plus 10; logical = 0; node = "a" };
  sku = "S";
  kind = kind_quantity_delta;
  delta = plus 5;
  meta = none;
  deleted_to = none;
}

accepted : validate received ≡ none
unfolding validate
accepted = refl

refused : validate (record received { delta = int_zero }) ≡ some zero_delta
unfolding validate
refused = refl

validate_iff_example : (validate received ≡ none) ↔ IsWellFormed received
validate_iff_example = validate_iff received
