-- ===== src/LocalFirst/Clock.antt =====
-- localfirst-go/clock/hlc.go. A wall-clock reading is an argument of the operation that takes it; the
-- mutex is left out, so an operation is one step.
pub mod Order
pub mod Advance
mod Examples
use Prim.Native.String.{compare as compare_text}
use local_first_architecture.Base.{
  ℕ, ◌+◌, ◌%◌, ◌^◌, Ordering, String, Bool, not, ◌&&◌, List, [], ◌∷◌, ◌++◌, ltb, leb, nat_beq, ◌==◌,
  text_comparable, if◌then◌else◌,
}
use local_first_architecture.Base.Int64.{Int64, int_zero, plus, sub_int}
use local_first_architecture.Base.Order.{is_lt}

pub record Hlc : Type 0 where
  pub wall : Int64
  pub logical : ℕ  -- uint32
  pub node_id : String

-- sign(d) of a difference that is not 0
abbrev pub sign : Int64 → Ordering
sign d = if ltb d int_zero then Ordering.lt else Ordering.gt

abbrev pub text_sign : Ordering → Ordering
text_sign Ordering.lt = Ordering.lt
text_sign Ordering.eq = Ordering.gt
text_sign Ordering.gt = Ordering.gt

-- h.Compare(o), with -1, 0 and 1 as lt, eq and gt. The differences wrap around.
unfoldable pub compare : Hlc → Hlc → Ordering
compare h o =
    if not (nat_beq h.wall o.wall)
    then sign (sub_int h.wall o.wall)
    else if not (nat_beq h.logical o.logical)
    then sign (sub_int (plus h.logical) (plus o.logical))
    else if not (h.node_id == o.node_id)
    then text_sign (compare_text h.node_id o.node_id)
    else Ordering.eq

-- h.Before(o)
unfoldable pub before : Hlc → Hlc → Bool
unfolding compare
before h o = is_lt (compare h o)

pub record Clock : Type 0 where
  pub node_id : String
  pub last : Hlc

-- New: `last` is the zero HLC.
unfoldable pub new : String → Clock
new id = record { node_id = id; last = record { wall = int_zero; logical = 0; node_id = "" } }

-- The body of the loop in `advance`; the counter is a uint32 and wraps around.
unfoldable pub lift : Hlc → Hlc → Hlc
lift next p =
    if ltb next.wall p.wall
    then record next { wall = p.wall; logical = (p.logical + 1) % 2 ^ 32 }
    else if nat_beq p.wall next.wall && leb next.logical p.logical
    then record next { logical = (p.logical + 1) % 2 ^ 32 }
    else next

unfoldable pub lift_all : Hlc → List Hlc → Hlc
lift_all next [] = next
lift_all next (p ∷ ps) = lift_all (lift next p) ps

-- The new clock; the timestamp that is returned is its `last`.
unfoldable pub advance : Clock → Int64 → List Hlc → Clock
advance c physical peers =
    let next : Hlc = record { wall = physical; logical = 0; node_id = c.node_id } in
    record c { last = lift_all next (peers ++ (c.last ∷ [])) }

unfoldable pub now : Clock → Int64 → Clock
now c physical = advance c physical []

unfoldable pub observe : Clock → Int64 → Hlc → Clock
observe c physical remote = advance c physical (remote ∷ [])

-- A call on a clock with the wall reading that it takes.
pub data Call : Type 0 where
  calls_now : Int64 → Call
  observes : Int64 → Hlc → Call

abbrev pub step : Clock → Call → Clock
step c (calls_now physical) = now c physical
step c (observes physical remote) = observe c physical remote

-- The timestamps that a clock issues over a history.
unfoldable pub issued : Clock → List Call → List Hlc
issued c [] = []
issued c (x ∷ xs) = (step c x).last ∷ issued (step c x) xs
