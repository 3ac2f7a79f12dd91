-- ===== src/Lab/Clock.antt =====
-- eventlog-lab/clock/clock.go. A wall-clock reading is an argument of the operation that takes it;
-- the mutex is left out, so an operation is one step.
pub mod Order
pub mod Monotonic
mod Examples
use Prim.Native.Nat.{compare as compare_ℕ}
use Prim.Native.String.{compare as compare_text}
use local_first_architecture.Base.{
  ℕ, suc, ◌+◌, ◌^◌, ◌-◌, Ordering, String, ◌≡◌, Bool, ◌&&◌, List, [], ◌∷◌, ltb, leb, nat_beq,
  if◌then◌else◌,
}
use local_first_architecture.Base.Order.{is_lt, or_else}
use local_first_architecture.Base.Int64.{Int64, add_int, int_zero, plus}

pub record Hlc : Type 0 where
  pub wall : Int64  -- unix milliseconds
  pub logical : ℕ  -- uint32
  pub node : String

abbrev pub max_uint32 : ℕ
max_uint32 = 2 ^ 32 - 1

-- HLC{}
abbrev pub no_hlc : Hlc
no_hlc = record { wall = int_zero; logical = 0; node = "" }

-- a.Compare(b): by Wall, then Logical, then NodeID
unfoldable pub compare : Hlc → Hlc → Ordering
compare a b =
    or_else (compare_ℕ a.wall b.wall)
      (or_else (compare_ℕ a.logical b.logical) (compare_text a.node b.node))

-- a.Before(b)
unfoldable pub before : Hlc → Hlc → Bool
unfolding compare
before a b = is_lt (compare a b)

pub record Clock : Type 0 where
  pub id : String
  pub last : Hlc

unfoldable pub new : String → Clock
new id = record { id = id; last = record { wall = int_zero; logical = 0; node = id } }

-- Past `prior`; a saturated counter carries into the wall component.
bump_logical : Hlc → Hlc → Hlc
unfolding add_int
bump_logical next prior =
    if nat_beq prior.logical max_uint32
    then record next { wall = add_int prior.wall (plus 1); logical = 0 }
    else record next { wall = prior.wall; logical = prior.logical + 1 }

-- The body of the loop in `tick`.
pass : Hlc → Hlc → Hlc
unfolding bump_logical
pass next prior =
    if ltb next.wall prior.wall
    then bump_logical next prior
    else if nat_beq next.wall prior.wall && leb next.logical prior.logical
    then bump_logical next prior
    else next

-- The new clock; the timestamp that is returned is its `last`.
tick : Clock → Int64 → Hlc → Clock
unfolding pass
tick c reading floor =
    let start : Hlc = record { wall = reading; logical = 0; node = c.id } in
    record c { last = pass (pass start c.last) floor }

unfoldable pub now : Clock → Int64 → Clock
unfolding tick pass bump_logical
now c reading = tick c reading (record { wall = int_zero; logical = 0; node = c.id })

unfoldable pub observe : Clock → Int64 → Hlc → Clock
unfolding tick pass bump_logical
observe c reading remote = tick c reading remote

-- A call on a clock with the wall reading that it takes.
pub data Call : Type 0 where
  calls_now : Int64 → Call
  observes : Int64 → Hlc → Call

abbrev pub step : Clock → Call → Clock
step c (calls_now reading) = now c reading
step c (observes reading remote) = observe c reading remote

-- The timestamps that a clock issues over a history.
pub issued : Clock → List Call → List Hlc
issued c [] = []
issued c (x ∷ xs) = (step c x).last ∷ issued (step c x) xs
