-- ===== src/Warehouse/Hlc.antt =====
-- warehouse-node/internal/domain/hlc.go. A wall-clock reading is an argument, as it is in the source.
pub mod Order
pub mod Advance
mod Examples
use Prim.Native.String.{compare as compare_text}
use local_first_architecture.Base.{
  ℕ, ◌+◌, ◌^◌, ◌-◌, Ordering, String, ◌≡◌, Bool, not, ◌&&◌, ltb, nat_beq, ◌==◌, text_comparable,
  if◌then◌else◌,
}
use local_first_architecture.Base.Int64.{Int64, add_int, plus}
use local_first_architecture.Base.Order.{is_lt}

pub record Hlc : Type 0 where
  pub wall : Int64  -- unix milliseconds
  pub counter : ℕ  -- uint32
  pub node : String

-- math.MaxUint32
abbrev pub max_uint32 : ℕ
max_uint32 = 2 ^ 32 - 1

-- less(isLess): -1 or 1
abbrev pub sign_of : Bool → Ordering
sign_of Bool.true = Ordering.lt
sign_of Bool.false = Ordering.gt

-- h.Compare(other), with -1, 0 and 1 as lt, eq and gt
unfoldable pub compare : Hlc → Hlc → Ordering
compare h other =
    if not (nat_beq h.wall other.wall)
    then sign_of (ltb h.wall other.wall)
    else if not (nat_beq h.counter other.counter)
    then sign_of (ltb h.counter other.counter)
    else if not (h.node == other.node)
    then sign_of (is_lt (compare_text h.node other.node))
    else Ordering.eq

-- bump(wall, counter, node): a saturated counter carries into the wall component.
unfoldable pub bump : Int64 → ℕ → String → Hlc
bump wall counter node =
    if nat_beq counter max_uint32
    then record { wall = add_int wall (plus 1); counter = 0; node = node }
    else record { wall = wall; counter = counter + 1; node = node }

-- Tick(prev, nowMillis, node)
unfoldable pub tick : Hlc → Int64 → String → Hlc
tick prev now_millis node =
    if ltb prev.wall now_millis
    then record { wall = now_millis; counter = 0; node = node }
    else bump prev.wall prev.counter node

-- max64 and maxU32
abbrev pub max_of : ℕ → ℕ → ℕ
max_of a b = if ltb b a then a else b

-- Merge(local, remote, nowMillis, node)
unfoldable pub merge : Hlc → Hlc → Int64 → String → Hlc
merge local remote now_millis node =
    let max_wall = max_of (max_of local.wall remote.wall) now_millis in
    if nat_beq max_wall now_millis && ltb local.wall now_millis && ltb remote.wall now_millis
    then record { wall = now_millis; counter = 0; node = node }
    else if nat_beq max_wall local.wall && nat_beq max_wall remote.wall
    then bump max_wall (max_of local.counter remote.counter) node
    else if nat_beq local.wall max_wall
    then bump max_wall local.counter node
    else bump max_wall remote.counter node
