-- ===== src/Async/Invocation.antt =====
-- `static_invocation` and the type-erased `invocation` of dynabridge/async.h: who may start an
-- operation. What a start does is the state of Async.antt.
pub mod Once
use dynabridge.Prelude.{
  Bool, List, Option, false, if◌then◌else◌, none, not, some, suc, true, ℕ, ◌&&◌, [], ◌||◌, ◌∷◌,
}

-- A `static_invocation`: whether its context is there, and whether its operation is engaged.
pub record Call : Type 0 where
  pub context : Bool
  pub operation : Bool

abbrev pub fresh : Call
fresh = record { context = true; operation = true }

-- The move constructor: the new object, and what is left of the other. The `optional` stays
-- engaged, with an operation that has been moved from.
unfoldable pub move : Call → Call × Call
move other = (other, record other { context = false })

-- `start`: what is left, or `none` where `require` ends the program.
unfoldable pub start : Call → Option Call
start c =
    if c.operation && c.context then some (record { context = false; operation = false }) else none

-- An `invocation` holds a `static_invocation`, or null.
abbrev pub Erased : Type 0
Erased = Option Call

-- The constructor from a `static_invocation`: the new object, and what is left of the other.
unfoldable pub erase : Call → Erased × Call
unfolding move
erase call = let (inner, left) = move call in (some inner, left)

-- Its `start`: what the model's `start` leaves is destroyed, and null is left.
unfoldable pub start_erased : Erased → Option Erased
start_erased none = none
start_erased (some c) = elim (start c) [ none ↦ none | some left ↦ some none ]

-- Two static invocations and two erased ones, and how many operations have been started.
pub record Program : Type 0 where
  pub first : Call
  pub second : Call
  pub erased : Erased
  pub spare : Erased
  pub starts : ℕ

-- What a program does with them: it assigns a static invocation to the other one, or to itself; it
-- erases one; it assigns an erased one to the other; and it starts.
pub data Use : Type 0 where
  assigns : Bool → Bool → Use
  erases : Bool → Use
  assigns_erased : Bool → Use
  starts_static : Bool → Use
  starts_erased : Bool → Use

unfoldable pub apply : Use → Program → Option Program
apply (assigns which true) p = some p
apply (assigns true false) p =
    let (made, left) = move p.second in some (record p { first = made; second = left })
apply (assigns false false) p =
    let (made, left) = move p.first in some (record p { first = left; second = made })
apply (erases true) p =
    let (made, left) = erase p.first in some (record p { first = left; erased = made })
apply (erases false) p =
    let (made, left) = erase p.second in some (record p { second = left; erased = made })
apply (assigns_erased true) p = some (record p { erased = p.spare; spare = none })
apply (assigns_erased false) p = some (record p { erased = none; spare = p.erased })
apply (starts_static true) p = elim (start p.first) [
  | none ↦ none
  | some left ↦ some (record p { first = left; starts = suc p.starts })
]
apply (starts_static false) p = elim (start p.second) [
  | none ↦ none
  | some left ↦ some (record p { second = left; starts = suc p.starts })
]
apply (starts_erased true) p = elim (start_erased p.erased) [
  | none ↦ none
  | some left ↦ some (record p { erased = left; starts = suc p.starts })
]
apply (starts_erased false) p = elim (start_erased p.spare) [
  | none ↦ none
  | some left ↦ some (record p { spare = left; starts = suc p.starts })
]

unfoldable pub apply_all : List Use → Program → Option Program
apply_all [] p = some p
apply_all (u ∷ us) p = elim (apply u p) [ none ↦ none | some p' ↦ apply_all us p' ]

-- An invocation has been made in the first variable, and nothing else.
abbrev pub made : Program
made = record {
  first = fresh;
  second = record { context = false; operation = false };
  erased = none;
  spare = none;
  starts = 0;
}
