-- ===== src/Async/Invocation/Once.antt =====
-- Where an invocation is, however it is passed on, and that its operation is started once.
use dynabridge.Prelude.{
  Bool, List, Option, arith, false, if◌then◌else◌, none, not, refl, some, true, ℕ, ◌&&◌, ◌==◌, [],
  ◌∷◌, ◌≡◌,
}
use dynabridge.Async.Invocation.{
  Call, Erased, Program, Use, apply, apply_all, assigns, assigns_erased, erase, erases, made, move,
  start, start_erased, starts_erased, starts_static,
}

-- The four variables.
pub data Place : Type 0 where
  first second erased spare : Place

-- What has become of the only invocation: a variable holds it, it has been started, or another one
-- has been assigned to the variable that held it.
pub data Fate : Type 0 where
  held : Place → Fate
  started lost : Fate

abbrev index : Place → ℕ
index first = 0
index second = 1
index erased = 2
index spare = 3

abbrev same : Place → Place → Bool
same p q = index p == index q

abbrev static : Bool → Place
static true = first
static false = second

abbrev erased_place : Bool → Place
erased_place true = erased
erased_place false = spare

-- One variable is assigned to another.
abbrev passes : Place → Place → Fate → Fate
passes from to (held p) = if same p from then held to else if same p to then lost else held p
passes from to f = f

-- Only the variable that holds the invocation can be started; with another one the program ends.
abbrev begins : Place → Fate → Option Fate
begins place (held p) = if same p place then some started else none
begins place f = none

abbrev pub fate : Use → Fate → Option Fate
fate (assigns which true) f = some f
fate (assigns which false) f = some (passes (static (not which)) (static which) f)
fate (erases which) f = some (passes (static which) erased f)
fate (assigns_erased which) f = some (passes (erased_place (not which)) (erased_place which) f)
fate (starts_static which) f = begins (static which) f
fate (starts_erased which) f = begins (erased_place which) f

abbrev pub fate_all : List Use → Fate → Option Fate
fate_all [] f = some f
fate_all (u ∷ us) f = elim (fate u f) [ none ↦ none | some f' ↦ fate_all us f' ]

-- Whether an invocation can be started.
abbrev pub live : Call → Bool
live c = c.operation && c.context

abbrev pub live_erased : Erased → Bool
live_erased none = false
live_erased (some c) = live c

abbrev is_held : Place → Fate → Bool
is_held place (held p) = same p place
is_held place f = false

abbrev pub starts_of : Fate → ℕ
starts_of started = 1
starts_of f = 0

-- A variable can be started where it holds the invocation, and the operation has been started once
-- if that is its fate, and never otherwise.
pub record IsFate (p : Program) (f : Fate) : Type 0 where
  pub first : live p.first ≡ is_held first f
  pub second : live p.second ≡ is_held second f
  pub erased : live_erased p.erased ≡ is_held erased f
  pub spare : live_erased p.spare ≡ is_held spare f
  pub starts : p.starts ≡ starts_of f

-- The program goes on exactly where the fate says so.
abbrev pub Follows : Option Program → Option Fate → Type 0
Follows none none = Unit
Follows none (some f) = ⊥
Follows (some p) none = ⊥
Follows (some p) (some f) = IsFate p f

apply-Follows : (u : Use) (p : Program) (f : Fate) → IsFate p f → Follows (apply u p) (fate u f)
unfolding apply start start_erased erase move
apply-Follows (assigns which true) p f h = h
apply-Follows (assigns true false) p f h = ground arith
apply-Follows (assigns false false) p f h = ground arith
apply-Follows (erases true) p f h = ground arith
apply-Follows (erases false) p f h = ground arith
apply-Follows (assigns_erased true) p f h = ground arith
apply-Follows (assigns_erased false) p f h = ground arith
apply-Follows (starts_static true) p f h = ground arith
apply-Follows (starts_static false) p f h = ground arith
apply-Follows (starts_erased true) p f h = ground arith
apply-Follows (starts_erased false) p f h = ground arith

Follows-next :
    (run : Option Program) (f : Option Fate) (next : Program → Option Program)
    (next_fate : Fate → Option Fate)
    → Follows run f
    → ((p : Program) (f : Fate) → IsFate p f → Follows (next p) (next_fate f))
    → Follows
        (elim run [ none ↦ none | some p ↦ next p ])
        (elim f [ none ↦ none | some f' ↦ next_fate f' ])
Follows-next none none next next_fate h k = tt
Follows-next none (some f) next next_fate h k = elim h [ ]
Follows-next (some p) none next next_fate h k = elim h [ ]
Follows-next (some p) (some f) next next_fate h k = k p f h

apply_all-Follows :
    (us : List Use) (p : Program) (f : Fate) → IsFate p f → Follows (apply_all us p) (fate_all us f)
unfolding apply_all
apply_all-Follows [] p f h = h
apply_all-Follows (u ∷ us) p f h =
    Follows-next (apply u p) (fate u f) (apply_all us) (fate_all us) (apply-Follows u p f h)
      (apply_all-Follows us)

-- However an invocation is assigned, erased, assigned again and started: it is in one variable at
-- most, to which it has been passed, and the program ends where it starts a variable that does not
-- hold it, and only there; the operation has been started once where its variable has been started,
-- and otherwise not at all.
pub apply_all-IsOnce : (us : List Use) → Follows (apply_all us made) (fate_all us (held first))
apply_all-IsOnce us =
    apply_all-Follows us made (held first)
      (record { first = refl; second = refl; erased = refl; spare = refl; starts = refl })
