-- ===== src/Napi/Context/Current.antt =====
-- A context refers to the object that it was given last, its cache is of the same object, and every
-- reference is deleted once.
use dynabridge.Prelude.{
  Bool, List, Option, arith, false, if◌then◌else◌, none, refl, some, true, ℕ, ◌&&◌, ◌+◌, [], ◌∷◌,
  ◌≡◌,
}
use dynabridge.Napi.Context.{
  assign_made, import_impl, construct, constructed, Context, Contexts, Handle, Use, Value, World,
  apply, apply_all, assigns, callable, calls, destroy, empty, get, makes, move_assign, move_context,
  opens, refer, refresh, refresh_callable, refresh_this_arg, refreshes, reset, reset_to,
  set_callable, sets,
}

-- The cached handle is of the object that the context refers to.
abbrev pub Matches : Option Value → Handle → Type 0
Matches none handle = Unit
Matches (some v) none = Unit
Matches (some v) (some o) = v.object ≡ o

abbrev pub references : Handle → ℕ
references none = 0
references (some o) = 1

pub record IsCurrent (s : Contexts) : Type 0 where
  pub first : Matches s.first.callable_cache s.first.callable_
  pub second : Matches s.second.callable_cache s.second.callable_
  pub balance :
      s.world.created
      ≡ s.world.deleted + references s.first.callable_ + references s.second.callable_

sets-IsCurrent :
    (which : Bool) (object : Option ℕ) (s : Contexts)
    → IsCurrent s
    → IsCurrent (apply (sets which object) s)
unfolding apply set_callable reset_to refer reset
sets-IsCurrent true object s h = ground arith
sets-IsCurrent false object s h = ground arith

makes-IsCurrent :
    (which : Bool) (object : Option ℕ) (s : Contexts)
    → IsCurrent s
    → IsCurrent (apply (makes which object) s)
unfolding apply assign_made construct constructed refer refresh_this_arg destroy reset move_context
    move_assign
makes-IsCurrent true none s h = ground arith
makes-IsCurrent true (some o) s h = ground arith
makes-IsCurrent false none s h = ground arith
makes-IsCurrent false (some o) s h = ground arith

refreshes-IsCurrent :
    (which : Bool) (s : Contexts) → IsCurrent s → IsCurrent (apply (refreshes which) s)
unfolding apply refresh refresh_callable refresh_this_arg get
refreshes-IsCurrent true s h = ground arith
refreshes-IsCurrent false s h = ground arith

calls-IsCurrent : (which : Bool) (s : Contexts) → IsCurrent s → IsCurrent (apply (calls which) s)
unfolding apply callable refresh_callable get
calls-IsCurrent true s h = ground arith
calls-IsCurrent false s h = ground arith

assigns-IsCurrent :
    (which : Bool) (s : Contexts) → IsCurrent s → IsCurrent (apply (assigns which false) s)
unfolding apply move_context move_assign reset
assigns-IsCurrent true s h = ground arith
assigns-IsCurrent false s h = ground arith

-- What the two contexts stand for: the objects that they call and whether they have an environment;
-- and whether references can be made and `undefined` is given.
pub record View : Type 0 where
  pub first : Handle
  pub first_env : Bool
  pub second : Handle
  pub second_env : Bool
  pub creates : Bool
  pub gets : Bool

abbrev pub given : Option ℕ → Bool → Handle
given object true = object
given object false = none

-- A context can be constructed.
abbrev pub can_make : Option ℕ → View → Bool
can_make none v = v.gets
can_make (some o) v = v.creates && v.gets

abbrev pub view_change : Use → View → View
view_change (makes true object) v =
    if can_make object v then record v { first = object; first_env = true } else v
view_change (makes false object) v =
    if can_make object v then record v { second = object; second_env = true } else v
view_change (sets true object) v = record v { first = given object (v.first_env && v.creates) }
view_change (sets false object) v = record v { second = given object (v.second_env && v.creates) }
view_change (refreshes which) v = v
view_change (calls which) v = v
view_change (assigns which true) v = v
view_change (assigns true false) v = record v {
  first = v.second;
  first_env = v.second_env;
  second = none;
  second_env = false;
}
view_change (assigns false false) v = record v {
  first = none;
  first_env = false;
  second = v.first;
  second_env = v.first_env;
}
view_change (opens scope creates gets) v = record v { creates = creates; gets = gets }

-- The view of two contexts that have just been made by their default constructor.
abbrev pub nothing : View
nothing = record {
  first = none;
  first_env = false;
  second = none;
  second_env = false;
  creates = true;
  gets = true;
}

abbrev pub view_all : List Use → View → View
view_all [] v = v
view_all (u ∷ us) v = view_all us (view_change u v)

pub record IsView (s : Contexts) (v : View) : Type 0 where
  pub first : s.first.callable_ ≡ v.first
  pub second : s.second.callable_ ≡ v.second
  pub first_env : s.first.env ≡ v.first_env
  pub second_env : s.second.env ≡ v.second_env
  pub creates : s.world.creates ≡ v.creates
  pub gets : s.world.gets ≡ v.gets

apply-IsView :
    (u : Use) (s : Contexts) (v : View) → IsView s v → IsView (apply u s) (view_change u v)
unfolding apply set_callable reset_to refer reset refresh refresh_callable refresh_this_arg get
    callable move_context move_assign assign_made construct constructed destroy
apply-IsView (makes true none) s v h = ground arith
apply-IsView (makes true (some o)) s v h = ground arith
apply-IsView (makes false none) s v h = ground arith
apply-IsView (makes false (some o)) s v h = ground arith
apply-IsView (sets true object) s v h = ground arith
apply-IsView (sets false object) s v h = ground arith
apply-IsView (refreshes true) s v h = ground arith
apply-IsView (refreshes false) s v h = ground arith
apply-IsView (calls true) s v h = ground arith
apply-IsView (calls false) s v h = ground arith
apply-IsView (assigns which true) s v h = h
apply-IsView (assigns true false) s v h = ground arith
apply-IsView (assigns false false) s v h = ground arith
apply-IsView (opens scope creates gets) s v h = ground arith

apply-IsCurrent : (u : Use) (s : Contexts) → IsCurrent s → IsCurrent (apply u s)
unfolding apply
apply-IsCurrent (makes which object) s h = makes-IsCurrent which object s h
apply-IsCurrent (sets which object) s h = sets-IsCurrent which object s h
apply-IsCurrent (refreshes which) s h = refreshes-IsCurrent which s h
apply-IsCurrent (calls which) s h = calls-IsCurrent which s h
apply-IsCurrent (assigns which true) s h = h
apply-IsCurrent (assigns which false) s h = assigns-IsCurrent which s h
apply-IsCurrent (opens scope creates gets) s h = record {
  first = h.first;
  second = h.second;
  balance = h.balance;
}

apply_all-IsCurrent : (us : List Use) (s : Contexts) → IsCurrent s → IsCurrent (apply_all us s)
unfolding apply_all
apply_all-IsCurrent [] s h = h
apply_all-IsCurrent (u ∷ us) s h = apply_all-IsCurrent us (apply u s) (apply-IsCurrent u s h)

apply_all-IsView :
    (us : List Use) (s : Contexts) (v : View) → IsView s v → IsView (apply_all us s) (view_all us v)
unfolding apply_all
apply_all-IsView [] s v h = h
apply_all-IsView (u ∷ us) s v h =
    apply_all-IsView us (apply u s) (view_change u v) (apply-IsView u s v h)

-- Two contexts that have just been made, in an environment without references.
abbrev pub start : Contexts
start = record {
  first = empty;
  second = empty;
  world = record { created = 0; deleted = 0; scope = 0; creates = true; gets = true };
}

-- The handle that a context gives when it is called is of its object.
abbrev pub Gives : Handle → Option Value → Type 0
Gives none v = Unit
Gives (some o) none = ⊥
Gives (some o) (some v) = v.object ≡ o

-- A handle of the open scope.
abbrev pub IsOpen : Handle → World → Option Value → Type 0
IsOpen none w v = v ≡ none
IsOpen (some o) w v = v ≡ some (record { object = o; scope = w.scope })

-- What holds of a context whose object is known: what it gives when it is called, and what it gives
-- when it has been refreshed.
abbrev pub Stands : Context → Handle → World → Type 0
Stands c handle w = Gives handle (callable c w).0 × IsOpen handle w (callable (refresh c w).1 w).0

abbrev pub IsReleased : World → Type 0
IsReleased w = w.created ≡ w.deleted

context-Stands :
    (c : Context) (handle : Handle) (w : World)
    → Matches c.callable_cache c.callable_
    → c.callable_ ≡ handle
    → Stands c handle w
unfolding callable refresh refresh_callable refresh_this_arg get
context-Stands c handle w m e = ground arith

-- In whatever order two contexts are assigned from new ones, given callables, refreshed, called
-- and moved, in whatever handle scopes: a context that refers to the object that it was given last
-- gives a handle of that object when it is called, and one of the open scope when it has been
-- refreshed; and when both have been destroyed every reference has been deleted once.
pub apply_all-Stands :
    (us : List Use)
    → Stands (apply_all us start).first (view_all us nothing).first (apply_all us start).world
      × Stands (apply_all us start).second (view_all us nothing).second (apply_all us start).world
      × IsReleased (
          destroy
            (apply_all us start).second
            (destroy (apply_all us start).first (apply_all us start).world))
unfolding destroy reset
apply_all-Stands us =
    let s = apply_all us start in
    let h = apply_all-IsCurrent us start (record { first = tt; second = tt; balance = refl }) in
    let v = apply_all-IsView us start nothing (record {
      first = refl;
      second = refl;
      first_env = refl;
      second_env = refl;
      creates = refl;
      gets = refl;
    }) in
    (
      context-Stands s.first _ s.world h.first v.first,
      context-Stands s.second _ s.world h.second v.second,
      let b = h.balance in ground arith,
    )

-- An import that raises leaves no reference; otherwise the context holds one, to the property, and
-- gives its handle in the open scope.
pub import_impl-balance :
    (property : Option Value) (w : World)
    → (import_impl property w).2.created + w.deleted
      ≡ w.created
        + (import_impl property w).2.deleted
        + references (import_impl property w).1.callable_
unfolding import_impl construct refer constructed refresh_this_arg destroy reset
import_impl-balance none w = omega arith
import_impl-balance (some v) w = ground arith
