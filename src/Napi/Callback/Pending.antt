-- ===== src/Napi/Callback/Pending.antt =====
-- What a callback returns and which exception of JavaScript is pending then; and an exception
-- passes through C++ unchanged.
use mathlib.Core.Path.{subst}
use dynabridge.Prelude.{
  Bool, Bool-cases, List, Option, ap, arith, false, inl, inr, length, none, not, refl, some, suc,
  take, true, zero, ℕ, ◌==◌, [], ◌||◌, ◌∙◌, ◌∷◌, ◌≡◌, ◌≤◌,
}
use dynabridge.Prelude.Text.{codes}
use dynabridge.Raise.{Raise, ok, raised}
use dynabridge.Napi.Callback.{
  Host, Info, JsError, M, call, call_indices, callback, converted, copied, dispatched, failure,
  handle, invoke_impl, member_callback, overload_callback, received, returned, throw_error,
}

abbrev pub is_none {ℓ} : {A : Type ℓ} → Option A → Bool
is_none none = true
is_none (some a) = false

-- Null with an exception pending, or a value with none.
abbrev pub IsContract : Option ℕ × Option JsError → Type 0
IsContract (v, pending) = is_none v ≡ not (is_none pending)

-- What a dispatch may come to: no candidate; a value with no exception pending, or null with one; a
-- raise in any state.
abbrev pub IsOptionalOutcome : Raise (Option (Option ℕ)) × Option JsError → Type 0
IsOptionalOutcome (ok none, pending) = Unit
IsOptionalOutcome (ok (some v), pending) = IsContract (v, pending)
IsOptionalOutcome (raised e, pending) = Unit

module _ (js : Host) where
  throw_error-IsContract :
      (message : List ℕ) (pending : Option JsError) → IsContract (throw_error js message pending)
  unfolding throw_error
  throw_error-IsContract message none = refl
  throw_error-IsContract message (some e) = refl

  copied-all : (undefined : ℕ) (args : List ℕ) → copied undefined (length args) args ≡ args
  unfolding copied
  copied-all undefined [] = refl
  copied-all undefined (a ∷ args) = ap (◌∷◌ a) (copied-all undefined args)

  -- Null, with an exception of JavaScript pending.
  abbrev pub IsRefused : Option ℕ × Option JsError → Type 0
  IsRefused (v, pending) = (v ≡ none) × (is_none pending ≡ false)

  -- A return of the binder is passed on, with what is pending; `undefined` is returned for one of
  -- `void`; and of an exception of C++ one of JavaScript is made.
  abbrev pub IsPassedOn :
      Bool → Raise (Option ℕ) × Option JsError → Option ℕ × Option JsError → Type 0
  IsPassedOn false (ok v, pending) out = out ≡ (v, pending)
  IsPassedOn true (ok v, pending) out = out ≡ (some js.undefined, pending)
  IsPassedOn is_void (raised e, pending) out = IsRefused out

  -- The binder is not called, and the call is refused; or what it comes to is passed on.
  abbrev pub Enters :
      Bool → Bool → Raise (Option ℕ) × Option JsError → Option ℕ × Option JsError → Type 0
  Enters true is_void run out = IsRefused out
  Enters false is_void run out = IsPassedOn is_void run out

  throw_error-IsRefused :
      (message : List ℕ) (pending : Option JsError) → IsRefused (throw_error js message pending)
  unfolding throw_error
  throw_error-IsRefused message none = (refl, refl)
  throw_error-IsRefused message (some e) = (refl, refl)

  returned-IsPassedOn :
      (fallback : List ℕ) (is_void : Bool) (run : Raise (Option ℕ) × Option JsError)
      → IsPassedOn is_void run (handle js fallback (returned js is_void run))
  unfolding handle returned
  returned-IsPassedOn fallback false (ok v, pending) = refl
  returned-IsPassedOn fallback true (ok v, pending) = refl
  returned-IsPassedOn fallback false (raised e, pending) = throw_error-IsRefused _ pending
  returned-IsPassedOn fallback true (raised e, pending) = throw_error-IsRefused _ pending

  -- The call information fails, has another number of arguments, or no holder.
  abbrev pub is_refused : ℕ → Info → Bool
  is_refused arity info = not info.is_ok || not (length info.args == arity) || not info.holder

  accepted_args :
      (arity : ℕ) (info : Info)
      → is_refused arity info ≡ false
      → copied js.undefined arity info.args ≡ info.args
  accepted_args arity info b =
      let same : length info.args ≡ arity = ground arith in
      subst (λ n. copied js.undefined n info.args ≡ info.args) same
        (copied-all js.undefined info.args)

  -- The callback of a function or a member refuses a call with failing call information, another
  -- number of arguments or no holder, with null and an exception of JavaScript pending; otherwise
  -- it calls the binder with the arguments of the call, those of a member behind the receiver.
  -- What the binder returns is returned, with the exception that is pending then, or none, as the
  -- binder leaves it; `undefined` is returned for a binder of `void`; and where the binder throws,
  -- null is returned with an exception of JavaScript pending.
  pub callback-Enters :
      (is_void : Bool) (binder : List ℕ → M (Raise (Option ℕ))) (arity : ℕ) (info : Info)
      (pending : Option JsError)
      → Enters
          (is_refused arity info)
          is_void
          (binder info.args pending)
          (callback js is_void binder arity info pending)
        × Enters
            (is_refused arity info)
            is_void
            (binder (info.receiver ∷ info.args) pending)
            (member_callback js is_void binder arity info pending)
  unfolding callback member_callback call_indices
  callback-Enters is_void binder arity info pending = elim (Bool-cases (is_refused arity info)) [
    | inl b ↦ rw b (throw_error-IsRefused _ pending, throw_error-IsRefused _ pending)
    | inr b ↦
        let all = accepted_args arity info b in
        rw (b, all)
          (
            returned-IsPassedOn _ is_void (binder info.args pending),
            returned-IsPassedOn _ is_void (binder (info.receiver ∷ info.args) pending),
          )
  ]

  dispatched-IsContract :
      (run : Raise (Option (Option ℕ)) × Option JsError)
      → IsOptionalOutcome run
      → IsContract (dispatched js run)
  unfolding dispatched handle
  dispatched-IsContract (ok none, pending) h = throw_error-IsContract _ pending
  dispatched-IsContract (ok (some v), pending) h = h
  dispatched-IsContract (raised e, pending) h = throw_error-IsContract _ pending

  overload_callback-IsContract :
      (dispatch_optional : ℕ → List ℕ → M (Raise (Option (Option ℕ)))) (max_arity : ℕ) (info : Info)
      (pending : Option JsError)
      → ((n : ℕ) (args : List ℕ) → IsOptionalOutcome (dispatch_optional n args pending))
      → IsContract (overload_callback js dispatch_optional max_arity info pending)
  unfolding overload_callback
  overload_callback-IsContract dispatch_optional max_arity info pending h =
      elim (Bool-cases (not info.is_ok || not info.holder)) [
        | inl b ↦ rw b (throw_error-IsContract _ pending)
        | inr b ↦ rw b (dispatched-IsContract _ (h _ _))
      ]

  -- A C++ function that JavaScript calls, and that calls a function of JavaScript: the exception
  -- that the inner function throws is pending behind the outer call, if `napi_throw_error` leaves
  -- an exception that is pending.
  pub callback_relays :
      (from_cast : ℕ → Raise (Option ℕ)) (callable : ℕ) (inner : List ℕ) (arity : ℕ) (info : Info)
      (e : JsError)
      → js.function callable inner ≡ failure e
      → ((e : JsError) (message : List ℕ) → js.throws e message ≡ e)
      → (not info.is_ok || not (length info.args == arity) || not info.holder) ≡ false
      → callback js false (λ args. invoke_impl js from_cast callable inner) arity info none
        ≡ (none, some e)
  unfolding callback call_indices returned invoke_impl converted call received handle throw_error
  callback_relays from_cast callable inner arity info e f keeps b = rw b (
      ap
        (λ r.
          handle js (codes "dynabridge N-API callback failed")
            (converted js from_cast (received js r none)))
        f
      ∙ ap (λ x. (none, some x)) (keeps e (codes "napi_call_function failed")))

-- The buffer of an overload holds the arguments of every candidate that takes their number.
pub take-copied :
    (undefined size : ℕ) (args : List ℕ)
    → length args ≤ size
    → take (length args) (copied undefined size args) ≡ args
unfolding copied
take-copied undefined zero [] h = refl
take-copied undefined zero (a ∷ args) h = absurd (omega (arith, h))
take-copied undefined (suc size) [] h = refl
take-copied undefined (suc size) (a ∷ args) h =
    ap (◌∷◌ a) (take-copied undefined size args (omega (arith, h)))
