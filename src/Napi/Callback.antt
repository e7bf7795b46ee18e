-- ===== src/Napi/Callback.antt =====
-- Calls between JavaScript and C++ in dynabridge/backends/napi.h: the callbacks of functions,
-- members and overloads, which turn what C++ throws into an exception of JavaScript, and `call`.
--
-- A value is a number, and null where a callback returns `nullptr`. The state is the pending
-- exception of JavaScript.
pub mod Pending
use dynabridge.Prelude.{
  Bool, List, Option, false, if◌then◌else◌, length, none, not, some, suc, true, zero, ℕ, ◌+◌, ◌==◌,
  [], ◌||◌, ◌∷◌,
}
use dynabridge.Prelude.Text.{codes}
use dynabridge.Raise.{Exception, Raise, ok, raised}

-- An exception of JavaScript: an error with a message, or a value that was thrown.
pub data JsError : Type 0 where
  error : List ℕ → JsError
  value : ℕ → JsError

abbrev pub M : Type 0 → Type 0
M A = Option JsError → A × Option JsError

-- How the call of a JavaScript function ends.
pub data Reply : Type 0 where
  result : ℕ → Reply
  failure : JsError → Reply

-- Node-API. `throws` is the exception that is pending after `napi_throw_error` where one was
-- pending before, and `undefined` the value of that name.
pub record Host : Type 0 where
  pub throws : JsError → List ℕ → JsError
  pub function : ℕ → List ℕ → Reply
  pub undefined : ℕ

-- What `napi_get_cb_info` says of a call: whether it returns `napi_ok`, the receiver, all
-- arguments, and whether there is a holder.
pub record Info : Type 0 where
  pub is_ok : Bool
  pub receiver : ℕ
  pub args : List ℕ
  pub holder : Bool

-- What comes into a buffer of the given size: the arguments that fit, and `undefined` behind them.
unfoldable pub copied : ℕ → ℕ → List ℕ → List ℕ
copied undefined zero args = []
copied undefined (suc size) [] = undefined ∷ copied undefined size []
copied undefined (suc size) (a ∷ args) = a ∷ copied undefined size args

abbrev pub what : List ℕ → Exception → List ℕ
what fallback (Exception.bad_conversion m) = m
what fallback (Exception.protocol_error m) = m
what fallback (Exception.remote_error m) = m
what fallback (Exception.std_exception m) = m
what fallback Exception.foreign = fallback

module _ (js : Host) where
  -- `napi_throw_error`, and `return nullptr`.
  unfoldable pub throw_error : List ℕ → M (Option ℕ)
  throw_error message none = (none, some (error message))
  throw_error message (some e) = (none, some (js.throws e message))

  -- The `catch` clauses, for the text of the last of them.
  unfoldable pub handle : List ℕ → Raise (Option ℕ) × Option JsError → Option ℕ × Option JsError
  handle fallback (ok v, pending) = (v, pending)
  handle fallback (raised e, pending) = throw_error (what fallback e) pending

  returned : Bool → Raise (Option ℕ) × Option JsError → Raise (Option ℕ) × Option JsError
  returned true (ok v, pending) = (ok (some js.undefined), pending)
  returned is_void run = run

  -- `typed_callback_holder::call_indices`: of a binder of `void`, `undefined` is returned.
  unfoldable pub call_indices :
      Bool → (List ℕ → M (Raise (Option ℕ))) → List ℕ → M (Raise (Option ℕ))
  unfolding returned
  call_indices is_void binder args pending = returned is_void (binder args pending)

  -- `callback_dispatch::call`
  unfoldable pub callback : Bool → (List ℕ → M (Raise (Option ℕ))) → ℕ → Info → M (Option ℕ)
  callback is_void binder arity info pending =
      if not info.is_ok || not (length info.args == arity) || not info.holder
      then throw_error (codes "dynabridge N-API callback received invalid call info") pending
      else handle (codes "dynabridge N-API callback failed")
          (call_indices is_void binder (copied js.undefined arity info.args) pending)

  -- `member_callback_dispatch::call`; the binder takes the receiver first.
  unfoldable pub member_callback : Bool → (List ℕ → M (Raise (Option ℕ))) → ℕ → Info → M (Option ℕ)
  member_callback is_void binder arity info pending =
      if not info.is_ok || not (length info.args == arity) || not info.holder
      then throw_error (codes "dynabridge N-API callback received invalid call info") pending
      else handle (codes "dynabridge N-API callback failed") (
          call_indices is_void binder (info.receiver ∷ copied js.undefined arity info.args) pending)

  dispatched : Raise (Option (Option ℕ)) × Option JsError → Option ℕ × Option JsError
  dispatched (ok none, pending) =
      throw_error (codes "dynabridge N-API overload has no matching signature") pending
  dispatched (ok (some v), pending) = (v, pending)
  dispatched (raised e, pending) =
      handle (codes "dynabridge N-API overload callback failed") (raised e, pending)

  -- `overload_callback_holder::callback`, for the greatest arity of the overloads.
  unfoldable pub overload_callback :
      (ℕ → List ℕ → M (Raise (Option (Option ℕ)))) → ℕ → Info → M (Option ℕ)
  unfolding dispatched
  overload_callback dispatch_optional max_arity info pending =
      if not info.is_ok || not info.holder
      then throw_error (codes "dynabridge N-API overload callback received invalid call info")
          pending
      else dispatched (
          dispatch_optional (length info.args) (copied js.undefined (max_arity + 1) info.args)
            pending)

  received : Reply → M (Raise ℕ)
  received (result v) pending = (ok v, pending)
  received (failure e) pending =
      (raised (Exception.std_exception (codes "napi_call_function failed")), some e)

  -- `call`
  unfoldable pub call : ℕ → List ℕ → M (Raise ℕ)
  unfolding received
  call callable args = received (js.function callable args)

module _ (js : Host) {V : Type 0} (from_cast : ℕ → Raise V) where
  converted : Raise ℕ × Option JsError → Raise V × Option JsError
  converted (ok v, pending) = (from_cast v, pending)
  converted (raised e, pending) = (raised e, pending)

  -- `invoke_impl`; with a receiver, the receiver is the first argument. For `void` the result is
  -- not looked at: `from_cast` is then constant.
  unfoldable pub invoke_impl : ℕ → List ℕ → M (Raise V)
  unfolding converted
  invoke_impl callable args pending = converted (call js callable args pending)
