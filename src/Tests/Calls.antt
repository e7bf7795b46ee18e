-- ===== src/Tests/Calls.antt =====
-- The theorems on the router and the export dispatch at concrete routes, candidates and frames.
use dynabridge.Prelude.{
  All, List, arith, false, if◌then◌else◌, length, none, refl, some, true, ℕ, ◌+◌, ◌<◌, ◌==◌, [],
  ◌^◌, ◌∷◌, ◌≡◌, ◌≤◌,
}
use dynabridge.Prelude.Text.{codes}
use dynabridge.Raise.{Raise}
use dynabridge.Rpc.Value
use dynabridge.Rpc.Value.{Value}
use dynabridge.Rpc.Convert.{unsigned_converter, unsigned_probe, string_converter, string_probe}
use dynabridge.Rpc.Convert.Laws.{unsigned-IsConverter}
use dynabridge.Rpc.Codec.Wire.{IsSendable, owned}
use dynabridge.Rpc.Codec.Wire
use dynabridge.Rpc.Symbol.{symbol_id, symbol_id-lt}
use dynabridge.Rpc.Frame.Encode.{IsCallable}
use dynabridge.Rpc.Router.{
  transactional, Route, make, define, add_route, place_at, lower_bound, insert, find, dispatch,
  remote_call, invoke_impl,
}
use dynabridge.Rpc.Router.Table.{IsTable, lookup, find-lookup}
use dynabridge.Rpc.Router.Define.{define_lem}
use dynabridge.Rpc.Router.Serve.{Answers, dispatch-Answers}
use dynabridge.Rpc.Bind.{scalar_argument}
use dynabridge.Rpc.Bind.Call.{Sent, typed_call, typed_call_result}
use dynabridge.Export.Dispatch.{can_access, Candidate, has_descriptor, dispatch_optional}
use dynabridge.Export.Plan.{and_then}
use dynabridge.Export.Dispatch.{call_optional}
use dynabridge.Export.Binder.{free_message, invoke_converted}
use dynabridge.Export.Binder.Laws.{invoke_converted_lem, or_failed}
use dynabridge.Export.Dispatch.Select.{Selects, first_viable, chosen, probes_of, select_lem}

abbrev three : Sent ℕ
three = record {
  T = ℕ;
  Range = _;
  converter = unsigned_converter;
  lawful = unsigned-IsConverter;
  inject = λ n. n;
  value = 3;
  in_range = omega arith;
}

abbrev two : Sent ℕ
two = record three { value = 2; in_range = omega arith }

abbrev sum : List ℕ → ℕ
sum [] = 0
sum (n ∷ ns) = n + sum ns

-- `length(const std::string&)` and `add(unsigned, unsigned)`.
abbrev measure : Candidate Value ℕ
measure = record {
  is_unmatched = false;
  params = scalar_argument string_converter length ∷ [];
  callable = λ ns. Raise.ok (Value.unsigned_integer (sum ns));
}

abbrev add : Candidate Value ℕ
add = record {
  is_unmatched = false;
  params =
      scalar_argument unsigned_converter (λ n. n)
      ∷ scalar_argument unsigned_converter (λ n. n)
      ∷ [];
  callable = λ ns. Raise.ok (Value.unsigned_integer (sum ns));
}

abbrev candidates : List (Candidate Value ℕ)
candidates = measure ∷ add ∷ []

abbrev name : List ℕ
name = codes "add"

abbrev numbers : List Value
numbers = Value.unsigned_integer 3 ∷ Value.unsigned_integer 2 ∷ []

abbrev routes : List Route
routes = make (symbol_id name) name (transactional candidates) ∷ []

number-IsSendable : (n : ℕ) → n < 2 ^ 64 → IsSendable (Value.unsigned_integer n)
number-IsSendable n h = record { is_value = Wire.unsigned_integer n h; short = omega arith }

numbers-IsCallable : (method : ℕ) → method < 2 ^ 64 → IsCallable method numbers
numbers-IsCallable method h = record {
  sendable = (number-IsSendable 3 (omega arith), (number-IsSendable 2 (omega arith), tt));
  method_lt = h;
  count_lt = omega arith;
  fits = omega arith;
}

scalar : All (λ (k : Candidate Value ℕ). has_descriptor k.params ≡ false) candidates
unfolding has_descriptor scalar_argument
scalar = (refl, (refl, tt))

second_viable : first_viable none numbers candidates ≡ some add
unfolding can_access scalar_argument unsigned_converter unsigned_probe string_converter string_probe
second_viable = refl

empty-IsTable : IsTable []
empty-IsTable = record { ascending = tt; hashed = tt }

routes-IsTable : IsTable routes
routes-IsTable = record { ascending = (tt, tt); hashed = (refl, tt) }

defined : define name (transactional candidates) [] ≡ Raise.ok routes
unfolding define add_route place_at lower_bound insert
defined = refl

typed_call_example :
    remote_call routes (symbol_id name) numbers ≡ some (Raise.ok (Value.unsigned_integer 5))
unfolding unsigned_converter
typed_call_example =
    typed_call name candidates [] routes add (three ∷ two ∷ []) empty-IsTable defined scalar
      second_viable refl (numbers-IsCallable (symbol_id name) (symbol_id-lt name))
      (number-IsSendable 5 (omega arith))

define_lem_example :
    IsTable routes
    × ((id : ℕ)
        → find routes id ≡ (
            if symbol_id name == id
            then some (make (symbol_id name) name (transactional candidates))
            else find [] id))
define_lem_example = define_lem name (transactional candidates) [] routes empty-IsTable defined

find-lookup_example : find routes (symbol_id name) ≡ lookup routes (symbol_id name)
find-lookup_example = find-lookup routes (symbol_id name) (tt, tt)

dispatch-Answers_example :
    (response : Raise (List ℕ)) × (dispatch routes (1 ∷ 2 ∷ []) ≡ some response)
    × Answers routes (1 ∷ 2 ∷ []) response
dispatch-Answers_example = dispatch-Answers routes (1 ∷ 2 ∷ []) (omega arith, (omega arith, tt))

select_lem_example :
    Selects
      (probes_of none numbers candidates)
      (dispatch_optional true none candidates 2 numbers)
      (chosen (first_viable none numbers candidates) numbers)
select_lem_example = select_lem none candidates numbers scalar

typed_call_result_example :
    invoke_impl unsigned_converter.from routes (symbol_id name) numbers ≡ some (Raise.ok 5)
unfolding unsigned_converter
typed_call_result_example =
    typed_call_result (λ n. n ≤ 4294967295) unsigned_converter name candidates [] routes add
      (three ∷ two ∷ []) 5 unsigned-IsConverter empty-IsTable defined scalar second_viable refl
      (numbers-IsCallable (symbol_id name) (symbol_id-lt name)) (omega arith) refl

invoke_converted_lem_example :
    invoke_converted free_message true add numbers
    ≡ and_then (call_optional true add numbers) (or_failed free_message)
invoke_converted_lem_example = invoke_converted_lem free_message true add numbers
