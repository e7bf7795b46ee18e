-- ===== src/Rpc/Bind.antt =====
-- The RPC converters as arguments of the export dispatch: `export_argument` of
-- dynabridge/export_callable.h for a type that `rpc_backend::converter` is specialised for.
pub mod Call
use dynabridge.Prelude.{Bool, Option, false, none, refl, some, sym, true, ◌∙◌, ◌≡◌}
use dynabridge.Raise
use dynabridge.Rpc.Value.{Value}
use dynabridge.Rpc.Convert.{Converter}
use dynabridge.Rpc.Convert.Laws.{IsConverter, is_some}
use dynabridge.Export.Plan.{Argument}
use dynabridge.Export.Dispatch.Commit.{IsLawful}

option_map {ℓ κ} : {A : Type ℓ} {B : Type κ} → (A → B) → Option A → Option B
option_map f none = none
option_map f (some a) = some (f a)

-- `inject` puts the native argument among those of the callable.
unfoldable pub scalar_argument : {T N : Type 0} → Converter T → (T → N) → Argument Value N
unfolding option_map
scalar_argument c inject = record {
  is_descriptor = false;
  probe = c.probe;
  try_make = λ v. (Raise.ok (option_map inject (c.from_mutable v).0), (c.from_mutable v).1);
}

is_some_eq : {T : Type 0} (o : Option T) → is_some o ≡ true → (x : T) × (o ≡ some x)
is_some_eq none h = cc
is_some_eq (some x) h = (x, refl)

module _ {T N : Type 0} (P : T → Type 0) (c : Converter T) (lawful : IsConverter P c)
    (inject : T → N) where
  pub try_make_some :
      (v : Value) (x : T)
      → (c.from_mutable v).0 ≡ some x
      → (scalar_argument c inject).try_make v ≡ (Raise.ok (some (inject x)), (c.from_mutable v).1)
  unfolding scalar_argument option_map
  try_make_some v x e = rw e refl

  -- The contract of a converter is what the dispatch relies on.
  pub scalar_argument-IsLawful : IsLawful (scalar_argument c inject)
  unfolding scalar_argument
  scalar_argument-IsLawful = record {
    scalar = refl;
    converts = λ v h.
        let (x, e) = is_some_eq (c.from v) (sym (lawful.probe_exact v) ∙ h) in
        (inject x, (c.from_mutable v).1, try_make_some v x (lawful.mutable_agrees v ∙ e));
  }
