-- ===== src/Raise.antt =====
-- Failure as the source writes it, `DYNABRIDGE_RAISE` (dynabridge/error_policy.h), in a build with
-- exceptions: a raise ends the computation with the exception object. A message is its bytes.
use dynabridge.Prelude.{Bool, List, false, inl, inr, refl, true, ℕ, ◌≡◌, ◌⊎◌}

-- The exception classes that the modelled code raises or lets through. `std_exception` is any other
-- class derived from `std::exception`, and `foreign` is a thrown object of another kind.
pub data Exception : Type 0 where
  protocol_error remote_error bad_conversion std_exception : List ℕ → Exception
  foreign : Exception

pub data Raise {ℓ} (A : Type ℓ) : Type ℓ where
  ok : A → Raise A
  raised : Exception → Raise A

infixl 5 ◌>>=◌
abbrev pub ◌>>=◌ {ℓ κ} : {A : Type ℓ} {B : Type κ} → Raise A → (A → Raise B) → Raise B
ok a >>= f = f a
raised e >>= f = raised e

-- `if (test) DYNABRIDGE_RAISE(error);`
abbrev pub raise_if : Bool → Exception → Raise (Unit {0})
raise_if true e = raised e
raise_if false e = ok tt

infixl 5 ◌>>◌
abbrev pub ◌>>◌ {ℓ} : {B : Type ℓ} → Raise (Unit {0}) → Raise B → Raise B
m >> k = m >>= λ _. k

pub >>=-ok {ℓ κ} :
    {A : Type ℓ} {B : Type κ} (m : Raise A) (f : A → Raise B) {a : A} → m ≡ ok a → (m >>= f) ≡ f a
>>=-ok m f e = rw (e, ◌>>=◌)

module _ {ℓ} {A : Type ℓ} where
  pub Raise-cases : (r : Raise A) → ((a : A) × (r ≡ ok a)) ⊎ ((e : Exception) × (r ≡ raised e))
  Raise-cases (ok a) = inl (a, refl)
  Raise-cases (raised e) = inr (e, refl)
