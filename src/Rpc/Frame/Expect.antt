-- ===== src/Rpc/Frame/Expect.antt =====
-- Reading procedures that go on only behind an expected number, such as a magic number.
use dynabridge.Prelude.{
  Bool-cases, List, Option, ap, false, if◌then◌else◌, inl, inr, none, not, true, ℕ, ◌++◌, ◌==◌,
  ==_iff, ◌∙◌, ◌≡◌,
}
use dynabridge.Rpc.Endian.{IsBytes, le_bytes}
use dynabridge.Rpc.Reader.{Read, ◌>>=◌, pure, reader, integer}
use dynabridge.Rpc.Reader.Grammar.{IsNumber-le_bytes, integer-Decoded}
use dynabridge.Rpc.Frame.Attempt.{Attempt, taken, failed, Fails, >>=-Attempt}

-- The same call under another name, and a weaker relation.
pub Attempt-map {ℓ} :
    {A : Type ℓ} {G K : A → List ℕ → List ℕ → Type ℓ} (m m' : Read (Option A)) (bs : List ℕ)
    → m' (reader bs) ≡ m (reader bs)
    → ((a : A) (enc rest : List ℕ) → G a enc rest → K a enc rest)
    → Attempt G m bs
    → Attempt K m' bs
Attempt-map m m' bs same f (taken a enc rest split g bytes e) =
    taken a enc rest split (f a enc rest g) bytes (same ∙ e)
Attempt-map m m' bs same f (failed r e) = failed r (same ∙ e)

-- A test of a number that has been read.
unfoldable pub expect {ℓ} : {A : Type ℓ} → ℕ → Read (Option A) → ℕ → Read (Option A)
expect wanted m n = if not (n == wanted) then pure none else m

expect-eq {ℓ} :
    {A : Type ℓ} (wanted : ℕ) (m : Read (Option A)) (n : ℕ)
    → (n == wanted) ≡ true
    → expect wanted m n ≡ m
unfolding expect
expect-eq wanted m n h = rw h

expect-ne {ℓ} :
    {A : Type ℓ} (wanted : ℕ) (m : Read (Option A)) (n : ℕ)
    → (n == wanted) ≡ false
    → expect wanted m n ≡ pure none
unfolding expect
expect-ne wanted m n h = rw h

pub expect-Fails {ℓ} :
    {A : Type ℓ} (wanted : ℕ) (m : Read (Option A)) → Fails m → (n : ℕ) → Fails (expect wanted m n)
expect-Fails wanted m ff n r h = elim (Bool-cases (n == wanted)) [
  | inl e ↦ let (r', e') = ff r h in (r', ap (λ f. f r) (expect-eq wanted m n e) ∙ e')
  | inr e ↦ (r, ap (λ f. f r) (expect-ne wanted m n e))
]

pub expect-Attempt :
    {A : Type 0} (width wanted : ℕ) (m : Read (Option A)) (G : A → List ℕ → List ℕ → Type 0)
    (bs : List ℕ)
    → IsBytes bs
    → Fails m
    → ((rest : List ℕ)
        → IsBytes rest
        → Attempt (λ req enc left. G req (le_bytes width wanted ++ enc) left) m rest)
    → Attempt G (integer width >>= expect wanted m) bs
expect-Attempt width wanted m G bs h ff next =
    >>=-Attempt (integer width) (expect wanted m) bs (integer-Decoded width bs h)
      (λ n enc rest hn hr. elim (Bool-cases (n == wanted)) [
        | inl e ↦
            Attempt-map m (expect wanted m n) rest
              (ap (λ f. f (reader rest)) (expect-eq wanted m n e))
              (λ req tail left g. rw (IsNumber-le_bytes hn, (==_iff n wanted).0 e) g) (next rest hr)
        | inr e ↦ failed (reader rest) (ap (λ f. f (reader rest)) (expect-ne wanted m n e))
      ])
      (expect-Fails wanted m ff)
