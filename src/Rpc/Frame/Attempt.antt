-- ===== src/Rpc/Frame/Attempt.antt =====
-- Reading procedures with a `return false`: on every sequence of bytes they accept, with what has
-- been read and what is left in the grammar's relation, or they return false. Neither is a fault.
use dynabridge.Prelude.{List, Option, ap, append_assoc, false, none, some, sym, ℕ, ◌++◌, ◌∙◌, ◌≡◌}
use dynabridge.Rpc.Endian.{IsBytes}
use dynabridge.Rpc.Reader.{Reader, Read, ◌>>=◌, reader}
use dynabridge.Rpc.Reader.Laws.{>>=-some}
use dynabridge.Rpc.Reader.Grammar.{Decoded, accepted, refused, IsSticky}

pub data Attempt {ℓ} {A : Type ℓ} (G : A → List ℕ → List ℕ → Type ℓ) (m : Read (Option A))
    (bs : List ℕ) : Type ℓ where
  taken :
      (a : A) (enc rest : List ℕ)
      → bs ≡ enc ++ rest
      → G a enc rest
      → IsBytes rest
      → m (reader bs) ≡ some (some a, reader rest)
      → Attempt G m bs
  failed : (r : Reader) → m (reader bs) ≡ some (none, r) → Attempt G m bs

-- From an invalid reader the procedure returns false.
abbrev pub Fails {ℓ} : {A : Type ℓ} → Read (Option A) → Type ℓ
Fails m = (r : Reader) → r.valid ≡ false → (r' : Reader) × (m r ≡ some (none, r'))

pub >>=-Fails {ℓ} :
    {A B : Type ℓ} (m : Read A) (f : A → Read (Option B))
    → IsSticky m
    → ((a : A) → Fails (f a))
    → Fails (m >>= f)
>>=-Fails m f sm ff r h =
    let (a, r', e, v) = sm.sticks r h in let (r'', e') = ff a r' v in (r'', >>=-some m f r e ∙ e')

module _ {ℓ} {A B : Type ℓ} {G : A → List ℕ → Type ℓ} {K : B → List ℕ → List ℕ → Type ℓ} where
  pub >>=-Attempt :
      (m : Read A) (f : A → Read (Option B)) (bs : List ℕ)
      → Decoded G m bs
      → ((a : A) (enc rest : List ℕ)
          → G a enc
          → IsBytes rest
          → Attempt (λ b tail left. K b (enc ++ tail) left) (f a) rest)
      → ((a : A) → Fails (f a))
      → Attempt K (m >>= f) bs
  >>=-Attempt m f bs (refused a r e v) next ff =
      let (r', e') = ff a r v in failed r' (>>=-some m f (reader bs) e ∙ e')
  >>=-Attempt m f bs (accepted a enc rest split g bytes e) next ff =
      elim (next a enc rest g bytes) [
        | taken b enc' rest' split' g' bytes' e' ↦
            taken b (enc ++ enc') rest'
              (split ∙ ap (◌++◌ enc) split' ∙ sym (append_assoc enc enc' rest')) g' bytes'
              (>>=-some m f (reader bs) e ∙ e')
        | failed r e' ↦ failed r (>>=-some m f (reader bs) e ∙ e')
      ]
