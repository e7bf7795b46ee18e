-- ===== src/Rpc/Reader/Grammar.antt =====
-- A reading procedure against a grammar: on every sequence of bytes it either accepts a prefix that
-- the grammar derives, or leaves the reader invalid. Either way it does not touch a byte outside
-- the frame, since that would be the fault `none`.
use dynabridge.Prelude.{
  All-drop, All-take, List, ap, append_assoc, arith, drop, false, length, length-take_le, refl,
  some, sym, take, take-drop, ℕ, ◌*◌, ◌++◌, ◌<◌, [], ◌^◌, ◌∙◌, ◌≡◌,
}
use mathlib.Core.Path.{ap₂}
use native.Mathlib.Decide.{dec_lt}
use dynabridge.Rpc.Endian.{IsByte, IsBytes, le_bytes, le_value, le_bytes-le_value, le_value-lt}
use dynabridge.Rpc.Reader.{Reader, Read, ◌>>=◌, pure, reader, invalidate, integer, raw, text_of}
use dynabridge.Rpc.Reader.Laws.{
  >>=-some, integer-reader, integer_short, integer_invalid, text_of_invalid, text_of_short,
  text_of-reader,
}

pub data Decoded {ℓ} {A : Type ℓ} (G : A → List ℕ → Type ℓ) (m : Read A) (bs : List ℕ)
    : Type ℓ where
  accepted :
      (a : A) (enc rest : List ℕ)
      → bs ≡ enc ++ rest
      → G a enc
      → IsBytes rest
      → m (reader bs) ≡ some (a, reader rest)
      → Decoded G m bs
  refused : (a : A) (r : Reader) → m (reader bs) ≡ some (a, r) → r.valid ≡ false → Decoded G m bs

-- An invalid reader stays invalid.
pub record IsSticky {ℓ} {A : Type ℓ} (m : Read A) : Type ℓ where
  pub sticks :
      (r : Reader)
      → r.valid ≡ false
      → (a : A) × (r' : Reader) × (m r ≡ some (a, r')) × (r'.valid ≡ false)

pub pure-IsSticky {ℓ} : {A : Type ℓ} (a : A) → IsSticky (pure a)
pure-IsSticky a = record { sticks = λ r h. (a, r, refl, h) }

pub >>=-IsSticky {ℓ} :
    {A B : Type ℓ} (m : Read A) (f : A → Read B)
    → IsSticky m
    → ((a : A) → IsSticky (f a))
    → IsSticky (m >>= f)
>>=-IsSticky m f sm sf = record {
  sticks = λ r h.
      let (a, r', e, v) = sm.sticks r h in
      let (b, r'', e', v') = (sf a).sticks r' v in (b, r'', >>=-some m f r e ∙ e', v');
}

pub integer-IsSticky : (width : ℕ) → IsSticky (integer width)
integer-IsSticky width = record {
  sticks = λ r h. (0, record r { valid = false }, integer_invalid width r h, refl);
}

pub text_of-IsSticky : (size : ℕ) → IsSticky (text_of size)
text_of-IsSticky size = record {
  sticks = λ r h. ([], record r { valid = false }, text_of_invalid size r h, refl);
}

pub raw-IsSticky : IsSticky raw
unfolding raw
raw-IsSticky = >>=-IsSticky (integer 4) text_of (integer-IsSticky 4) text_of-IsSticky

pub invalidate-IsSticky : IsSticky invalidate
invalidate-IsSticky = record { sticks = λ r h. (tt, record r { valid = false }, refl, refl) }

module _ {ℓ} {A B : Type ℓ} {G : A → List ℕ → Type ℓ} {K : B → List ℕ → Type ℓ} where
  -- Steps in sequence: the second reads what the first has left.
  pub >>=-Decoded :
      (m : Read A) (f : A → Read B) (bs : List ℕ)
      → Decoded G m bs
      → ((a : A) (enc rest : List ℕ)
          → G a enc
          → IsBytes rest
          → Decoded (λ b tail. K b (enc ++ tail)) (f a) rest)
      → ((a : A) → IsSticky (f a))
      → Decoded K (m >>= f) bs
  >>=-Decoded m f bs (refused a r e v) next sf =
      let (b, r', e', v') = (sf a).sticks r v in refused b r' (>>=-some m f (reader bs) e ∙ e') v'
  >>=-Decoded m f bs (accepted a enc rest split g bytes e) next sf =
      elim (next a enc rest g bytes) [
        | accepted b enc' rest' split' g' bytes' e' ↦
            accepted b (enc ++ enc') rest'
              (split ∙ ap (◌++◌ enc) split' ∙ sym (append_assoc enc enc' rest')) g' bytes'
              (>>=-some m f (reader bs) e ∙ e')
        | refused b r e' v ↦ refused b r (>>=-some m f (reader bs) e ∙ e') v
      ]

pub Decoded-mono {ℓ} :
    {A : Type ℓ} {G K : A → List ℕ → Type ℓ} {m : Read A} {bs : List ℕ}
    → Decoded G m bs
    → ((a : A) (enc : List ℕ) → G a enc → K a enc)
    → Decoded K m bs
Decoded-mono (accepted a enc rest split g bytes e) f = accepted a enc rest split (f a enc g) bytes e
Decoded-mono (refused a r e v) f = refused a r e v

pub pure-Decoded {ℓ} :
    {A : Type ℓ} {G : A → List ℕ → Type ℓ} (a : A) (bs : List ℕ)
    → IsBytes bs
    → G a []
    → Decoded G (pure a) bs
pure-Decoded a bs bytes g = accepted a [] bs refl g bytes refl

-- `width` bytes, and the number that they stand for.
pub record IsNumber (width n : ℕ) (enc : List ℕ) : Type 0 where
  pub width_lem : length enc ≡ width
  pub bytes : IsBytes enc
  pub value : n ≡ le_value enc

pub IsNumber-le_bytes : {width n : ℕ} {enc : List ℕ} → IsNumber width n enc → enc ≡ le_bytes width n
IsNumber-le_bytes {width} {n} {enc} h =
    sym (le_bytes-le_value enc h.bytes) ∙ rw (h.width_lem, h.value)

pub IsNumber-lt : {width n : ℕ} {enc : List ℕ} → IsNumber width n enc → n < 2 ^ (width * 8)
IsNumber-lt {width} {n} {enc} h = rw (h.value, ← h.width_lem) (le_value-lt enc h.bytes)

-- A split of the bytes at a size, when there are that many.
split_at : (size : ℕ) (bs : List ℕ) → bs ≡ take size bs ++ drop size bs
split_at size bs = sym (take-drop size bs)

pub integer-Decoded :
    (width : ℕ) (bs : List ℕ) → IsBytes bs → Decoded (IsNumber width) (integer width) bs
integer-Decoded width bs bytes = elim (dec_lt (length bs) width) [
  | yes short ↦ refused 0 _ (integer_short width (reader bs) short) refl
  | no long ↦
      let fits : length (take width bs) ≡ width = length-take_le width bs (omega arith) in
      let prefix : IsBytes (take width bs) = All-take IsByte width bs bytes in
      accepted (le_value (take width bs)) (take width bs) (drop width bs) (split_at width bs)
        (record { width_lem = fits; bytes = prefix; value = refl }) (All-drop IsByte width bs bytes)
        (rw (fits, take-drop width bs) at (integer-reader (take width bs) (drop width bs) prefix))
]

pub text_of-Decoded :
    (size : ℕ) (bs : List ℕ)
    → IsBytes bs
    → Decoded (λ text enc. (enc ≡ text) × (length text ≡ size)) (text_of size) bs
text_of-Decoded size bs bytes = elim (dec_lt (length bs) size) [
  | yes short ↦ refused [] _ (text_of_short size (reader bs) short) refl
  | no long ↦
      let fits : length (take size bs) ≡ size = length-take_le size bs (omega arith) in
      accepted (take size bs) (take size bs) (drop size bs) (split_at size bs) (refl, fits)
        (All-drop IsByte size bs bytes)
        (rw (fits, take-drop size bs) at (text_of-reader (take size bs) (drop size bs)))
]

-- A string is its length in four bytes, and its bytes.
abbrev pub IsText : List ℕ → List ℕ → Type 0
IsText text enc = (enc ≡ le_bytes 4 (length text) ++ text) × (length text < 2 ^ 32)

pub raw-Decoded : (bs : List ℕ) → IsBytes bs → Decoded IsText raw bs
unfolding raw
raw-Decoded bs bytes =
    >>=-Decoded (integer 4) text_of bs (integer-Decoded 4 bs bytes) body text_of-IsSticky
  where
    body :
        (size : ℕ) (enc rest : List ℕ)
        → IsNumber 4 size enc
        → IsBytes rest
        → Decoded (λ text tail. IsText text (enc ++ tail)) (text_of size) rest
    body size enc rest h b = Decoded-mono (text_of-Decoded size rest b) λ text tail g.
        (ap₂ ◌++◌ (IsNumber-le_bytes h ∙ ap (le_bytes 4) (sym g.1)) g.0, rw g.1 (IsNumber-lt h))
