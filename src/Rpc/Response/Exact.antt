-- ===== src/Rpc/Response/Exact.antt =====
-- Responses against their grammar: both directions of `try_decode_response`, and what the encoders
-- write.
use mathlib.Core.Path.{subst}
use dynabridge.Prelude.{
  Bool-cases, List, ap, append-nil, arith, inl, inr, ltb, refl, some, sym, ℕ, ◌++◌, ◌==◌, ==_iff,
  [], ◌∙◌, ◌∷◌, ◌≡◌, ◌⊎◌,
}
use dynabridge.Rpc.Value.{Value}
use dynabridge.Rpc.Endian.{IsBytes, le_bytes}
use dynabridge.Rpc.Reader.{Read, ◌>>=◌, reader, integer, raw}
use dynabridge.Rpc.Reader.Laws.{>>=-some, integer-le_bytes, raw-reader}
use dynabridge.Rpc.Reader.Grammar.{
  Decoded, IsNumber-le_bytes, integer-Decoded, integer-IsSticky, IsText, raw-Decoded,
}
use dynabridge.Rpc.Codec.{decode_value}
use dynabridge.Rpc.Codec.Wire.{Wire}
use dynabridge.Rpc.Codec.Decode.{decode_value-Decoded, decode_value-Wire}
use dynabridge.Rpc.Frame.{response_magic}
use dynabridge.Rpc.Frame.Attempt.{Attempt, taken, failed, Fails, >>=-Fails, >>=-Attempt}
use dynabridge.Rpc.Frame.Expect.{Attempt-map, expect, expect-Fails, expect-Attempt}
use dynabridge.Rpc.Response.{
  Status, Reply, ended, tagged, decode_tag, decode_status_version, decode_reply, deliver,
  try_decode_response,
}

-- What stands behind the version: the tag and the body.
pub data IsReply : Reply → List ℕ → Type 0 where
  returned : {v : Value} {enc : List ℕ} → Wire v enc → IsReply (Reply.returned v) (0 ∷ enc)
  failure : {message enc : List ℕ} → IsText message enc → IsReply (Reply.failure message) (1 ∷ enc)

pub record IsResponse (reply : Reply) (frame : List ℕ) : Type 0 where
  pub body : List ℕ
  pub is_reply : IsReply reply body
  pub is_frame : frame ≡ le_bytes 4 response_magic ++ (le_bytes 1 1 ++ body)

ended_end : (reply : Reply) → ended reply (reader []) ≡ some (some reply, reader [])
unfolding ended
ended_end reply = refl

ended-Fails : (reply : Reply) → Fails (ended reply)
unfolding ended
ended-Fails reply r h = (r, rw h refl)

abbrev Ends : (Reply → List ℕ → Type 0) → Reply → List ℕ → List ℕ → Type 0
Ends G reply enc rest = G reply enc × (rest ≡ [])

ended-Attempt :
    (reply : Reply) (bs : List ℕ)
    → IsBytes bs
    → Attempt (Ends (λ r enc. (r ≡ reply) × (enc ≡ []))) (ended reply) bs
unfolding ended
ended-Attempt reply [] h = taken reply [] [] refl ((refl, refl), refl) h refl
ended-Attempt reply (b ∷ bs) h = failed (reader (b ∷ bs)) (ground arith)

-- A body of one kind and the end of the frame behind it.
last_field :
    {A : Type 0} (H : A → List ℕ → Type 0) (m : Read A) (make : A → Reply) (bs : List ℕ)
    → Decoded H m bs
    → Attempt (Ends (λ r enc. (a : A) × (r ≡ make a) × H a enc)) (m >>= λ a. ended (make a)) bs
last_field H m make bs d =
    >>=-Attempt m (λ a. ended (make a)) bs d
      (λ a enc rest g hr.
        Attempt-map (ended (make a)) (ended (make a)) rest refl
          (λ r tail left k. ((a, k.0.0, rw (k.0.1, append-nil) g), k.1))
          (ended-Attempt (make a) rest hr))
      (λ a. ended-Fails (make a))

zero_byte : le_bytes 1 0 ≡ 0 ∷ []
unfolding le_bytes
zero_byte = refl

one_byte : le_bytes 1 1 ≡ 1 ∷ []
unfolding le_bytes
one_byte = refl

-- The tag decides: 0 is followed by a value, 1 by a string, and any other tag is malformed.
tagged-Attempt :
    (tag : ℕ) (bs : List ℕ)
    → IsBytes bs
    → Attempt (Ends (λ reply enc. IsReply reply (le_bytes 1 tag ++ enc))) (tagged tag) bs
unfolding tagged
tagged-Attempt tag bs h = elim (Bool-cases (ltb 1 tag)) [
  | inl e ↦ failed (reader bs) (rw e refl)
  | inr e ↦ elim (Bool-cases (tag == 1)) [
    | inl f ↦
        Attempt-map (raw >>= λ message. ended (Reply.failure message)) (tagged tag) bs
          (rw (e, f) refl)
          (λ reply enc rest k. (rw (k.0.1, (==_iff tag 1).0 f, one_byte) (failure k.0.2), k.1))
          (last_field IsText raw Reply.failure bs (raw-Decoded bs h))
    | inr f ↦
        let zero_tag : tag ≡ 0 = ground arith in
        Attempt-map (decode_value >>= λ staged. ended (Reply.returned staged)) (tagged tag) bs
          (rw (e, f) refl)
          (λ reply enc rest k. (rw (k.0.1, zero_tag, zero_byte) (returned k.0.2), k.1))
          (last_field Wire decode_value Reply.returned bs (decode_value-Decoded bs h))
  ]
]

tagged-Fails : (tag : ℕ) → Fails (tagged tag)
unfolding tagged
tagged-Fails tag r h = (r, rw h refl)

decode_tag-Fails : Fails decode_tag
unfolding decode_tag
decode_tag-Fails = >>=-Fails (integer 1) tagged (integer-IsSticky 1) tagged-Fails

decode_tag-Attempt : (bs : List ℕ) → IsBytes bs → Attempt (Ends IsReply) decode_tag bs
unfolding decode_tag
decode_tag-Attempt bs h =
    >>=-Attempt (integer 1) tagged bs (integer-Decoded 1 bs h)
      (λ tag enc rest g hr.
        Attempt-map (tagged tag) (tagged tag) rest refl
          (λ reply tail left k. (rw (IsNumber-le_bytes g) k.0, k.1)) (tagged-Attempt tag rest hr))
      tagged-Fails

version_lem : decode_status_version ≡ (integer 1 >>= expect 1 decode_tag)
unfolding decode_status_version expect
version_lem = refl

reply_lem : decode_reply ≡ (integer 4 >>= expect response_magic decode_status_version)
unfolding decode_reply expect
reply_lem = refl

version-Fails : Fails decode_status_version
version-Fails = rw version_lem (
    >>=-Fails (integer 1) (expect 1 decode_tag) (integer-IsSticky 1)
      (expect-Fails 1 decode_tag decode_tag-Fails))

version-Attempt :
    (bs : List ℕ)
    → IsBytes bs
    → Attempt
        (Ends (λ reply enc. IsResponse reply (le_bytes 4 response_magic ++ enc)))
        decode_status_version
        bs
version-Attempt bs h = rw version_lem (
    expect-Attempt 1 1 decode_tag _ bs h decode_tag-Fails (λ rest hr.
      Attempt-map decode_tag decode_tag rest refl
        (λ reply enc left k. (record { body = enc; is_reply = k.0; is_frame = refl }, k.1))
        (decode_tag-Attempt rest hr)))

decode_reply-Attempt : (bs : List ℕ) → IsBytes bs → Attempt (Ends IsResponse) decode_reply bs
decode_reply-Attempt bs h = rw reply_lem (
    expect-Attempt 4 response_magic decode_status_version (Ends IsResponse) bs h version-Fails
      version-Attempt)

decode_tag-IsReply :
    {reply : Reply} {body : List ℕ}
    → IsReply reply body
    → decode_tag (reader body) ≡ some (some reply, reader [])
unfolding decode_tag tagged ended
decode_tag-IsReply (returned {v = v} {enc = enc} w) =
    >>=-some (integer 1) tagged _ (rw zero_byte at (integer-le_bytes 1 0 enc (omega arith)))
    ∙ >>=-some decode_value (λ staged. ended (Reply.returned staged)) _
        (rw append-nil at (decode_value-Wire w []))
decode_tag-IsReply (failure {message = message} {enc = enc} t) =
    >>=-some (integer 1) tagged _ (rw one_byte at (integer-le_bytes 1 1 enc (omega arith)))
    ∙ ap (λ bs. (raw >>= λ m. ended (Reply.failure m)) (reader bs)) t.0
    ∙ >>=-some raw (λ m. ended (Reply.failure m)) _ (rw append-nil at (raw-reader message [] t.1))

decode_reply-IsResponse :
    (reply : Reply) (frame : List ℕ)
    → IsResponse reply frame
    → decode_reply (reader frame) ≡ some (some reply, reader [])
unfolding decode_reply decode_status_version
decode_reply-IsResponse reply frame h = rw h.is_frame (
    >>=-some (integer 4) _ _ (integer-le_bytes 4 response_magic _ (omega arith))
    ∙ >>=-some (integer 1) _ _ (integer-le_bytes 1 1 _ (omega arith))
    ∙ decode_tag-IsReply h.is_reply)

-- A response of the grammar gives its status, and writes the one object of the caller that the
-- status is about.
pub try_decode_response-IsResponse :
    (reply : Reply) (frame : List ℕ)
    → IsResponse reply frame
    → (result : Value) (error : List ℕ)
    → try_decode_response frame result error ≡ some (deliver (some reply) result error)
unfolding try_decode_response
try_decode_response-IsResponse reply frame h result error =
    rw (decode_reply-IsResponse reply frame h, try_decode_response)

-- On any bytes: the frame is a response of the grammar and is delivered, or it is none, the status
-- is `malformed`, and both objects are as they were. No read leaves the frame.
pub try_decode_response_exact :
    (frame : List ℕ) (result : Value) (error : List ℕ)
    → IsBytes frame
    → ((reply : Reply) × IsResponse reply frame
        × (try_decode_response frame result error ≡ some (deliver (some reply) result error)))
      ⊎ ((try_decode_response frame result error ≡ some (Status.malformed, result, error))
          × ((reply : Reply) → ¬ (IsResponse reply frame)))
unfolding try_decode_response deliver
try_decode_response_exact frame result error bytes = elim (decode_reply-Attempt frame bytes) [
  | taken reply enc rest split g b e ↦
      let same : enc ≡ frame = sym (split ∙ ap (◌++◌ enc) g.1 ∙ append-nil enc) in
      let h : IsResponse reply frame = subst (IsResponse reply) same g.0 in
      inl (reply, h, rw (decode_reply-IsResponse reply frame h, try_decode_response))
  | failed r e ↦
      inr (rw (e, try_decode_response), λ reply h. cc (e, decode_reply-IsResponse reply frame h))
]
