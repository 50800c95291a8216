-- ===== src/Utils/Body/Safe.antt =====
-- What `make_body_safe` returns: the scrubbed body, cut between two characters where it is too long.
use apple_mail_fast_mcp.Base.{
  ℕ, ◌≤◌, ◌≡◌, refl, ap, ◌∙◌, inl, inr, Bool, true, false, not, some, [], ◌∷◌, ◌++◌, arith, map,
  leb, ltb, leb→le, lt→ltb, le→ltb_false, length, take, keep, All, Bool-cases, if◌then◌else◌,
}
use apple_mail_fast_mcp.Text.{Text}
use apple_mail_fast_mcp.Utils.Body.{is_c0_control, make_body_safe}
use apple_mail_fast_mcp.Utils.Body.Utf8.{
  is_surrogate, encode, encode_replace, idle, decode_from, decode, ignore_from, decode_ignore,
}
use apple_mail_fast_mcp.Utils.Body.Utf8.Reads.{IsScalar, encode_char-Reads, decode_from-Reads}
use apple_mail_fast_mcp.Utils.Body.Fit.{
  bytes, fit, dropped, fit-whole, ignore-take, fit-dropped, fit-IsLongest, IsLongest,
}

-- A lone surrogate becomes a question mark, and control characters but tab, newline and carriage
-- return go.
abbrev pub coerce_char : ℕ → ℕ
coerce_char c = if is_surrogate c then b'?' else c

abbrev pub clean : Text → Text
clean s = keep (λ c. not (is_c0_control c)) (map coerce_char s)

-- Code points stop at 0x10ffff.
abbrev pub IsUnicode : Text → Type 0
IsUnicode = All (λ c. c ≤ 0x10ffff)

coerce_char-IsScalar : (c : ℕ) → c ≤ 0x10ffff → IsScalar (coerce_char c)
coerce_char-IsScalar c h = record { in_range = ground arith; no_surrogate = ground arith }

map-IsScalar : (s : Text) → IsUnicode s → All IsScalar (map coerce_char s)
map-IsScalar [] h = tt
map-IsScalar (c ∷ s) h = (coerce_char-IsScalar c h.0, map-IsScalar s h.1)

keep-IsScalar : (p : ℕ → Bool) (s : Text) → All IsScalar s → All IsScalar (keep p s)
keep-IsScalar p [] h = tt
keep-IsScalar p (c ∷ s) h = elim (Bool-cases (p c)) [
  | inl e ↦ rw e (h.0, keep-IsScalar p s h.1)
  | inr e ↦ rw e (keep-IsScalar p s h.1)
]

decode-encode_replace :
    (s : Text) → IsUnicode s → decode_from idle (encode_replace s) ≡ some (map coerce_char s)
unfolding encode_replace
decode-encode_replace [] h = unfold decode_from in refl
decode-encode_replace (c ∷ s) h =
    decode_from-Reads (encode_replace s)
      (encode_char-Reads (coerce_char c) (coerce_char-IsScalar c h.0))
    ∙ rw (decode-encode_replace s h.1) refl

encode-bytes : (s : Text) → All IsScalar s → encode s ≡ some (bytes s)
unfolding encode
encode-bytes [] h = refl
encode-bytes (c ∷ s) h = rw (encode-bytes s h.1, h.0.no_surrogate) refl

-- The answer for a body: the longest beginning of the scrubbed body that fits, whether the whole
-- did not fit, and the byte length of the whole.
pub record IsSafeBody (content : Text) (limit : ℕ) (answer : Text × Bool × ℕ) : Type 0 where
  pub longest : IsLongest limit (clean content) answer.0
  pub truncated : answer.1 ≡ ltb limit answer.2
  pub original : answer.2 ≡ length (bytes (clean content))
  pub scrubbed : All (λ c. (is_surrogate c ≡ false) × (is_c0_control c ≡ false)) answer.0

scrubbed-clean :
    (s : Text)
    → IsUnicode s
    → All (λ c. (is_surrogate c ≡ false) × (is_c0_control c ≡ false)) (clean s)
scrubbed-clean [] h = tt
scrubbed-clean (c ∷ s) h = elim (Bool-cases (is_c0_control (coerce_char c))) [
  | inl control ↦ rw control (scrubbed-clean s h.1)
  | inr kept ↦ rw kept (((coerce_char-IsScalar c h.0).no_surrogate, kept), scrubbed-clean s h.1)
]

All-prefix : (P : ℕ → Type 0) (xs ys : Text) → All P (xs ++ ys) → All P xs
All-prefix P [] ys h = tt
All-prefix P (x ∷ xs) ys h = (h.0, All-prefix P xs ys h.1)

abbrev Answer : Type 0
Answer = Text × Bool × ℕ

module _ (limit : ℕ) where
  abbrev answer_for : Text → Answer
  answer_for s = (fit limit s, ltb limit (length (bytes s)), length (bytes s))

  cut_answer :
      (s : Text)
      → All IsScalar s
      → ◌≡◌ {A = Answer}
          (if leb (length (bytes s)) limit
            then (s, false, length (bytes s))
            else (ignore_from idle (take limit (bytes s)), true, length (bytes s)))
          (answer_for s)
  cut_answer s h = elim (Bool-cases (leb (length (bytes s)) limit)) [
    | inl fits ↦
        rw (fits, fit-whole limit s (leb→le _ _ fits), le→ltb_false limit _ (leb→le _ _ fits)) refl
    | inr long ↦
        rw (long, ignore-take limit s h, lt→ltb limit (length (bytes s)) (ground arith)) refl
  ]

  make_body_safe-eq :
      (c : ℕ) (content : Text)
      → IsUnicode (c ∷ content)
      → make_body_safe (c ∷ content) limit ≡ some (answer_for (clean (c ∷ content)))
  unfolding make_body_safe decode decode_ignore
  make_body_safe-eq c content h =
      let scalars : All IsScalar (clean (c ∷ content)) =
        keep-IsScalar (λ d. not (is_c0_control d)) (map coerce_char (c ∷ content))
          (map-IsScalar (c ∷ content) h) in
      rw (decode-encode_replace (c ∷ content) h) (
        rw (encode-bytes (clean (c ∷ content)) scalars)
          (ap some (cut_answer (clean (c ∷ content)) scalars)))

  answer_for-IsSafeBody :
      (content : Text) → IsUnicode content → IsSafeBody content limit (answer_for (clean content))
  answer_for-IsSafeBody content h = record {
    longest = fit-IsLongest limit (clean content);
    truncated = refl;
    original = refl;
    scrubbed =
        All-prefix _ (fit limit (clean content)) (dropped limit (clean content))
          (rw (← fit-dropped limit (clean content)) (scrubbed-clean content h));
  }

  -- Making a body safe never raises a Unicode error. It yields the longest beginning of the scrubbed
  -- body that takes at most the limit of bytes, so it cuts between two characters and only where
  -- the next one would not fit; the body holds no lone surrogate and no control character but tab,
  -- newline and carriage return; the flag says exactly whether the scrubbed body was too long, and
  -- the last number is its length in bytes.
  pub make_body_safe-IsSafeBody :
      (content : Text)
      → IsUnicode content
      → (answer : Text × Bool × ℕ) × (make_body_safe content limit ≡ some answer)
        × IsSafeBody content limit answer
  unfolding make_body_safe
  make_body_safe-IsSafeBody [] h =
      (answer_for [], rw (le→ltb_false limit 0 (omega arith)) refl, answer_for-IsSafeBody [] h)
  make_body_safe-IsSafeBody (c ∷ content) h = (
    answer_for (clean (c ∷ content)),
    make_body_safe-eq c content h,
    answer_for-IsSafeBody (c ∷ content) h,
  )
