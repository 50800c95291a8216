-- ===== src/Utils/Body/Fit.antt =====
-- The longest beginning of a text that fits into a number of bytes, and what the lenient decoder
-- makes of bytes that are cut anywhere.
use apple_mail_fast_mcp.Base.{
  ℕ, zero, suc, ◌+◌, ◌-◌, ◌≤◌, ◌<◌, ◌≡◌, refl, ap, ◌∙◌, inl, inr, List, [], ◌∷◌, ◌++◌, arith, leb,
  leb→le, le→leb, length, length-append, take, All, Bool-cases, if◌then◌else◌,
}
use apple_mail_fast_mcp.Text.{Text}
use apple_mail_fast_mcp.Utils.Body.Utf8.{encode_char, idle, ignore_from}
use apple_mail_fast_mcp.Utils.Body.Utf8.Reads.{
  IsScalar, encode_char-Reads, ignore_from-Reads, ignore_from-cut,
}

-- The bytes of a text, and the longest beginning of it that fits into a number of bytes.
abbrev pub bytes : Text → List ℕ
bytes [] = []
bytes (c ∷ s) = encode_char c ++ bytes s

abbrev pub fit : ℕ → Text → Text
fit n [] = []
fit n (c ∷ s) =
    let rest = fit (n - length (encode_char c)) s in
    if leb (length (encode_char c)) n then c ∷ rest else []

take-append : (n k : ℕ) (xs ys : List ℕ) → n ≡ length xs + k → take n (xs ++ ys) ≡ xs ++ take k ys
take-append n k [] ys h = ap (λ m. take m ys) (omega arith)
take-append zero k (x ∷ xs) ys h = absurd (omega arith)
take-append (suc n) k (x ∷ xs) ys h = ap (λ r. x ∷ r) (take-append n k xs ys (omega arith))

parts : (n m : ℕ) → m ≤ n → n ≡ m + (n - m)
parts n m h = omega arith

take-append_short : (n : ℕ) (xs ys : List ℕ) → n ≤ length xs → take n (xs ++ ys) ≡ take n xs
take-append_short zero xs ys h = refl
take-append_short (suc n) [] ys h = elim h [ ]
take-append_short (suc n) (x ∷ xs) ys h = ap (λ r. x ∷ r) (take-append_short n xs ys (omega arith))

pub ignore-take :
    (n : ℕ) (s : Text) → All IsScalar s → ignore_from idle (take n (bytes s)) ≡ fit n s
ignore-take zero [] h = unfold ignore_from in refl
ignore-take (suc n) [] h = unfold ignore_from in refl
ignore-take n (c ∷ s) h = elim (Bool-cases (leb (length (encode_char c)) n)) [
  | inl fits ↦
      rw (take-append n _ (encode_char c) (bytes s) (parts n _ (leb→le _ _ fits)), fits)
        (ignore_from-Reads _ (encode_char-Reads c h.0)
          ∙ ap (λ r. c ∷ r) (ignore-take (n - length (encode_char c)) s h.1))
  | inr short ↦
      rw (take-append_short n (encode_char c) (bytes s) (ground arith), short)
        (ignore_from-cut n (encode_char-Reads c h.0) (ground arith))
]

fit-length : (n : ℕ) (s : Text) → length (bytes (fit n s)) ≤ n
fit-length n [] = omega arith
fit-length n (c ∷ s) = elim (Bool-cases (leb (length (encode_char c)) n)) [
  | inl fits ↦
      rw (fits, length-append)
        (let rest = fit-length (n - length (encode_char c)) s in
          let le = leb→le (length (encode_char c)) n fits in omega (arith, rest, le))
  | inr short ↦ rw short (omega arith)
]

-- `body` is the longest beginning of `whole` that takes at most `limit` bytes.
pub record IsLongest (limit : ℕ) (whole body : Text) : Type 0 where
  pub rest : Text
  pub parts_of : whole ≡ body ++ rest
  pub within : length (bytes body) ≤ limit
  pub no_room : (c : ℕ) (more : Text) → rest ≡ c ∷ more → limit < length (bytes (body ++ c ∷ []))

abbrev pub dropped : ℕ → Text → Text
dropped n [] = []
dropped n (c ∷ s) =
    let rest = dropped (n - length (encode_char c)) s in
    if leb (length (encode_char c)) n then rest else c ∷ s

pub fit-dropped : (n : ℕ) (s : Text) → s ≡ fit n s ++ dropped n s
fit-dropped n [] = refl
fit-dropped n (c ∷ s) = elim (Bool-cases (leb (length (encode_char c)) n)) [
  | inl fits ↦ rw fits (ap (λ r. c ∷ r) (fit-dropped (n - length (encode_char c)) s))
  | inr short ↦ rw short refl
]

fit-no_room :
    (n : ℕ) (s : Text) (c : ℕ) (more : Text)
    → dropped n s ≡ c ∷ more
    → n < length (bytes (fit n s ++ c ∷ []))
fit-no_room n [] c more h = cc
fit-no_room n (d ∷ s) c more h = elim (Bool-cases (leb (length (encode_char d)) n)) [
  | inl fits ↦
      rw (fits, length-append)
        (let more_room = fit-no_room (n - length (encode_char d)) s c more (rw fits at h) in
          let le = leb→le (length (encode_char d)) n fits in omega (arith, more_room, le))
  | inr short ↦
      let heads : d ∷ s ≡ c ∷ more = rw short at h in
      let same : d ≡ c = cc in rw (short, ← same, length-append) (ground arith)
]

pub fit-IsLongest : (n : ℕ) (s : Text) → IsLongest n s (fit n s)
fit-IsLongest n s = record {
  rest = dropped n s;
  parts_of = fit-dropped n s;
  within = fit-length n s;
  no_room = fit-no_room n s;
}

pub fit-whole : (n : ℕ) (s : Text) → length (bytes s) ≤ n → fit n s ≡ s
fit-whole n [] h = refl
fit-whole n (c ∷ s) h =
    let both = length-append (encode_char c) (bytes s) in
    rw (le→leb (length (encode_char c)) n (omega (arith, both)))
      (ap (λ r. c ∷ r) (fit-whole (n - length (encode_char c)) s (omega (arith, both))))
