-- ===== src/Utils/Mailbox/Clean.antt =====
-- What a sanitized mailbox name lacks, and what it may still hold.
use apple_mail_fast_mcp.Base.{
  ℕ, ◌≡◌, refl, ap, inl, inr, Bool, true, false, not, ◌&&◌, ◌||◌, [], ◌∷◌, ◌++◌, arith, ◌==◌, keep,
  all, Bool-cases,
}
use apple_mail_fast_mcp.Text.{Text, codes, has_char, strip, is_space}
use apple_mail_fast_mcp.Text.Strip.{
  begins_in, ends_in, has_char-strip_by, strip_by-begins_in, strip_by-ends_in, strip_by-id,
}
use apple_mail_fast_mcp.Utils.Escape.{replace_char}
use apple_mail_fast_mcp.Utils.Mailbox.{remove_double_dots, is_dangerous, sanitize_mailbox_name}

has_char-replace_self : (c : ℕ) (s : Text) → has_char c (replace_char c [] s) ≡ false
unfolding replace_char
has_char-replace_self c [] = refl
has_char-replace_self c (d ∷ s) = ground (arith, has_char-replace_self c s)

has_char-replace_other :
    (c d : ℕ) (s : Text) → has_char c s ≡ false → has_char c (replace_char d [] s) ≡ false
unfolding replace_char
has_char-replace_other c d [] h = refl
has_char-replace_other c d (e ∷ s) h = ground (arith, has_char-replace_other c d s)

has_char-remove_double_dots :
    (c : ℕ) (s : Text) → has_char c s ≡ false → has_char c (remove_double_dots s) ≡ false
unfolding remove_double_dots
has_char-remove_double_dots c [] h = refl
has_char-remove_double_dots c (d ∷ []) h = h
has_char-remove_double_dots c (d ∷ e ∷ s) h =
    ground (arith, has_char-remove_double_dots c s, has_char-remove_double_dots c (e ∷ s))

has_char-keep :
    (c : ℕ) (p : ℕ → Bool) (s : Text) → has_char c s ≡ false → has_char c (keep p s) ≡ false
has_char-keep c p [] h = refl
has_char-keep c p (d ∷ s) h = ground (arith, has_char-keep c p s)

has_char-keep_self : (c : ℕ) (p : ℕ → Bool) (s : Text) → p c ≡ false → has_char c (keep p s) ≡ false
has_char-keep_self c p [] h = refl
has_char-keep_self c p (d ∷ s) h = elim (Bool-cases (p d)) [
  | inl e ↦ rw e (ground (arith, has_char-keep_self c p s h))
  | inr e ↦ rw e (has_char-keep_self c p s h)
]

module _ (name : Text) where
  abbrev undotted : Text
  undotted = remove_double_dots (replace_char 0 [] name)

  abbrev unslashed : Text
  unslashed = replace_char b'\\' [] (replace_char b'/' [] undotted)

  abbrev kept : Text
  kept = keep (λ c. not (is_dangerous c)) unslashed

  has_char-kept :
      (c : ℕ)
      → ((c == 0) || (c == b'/') || (c == b'\\') || is_dangerous c) ≡ true
      → has_char c kept ≡ false
  has_char-kept c h = elim (Bool-cases (is_dangerous c)) [
    | inl bad ↦ has_char-keep_self c (λ d. not (is_dangerous d)) unslashed (rw bad refl)
    | inr fine ↦
        let null = has_char-replace_other 0 b'\\' (replace_char b'/' [] undotted) (
          has_char-replace_other 0 b'/' undotted
            (has_char-remove_double_dots 0 _ (has_char-replace_self 0 name))) in
        let slash =
          has_char-replace_other b'/' b'\\' (replace_char b'/' [] undotted)
            (has_char-replace_self b'/' undotted) in
        let backslash = has_char-replace_self b'\\' (replace_char b'/' [] undotted) in
        has_char-keep c (λ d. not (is_dangerous d)) unslashed
          (ground (arith, null, slash, backslash))
  ]

  -- A sanitized mailbox name has no null byte, slash or backslash and none of the dangerous
  -- characters, and neither begins nor ends with white space.
  pub sanitize_mailbox_name-lacks :
      (c : ℕ)
      → ((c == 0) || (c == b'/') || (c == b'\\') || is_dangerous c) ≡ true
      → (has_char c (sanitize_mailbox_name name) ≡ false)
        × (begins_in is_space (sanitize_mailbox_name name) ≡ false)
        × (ends_in is_space (sanitize_mailbox_name name) ≡ false)
  unfolding sanitize_mailbox_name strip
  sanitize_mailbox_name-lacks c h = (
    has_char-strip_by is_space c kept (has_char-kept c h),
    strip_by-begins_in is_space kept,
    strip_by-ends_in is_space kept,
  )

remove_double_dots-id :
    (c : ℕ) (s : Text) → has_char b'.' s ≡ false → remove_double_dots (c ∷ s) ≡ c ∷ s
unfolding remove_double_dots
remove_double_dots-id c [] h = refl
remove_double_dots-id c (d ∷ s) h = ground (arith, remove_double_dots-id d s)

replace_char-id : (c : ℕ) (s : Text) → has_char c s ≡ false → replace_char c [] s ≡ s
unfolding replace_char
replace_char-id c [] h = refl
replace_char-id c (d ∷ s) h = ground (arith, replace_char-id c s)

keep-id : (p : ℕ → Bool) (s : Text) → all p s ≡ true → keep p s ≡ s
keep-id p [] h = refl
keep-id p (c ∷ s) h = ground (arith, keep-id p s)

-- A character that the sanitizer leaves alone wherever it stands.
abbrev pub is_plain : ℕ → Bool
is_plain c =
    not (is_dangerous c)
    && not (c == 0)
    && not (c == b'/')
    && not (c == b'\\')
    && not (c == b'.')
    && not (is_space c)

plain-lacks :
    (s : Text)
    → all is_plain s ≡ true
    → (has_char 0 s ≡ false)
      × (has_char b'/' s ≡ false)
      × (has_char b'\\' s ≡ false)
      × (has_char b'.' s ≡ false)
plain-lacks [] h = (refl, refl, refl, refl)
plain-lacks (c ∷ s) h = let rest = plain-lacks s (ground arith) in ground (arith, rest)

plain-kept : (s : Text) → all is_plain s ≡ true → all (λ c. not (is_dangerous c)) s ≡ true
plain-kept [] h = refl
plain-kept (c ∷ s) h = let rest = plain-kept s (ground arith) in ground (arith, rest)

plain-ends_in : (s : Text) → all is_plain s ≡ true → ends_in is_space s ≡ false
plain-ends_in [] h = refl
plain-ends_in (c ∷ s) h = let rest = plain-ends_in s (ground arith) in ground (arith, rest)

remove_double_dots_lem :
    (s : Text)
    → has_char b'.' s ≡ false
    → remove_double_dots (b'.' ∷ b'/' ∷ b'.' ∷ s) ≡ b'.' ∷ b'/' ∷ b'.' ∷ s
unfolding remove_double_dots
remove_double_dots_lem s h = ap (λ r. b'.' ∷ b'/' ∷ r) (remove_double_dots-id b'.' s h)

dots-ends_in : (s : Text) → ends_in is_space s ≡ false → ends_in is_space (b'.' ∷ b'.' ∷ s) ≡ false
unfolding is_space
dots-ends_in [] h = refl
dots-ends_in (c ∷ s) h = h

-- Two periods around a slash pass the step that removes double periods, and the step that removes
-- slashes joins them: the sanitized name begins with the double period that was to be removed.
pub sanitize_mailbox_name-dots :
    (s : Text) → all is_plain s ≡ true → sanitize_mailbox_name (codes "./." ++ s) ≡ codes ".." ++ s
unfolding sanitize_mailbox_name
sanitize_mailbox_name-dots s plain =
    let (null, slash, backslash, dot) = plain-lacks s plain in
    let whole : Text = b'.' ∷ b'/' ∷ b'.' ∷ s in
    let left : Text = b'.' ∷ b'.' ∷ s in
    let nulls : replace_char 0 [] whole ≡ whole = replace_char-id 0 whole null in
    let slashes : replace_char b'/' [] whole ≡ left =
      unfold replace_char in ap (λ r. b'.' ∷ b'.' ∷ r) (replace_char-id b'/' s slash) in
    let kept : keep (λ c. not (is_dangerous c)) left ≡ left =
      keep-id (λ c. not (is_dangerous c)) left (unfold is_dangerous in plain-kept s plain) in
    rw (nulls, remove_double_dots_lem s dot, slashes, replace_char-id b'\\' left backslash, kept)
      (unfold strip in
        strip_by-id is_space left (unfold is_space in refl)
          (dots-ends_in s (plain-ends_in s plain)))
