-- ===== src/Text/Strip.antt =====
-- A stripped text neither begins nor ends with what was stripped.
use apple_mail_fast_mcp.Base.{
  ℕ, zero, suc, ◌≤◌, length, drop, ◌≡◌, refl, Bool, true, false, not, [], ◌∷◌, arith, is_empty, all,
  if◌then◌else◌,
}
use apple_mail_fast_mcp.Text.{has_char, Text, lstrip, rstrip, strip_by}

module _ (p : ℕ → Bool) where
  abbrev pub begins_in : Text → Bool
  begins_in [] = false
  begins_in (c ∷ s) = p c

  abbrev pub ends_in : Text → Bool
  ends_in [] = false
  ends_in (c ∷ s) = if is_empty s then p c else ends_in s

  pub lstrip-begins_in : (s : Text) → begins_in (lstrip p s) ≡ false
  unfolding lstrip
  lstrip-begins_in [] = refl
  lstrip-begins_in (c ∷ s) = ground (arith, lstrip-begins_in s)

  pub rstrip-ends_in : (s : Text) → ends_in (rstrip p s) ≡ false
  unfolding rstrip
  rstrip-ends_in [] = refl
  rstrip-ends_in (c ∷ s) = ground (arith, rstrip-ends_in s)

  pub rstrip-begins_in : (s : Text) → begins_in s ≡ false → begins_in (rstrip p s) ≡ false
  unfolding rstrip
  rstrip-begins_in [] h = refl
  rstrip-begins_in (c ∷ s) h = ground arith

  pub strip_by-begins_in : (s : Text) → begins_in (strip_by p s) ≡ false
  unfolding strip_by
  strip_by-begins_in s = rstrip-begins_in (lstrip p s) (lstrip-begins_in s)

  pub strip_by-ends_in : (s : Text) → ends_in (strip_by p s) ≡ false
  unfolding strip_by
  strip_by-ends_in s = rstrip-ends_in (lstrip p s)

  -- Stripping keeps a property of every character.
  pub all-lstrip : (q : ℕ → Bool) (s : Text) → all q s ≡ true → all q (lstrip p s) ≡ true
  unfolding lstrip
  all-lstrip q [] h = refl
  all-lstrip q (c ∷ s) h = ground (arith, all-lstrip q s)

  pub all-rstrip : (q : ℕ → Bool) (s : Text) → all q s ≡ true → all q (rstrip p s) ≡ true
  unfolding rstrip
  all-rstrip q [] h = refl
  all-rstrip q (c ∷ s) h = ground (arith, all-rstrip q s)

  pub all-strip_by : (q : ℕ → Bool) (s : Text) → all q s ≡ true → all q (strip_by p s) ≡ true
  unfolding strip_by
  all-strip_by q s h = all-rstrip q (lstrip p s) (all-lstrip q s h)

  -- Nor does it bring in a character.
  has_char-lstrip : (c : ℕ) (s : Text) → has_char c s ≡ false → has_char c (lstrip p s) ≡ false
  unfolding lstrip
  has_char-lstrip c [] h = refl
  has_char-lstrip c (d ∷ s) h = ground (arith, has_char-lstrip c s)

  has_char-rstrip : (c : ℕ) (s : Text) → has_char c s ≡ false → has_char c (rstrip p s) ≡ false
  unfolding rstrip
  has_char-rstrip c [] h = refl
  has_char-rstrip c (d ∷ s) h = ground (arith, has_char-rstrip c s)

  pub has_char-strip_by :
      (c : ℕ) (s : Text) → has_char c s ≡ false → has_char c (strip_by p s) ≡ false
  unfolding strip_by
  has_char-strip_by c s h = has_char-rstrip c (lstrip p s) (has_char-lstrip c s h)

  -- A text with nothing to strip is left alone.
  lstrip-id : (s : Text) → begins_in s ≡ false → lstrip p s ≡ s
  unfolding lstrip
  lstrip-id [] h = refl
  lstrip-id (c ∷ s) h = rw h refl

  pub rstrip-id : (s : Text) → ends_in s ≡ false → rstrip p s ≡ s
  unfolding rstrip
  rstrip-id [] h = refl
  rstrip-id (c ∷ []) h = ground arith
  rstrip-id (c ∷ d ∷ s) h = ground (arith, rstrip-id (d ∷ s) h)

  pub strip_by-id : (s : Text) → begins_in s ≡ false → ends_in s ≡ false → strip_by p s ≡ s
  unfolding strip_by
  strip_by-id s h k = rw (lstrip-id s h) (rstrip-id s k)

  -- What is left of the end stays as it was.
  pub ends_in-lstrip : (s : Text) → ends_in s ≡ false → ends_in (lstrip p s) ≡ false
  unfolding lstrip
  ends_in-lstrip [] h = refl
  ends_in-lstrip (c ∷ []) h = ground arith
  ends_in-lstrip (c ∷ d ∷ s) h = ground (arith, ends_in-lstrip (d ∷ s) h)

  pub ends_in-drop : (n : ℕ) (s : Text) → ends_in s ≡ false → ends_in (drop n s) ≡ false
  ends_in-drop zero s h = h
  ends_in-drop (suc n) [] h = refl
  ends_in-drop (suc n) (c ∷ []) h = ends_in-drop n [] refl
  ends_in-drop (suc n) (c ∷ d ∷ s) h = ends_in-drop n (d ∷ s) h

  pub length-lstrip : (s : Text) → length (lstrip p s) ≤ length s
  unfolding lstrip
  length-lstrip [] = omega arith
  length-lstrip (c ∷ s) = ground (arith, length-lstrip s)

  pub not-begins_in : (s : Text) → all (λ c. not (p c)) s ≡ true → begins_in s ≡ false
  not-begins_in [] h = refl
  not-begins_in (c ∷ s) h = ground arith

  pub not-ends_in : (s : Text) → all (λ c. not (p c)) s ≡ true → ends_in s ≡ false
  not-ends_in [] h = refl
  not-ends_in (c ∷ s) h = ground (arith, not-ends_in s)

-- Stripping the end leaves the beginning.
pub begins_in-rstrip :
    (p q : ℕ → Bool) (s : Text) → begins_in p s ≡ false → begins_in p (rstrip q s) ≡ false
unfolding rstrip
begins_in-rstrip p q [] h = refl
begins_in-rstrip p q (c ∷ s) h = ground arith
