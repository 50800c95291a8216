-- ===== src/Text/Search.antt =====
-- Equality, prefixes and suffixes, and the parts around the last occurrence of a character.
use mathlib.Core.List.{reverse, reverse-append, reverse-reverse}
use apple_mail_fast_mcp.Base.{
  ℕ, ◌≡◌, refl, sym, ap, ◌∙◌, ◌↔◌, inl, inr, true, false, ◌||◌, none, some, [], ◌∷◌, ◌++◌, arith,
  Option-cases,
}
use apple_mail_fast_mcp.Text.{
  Text, text_eq, has_char, starts_with, ends_with, after_last, before_last, text_lt,
}

pub text_eq_refl : (s : Text) → text_eq s s ≡ true
text_eq_refl [] = refl
text_eq_refl (c ∷ s) = ground (arith, text_eq_refl s)

pub text_eq→eq : (s t : Text) → text_eq s t ≡ true → s ≡ t
text_eq→eq [] [] h = refl
text_eq→eq [] (d ∷ t) h = cc
text_eq→eq (c ∷ s) [] h = cc
text_eq→eq (c ∷ s) (d ∷ t) h = ground (arith, text_eq→eq s t)

pub text_eq_iff : (s t : Text) → (text_eq s t ≡ true) ↔ (s ≡ t)
text_eq_iff s t = (text_eq→eq s t, λ p. rw p (text_eq_refl t))

pub text_eq-sym : (s t : Text) → text_eq s t ≡ text_eq t s
text_eq-sym s t = ground (arith, text_eq_iff s t, text_eq_iff t s)

pub starts_with-append : (s t : Text) → starts_with (s ++ t) s ≡ true
starts_with-append [] t = refl
starts_with-append (c ∷ s) t = ground (arith, starts_with-append s t)

pub starts_with→append :
    (s prefix : Text) → starts_with s prefix ≡ true → (rest : Text) × (s ≡ prefix ++ rest)
starts_with→append s [] h = (s, refl)
starts_with→append [] (p ∷ prefix) h = cc
starts_with→append (c ∷ s) (p ∷ prefix) h =
    let (rest, e) = starts_with→append s prefix (ground arith) in (rest, ground arith)

pub ends_with→append :
    (s suffix : Text) → ends_with s suffix ≡ true → (rest : Text) × (s ≡ rest ++ suffix)
unfolding ends_with
ends_with→append s suffix h =
    let (r, e) = starts_with→append (reverse s) (reverse suffix) h in
    (
      reverse r,
      sym (reverse-reverse s)
          ∙ ap reverse e
          ∙ reverse-append (reverse suffix) r
          ∙ rw (reverse-reverse suffix) refl,
    )

pub ends_with-append : (s suffix : Text) → ends_with (s ++ suffix) suffix ≡ true
unfolding ends_with
ends_with-append s suffix =
    rw (reverse-append s suffix) (starts_with-append (reverse suffix) (reverse s))

pub has_char-append : (c : ℕ) (s t : Text) → has_char c (s ++ t) ≡ (has_char c s || has_char c t)
has_char-append c [] t = refl
has_char-append c (d ∷ s) t = ground (arith, has_char-append c s t)

-- There is no part behind a character exactly if the text lacks it.
pub after_last-none : (c : ℕ) (s : Text) → after_last c s ≡ none → has_char c s ≡ false
unfolding after_last
after_last-none c [] h = refl
after_last-none c (d ∷ s) h = elim (Option-cases (after_last c s)) [
  | inl e ↦ ground (arith, after_last-none c s e, e)
  | inr (r, e) ↦ ground (arith, e)
]

-- The two parts make up the text, and the second lacks the character.
pub after_last-some :
    (c : ℕ) (s rest : Text)
    → after_last c s ≡ some rest
    → (s ≡ before_last c s ++ c ∷ rest) × (has_char c rest ≡ false)
unfolding after_last before_last
after_last-some c [] rest h = cc
after_last-some c (d ∷ s) rest h = elim (Option-cases (after_last c s)) [
  | inl e ↦ ground (arith, after_last-none c s e, e)
  | inr (r, e) ↦ ground (arith, e, after_last-some c s r e)
]

after_last-none_of : (c : ℕ) (s : Text) → has_char c s ≡ false → after_last c s ≡ none
unfolding after_last
after_last-none_of c [] h = refl
after_last-none_of c (d ∷ s) h = ground (arith, after_last-none_of c s)

pub after_last-append :
    (c : ℕ) (s rest : Text) → has_char c rest ≡ false → after_last c (s ++ c ∷ rest) ≡ some rest
unfolding after_last
after_last-append c [] rest h = rw (after_last-none_of c rest h) (ground arith)
after_last-append c (d ∷ s) rest h = rw (after_last-append c s rest h) refl

pub before_last-append :
    (c : ℕ) (s rest : Text) → has_char c rest ≡ false → before_last c (s ++ c ∷ rest) ≡ s
unfolding before_last
before_last-append c [] rest h = rw (after_last-none_of c rest h, before_last) (ground arith)
before_last-append c (d ∷ s) rest h =
    rw (after_last-append c s rest h, before_last) (ap (λ r. d ∷ r) (before_last-append c s rest h))

pub text_lt-asym : (s t : Text) → text_lt s t ≡ true → text_lt t s ≡ false
unfolding text_lt
text_lt-asym [] [] h = cc
text_lt-asym [] (d ∷ t) h = refl
text_lt-asym (c ∷ s) [] h = cc
text_lt-asym (c ∷ s) (d ∷ t) h = ground (arith, text_lt-asym s t)
