-- ===== src/Utils/MessageIds/Distinct.antt =====
-- The ids of a header are distinct, and stripped of their brackets.
use mathlib.Core.List.{foldl}
use apple_mail_fast_mcp.Base.{
  ℕ, ◌≡◌, refl, inl, inr, Bool, true, false, not, ◌||◌, List, [], ◌∷◌, ◌++◌, arith, ◌==◌, is_empty,
  all, All, All-append, Bool-cases,
}
use apple_mail_fast_mcp.Text.{Text, text_eq, text_member, strip, lstrip, rstrip, is_space}
use apple_mail_fast_mcp.Text.Search.{text_eq-sym}
use apple_mail_fast_mcp.Text.Strip.{
  begins_in, ends_in, lstrip-begins_in, begins_in-rstrip, rstrip-ends_in, all-lstrip, all-rstrip,
  strip_by-id, not-begins_in, not-ends_in,
}
use apple_mail_fast_mcp.Utils.MessageIds.{add_char, words, clean_id, add_id, parse_rfc822_ids}

abbrev pub is_solid : ℕ → Bool
is_solid c = not (is_space c)

add_char-solid :
    (c : ℕ) (b : Bool) (ws : List Text)
    → is_solid c ≡ true
    → All (λ w. all is_solid w ≡ true) ws
    → All (λ w. all is_solid w ≡ true) (add_char c b ws)
unfolding add_char
add_char-solid c b [] h k = (rw h refl, tt)
add_char-solid c true (w ∷ ws) h k = (rw h k.0, k.1)
add_char-solid c false (w ∷ ws) h k = (rw h refl, k)

words-solid : (s : Text) → All (λ w. all is_solid w ≡ true) (words s)
unfolding words
words-solid [] = tt
words-solid (c ∷ s) = elim (Bool-cases (is_space c)) [
  | inl e ↦ rw e (words-solid s)
  | inr e ↦ rw e (add_char-solid c (begins_in is_solid s) (words s) (rw e refl) (words-solid s))
]

-- A message id without its brackets: no white space, and no bracket left at its end of it.
pub record IsBareId (t : Text) : Type 0 where
  pub some_character : is_empty t ≡ false
  pub solid : all is_solid t ≡ true
  pub opened : begins_in (λ c. c == b'<') t ≡ false
  pub closed : ends_in (λ c. c == b'>') t ≡ false

pub strip-solid : (s : Text) → all is_solid s ≡ true → strip s ≡ s
unfolding strip
strip-solid s h = strip_by-id is_space s (not-begins_in is_space s h) (not-ends_in is_space s h)

clean_id-IsBareId :
    (tok : Text)
    → all is_solid tok ≡ true
    → is_empty (clean_id tok) ≡ false
    → IsBareId (clean_id tok)
unfolding clean_id
clean_id-IsBareId tok h full =
    let inner = lstrip (λ c. c == b'<') tok in
    let core = rstrip (λ c. c == b'>') inner in
    let solid =
      all-rstrip (λ c. c == b'>') is_solid inner (all-lstrip (λ c. c == b'<') is_solid tok h) in
    let same : clean_id tok ≡ core = rw (strip-solid tok h) (strip-solid core solid) in
    rw same (record {
      some_character = rw same at full;
      solid = solid;
      opened =
          begins_in-rstrip (λ c. c == b'<') (λ c. c == b'>') inner
            (lstrip-begins_in (λ c. c == b'<') tok);
      closed = rstrip-ends_in (λ c. c == b'>') inner;
    })

-- No text occurs twice.
abbrev pub Distinct : List Text → Type 0
Distinct [] = Unit
Distinct (t ∷ ts) = (text_member t ts ≡ false) × Distinct ts

pub text_member-snoc :
    (u t : Text) (ts : List Text) → text_member u (ts ++ t ∷ []) ≡ (text_member u ts || text_eq t u)
text_member-snoc u t [] = ground arith
text_member-snoc u t (v ∷ ts) = ground (arith, text_member-snoc u t ts)

Distinct-snoc :
    (ts : List Text) (t : Text) → Distinct ts → text_member t ts ≡ false → Distinct (ts ++ t ∷ [])
Distinct-snoc [] t h k = (refl, tt)
Distinct-snoc (u ∷ ts) t h k =
    let rest = Distinct-snoc ts t h.1 (ground arith) in
    let ends = text_member-snoc u t ts in
    let swap = text_eq-sym u t in (ground (arith, ends, swap), rest)

record IsParsed (out : List Text) : Type 0 where
  bare : All IsBareId out
  distinct : Distinct out

add_id-IsParsed :
    (out : List Text) (tok : Text)
    → all is_solid tok ≡ true
    → IsParsed out
    → IsParsed (add_id out tok)
unfolding add_id
add_id-IsParsed out tok h p = elim (Bool-cases (is_empty (clean_id tok))) [
  | inl empty ↦ rw empty p
  | inr full ↦ elim (Bool-cases (text_member (clean_id tok) out)) [
    | inl known ↦ rw (full, known) p
    | inr new ↦
        rw (full, new)
          (record {
            bare =
                All-append IsBareId out (clean_id tok ∷ []) p.bare
                  (clean_id-IsBareId tok h full, tt);
            distinct = Distinct-snoc out (clean_id tok) p.distinct new;
          })
  ]
]

foldl-IsParsed :
    (out : List Text) (toks : List Text)
    → All (λ w. all is_solid w ≡ true) toks
    → IsParsed out
    → IsParsed (foldl add_id out toks)
foldl-IsParsed out [] h p = p
foldl-IsParsed out (tok ∷ toks) h p =
    foldl-IsParsed (add_id out tok) toks h.1 (add_id-IsParsed out tok h.0 p)

-- The parsed ids are distinct, and each is a text that is not empty, holds no white space, and
-- neither begins with an opening nor ends with a closing bracket.
pub parse_rfc822_ids-Distinct :
    (raw : Text) → All IsBareId (parse_rfc822_ids raw) × Distinct (parse_rfc822_ids raw)
unfolding parse_rfc822_ids
parse_rfc822_ids-Distinct raw =
    let p = foldl-IsParsed [] (words raw) (words-solid raw) (record { bare = tt; distinct = tt }) in
    (p.bare, p.distinct)
