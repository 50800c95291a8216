-- ===== src/Utils/MessageIds/RoundTrip.antt =====
-- A header in canonical form is parsed into the ids that it was made of.
use mathlib.Core.List.{foldl, append_assoc, append-nil}
use apple_mail_fast_mcp.Base.{
  ℕ, ◌≡◌, refl, ap, sym, ◌∙◌, Bool, true, false, List, [], ◌∷◌, ◌++◌, arith, map, ◌==◌, is_empty,
  all, all-append, All,
}
use apple_mail_fast_mcp.Text.{Text, text_member, lstrip, rstrip, is_space}
use apple_mail_fast_mcp.Text.Strip.{begins_in, rstrip-id}
use apple_mail_fast_mcp.Utils.Escape.{join}
use apple_mail_fast_mcp.Utils.MessageIds.{add_char, words, clean_id, add_id, parse_rfc822_ids}
use apple_mail_fast_mcp.Text.Search.{text_eq-sym}
use apple_mail_fast_mcp.Utils.MessageIds.Distinct.{
  is_solid, IsBareId, strip-solid, Distinct, text_member-snoc,
}

-- The canonical form of RFC 5322: ids in angle brackets, separated by a space.
abbrev pub bracketed : Text → Text
bracketed t = b'<' ∷ t ++ b'>' ∷ []

abbrev pub header : List Text → Text
header ids = join (b' ' ∷ []) (map bracketed ids)

words-last : (w : Text) → all is_solid w ≡ true → is_empty w ≡ false → words w ≡ w ∷ []
unfolding words add_char
words-last [] h full = cc
words-last (c ∷ []) h full = ground arith
words-last (c ∷ d ∷ w) h full =
    let rest = words-last (d ∷ w) (ground arith) refl in ground (arith, rest)

space : is_space b' ' ≡ true
unfolding is_space
space = refl

add_char-stop : (c : ℕ) (ws : List Text) → add_char c false ws ≡ (c ∷ []) ∷ ws
unfolding add_char
add_char-stop c [] = refl
add_char-stop c (w ∷ ws) = refl

words-next :
    (w rest : Text)
    → all is_solid w ≡ true
    → is_empty w ≡ false
    → words (w ++ b' ' ∷ rest) ≡ w ∷ words rest
unfolding words add_char
words-next [] rest h full = cc
words-next (c ∷ []) rest h full =
    let solid : is_space c ≡ false = ground arith in
    rw (solid, space) (add_char-stop c (words rest))
words-next (c ∷ d ∷ w) rest h full =
    let next = words-next (d ∷ w) rest (ground arith) refl in
    let solid : is_space c ≡ false = ground arith in
    let solid' : is_space d ≡ false = ground arith in ground (arith, next, solid, solid')

rstrip-snoc : (p : ℕ → Bool) (s : Text) (c : ℕ) → p c ≡ true → rstrip p (s ++ c ∷ []) ≡ rstrip p s
unfolding rstrip
rstrip-snoc p [] c h = rw h refl
rstrip-snoc p (d ∷ s) c h = rw (rstrip-snoc p s c h) refl

bracketed-solid : (t : Text) → all is_solid t ≡ true → all is_solid (bracketed t) ≡ true
bracketed-solid t h = rw all-append (rw h (unfold is_space in refl))

lstrip-bracketed :
    (t : Text)
    → is_empty t ≡ false
    → begins_in (λ c. c == b'<') t ≡ false
    → lstrip (λ c. c == b'<') (bracketed t) ≡ t ++ b'>' ∷ []
unfolding lstrip
lstrip-bracketed [] full h = cc
lstrip-bracketed (c ∷ t) full h = rw h refl

clean_id-bracketed : (t : Text) → IsBareId t → clean_id (bracketed t) ≡ t
unfolding clean_id
clean_id-bracketed t v =
    rw
      (
        strip-solid (bracketed t) (bracketed-solid t v.solid),
        lstrip-bracketed t v.some_character v.opened,
        rstrip-snoc (λ c. c == b'>') t b'>' refl,
        rstrip-id (λ c. c == b'>') t v.closed,
      )
      (strip-solid t v.solid)

-- None of the ids is among those that have been taken.
abbrev Apart : List Text → List Text → Type 0
Apart out ids = All (λ t. text_member t out ≡ false) ids

Apart-snoc :
    (out : List Text) (t : Text) (ids : List Text)
    → text_member t ids ≡ false
    → Apart out ids
    → Apart (out ++ t ∷ []) ids
Apart-snoc out t [] h k = tt
Apart-snoc out t (u ∷ ids) h k =
    let ends = text_member-snoc u t out in
    let swap = text_eq-sym u t in
    (ground (arith, ends, swap), Apart-snoc out t ids (ground arith) k.1)

foldl-bracketed :
    (out ids : List Text)
    → All IsBareId ids
    → Distinct ids
    → Apart out ids
    → foldl add_id out (map bracketed ids) ≡ out ++ ids
unfolding add_id
foldl-bracketed out [] bare distinct apart = sym (append-nil out)
foldl-bracketed out (t ∷ ids) bare distinct apart =
    let step : add_id out (bracketed t) ≡ out ++ t ∷ [] =
      rw (clean_id-bracketed t bare.0, bare.0.some_character, apart.0) refl in
    ap (λ o. foldl add_id o (map bracketed ids)) step
    ∙ foldl-bracketed (out ++ t ∷ []) ids bare.1 distinct.1
        (Apart-snoc out t ids distinct.0 apart.1)
    ∙ append_assoc out (t ∷ []) ids

words-header : (ids : List Text) → All IsBareId ids → words (header ids) ≡ map bracketed ids
unfolding join
words-header [] bare = unfold words in refl
words-header (t ∷ []) bare = words-last (bracketed t) (bracketed-solid t bare.0.solid) refl
words-header (t ∷ u ∷ ids) bare =
    words-next (bracketed t) (header (u ∷ ids)) (bracketed-solid t bare.0.solid) refl
    ∙ ap (λ ws. bracketed t ∷ ws) (words-header (u ∷ ids) bare.1)

Apart-nil : (ids : List Text) → Apart [] ids
Apart-nil [] = tt
Apart-nil (t ∷ ids) = (refl, Apart-nil ids)

-- From a header that lists distinct ids in angle brackets, with a space between two, the parser
-- gets back these ids in their order.
pub parse_rfc822_ids-header :
    (ids : List Text) → All IsBareId ids → Distinct ids → parse_rfc822_ids (header ids) ≡ ids
unfolding parse_rfc822_ids
parse_rfc822_ids-header ids bare distinct =
    rw (words-header ids bare) (foldl-bracketed [] ids bare distinct (Apart-nil ids))
