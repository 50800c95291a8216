-- ===== src/Utils/Escape/Parse.antt =====
-- What `parse_applescript_list` and `sanitize_input` let through.
use apple_mail_fast_mcp.Base.{
  ℕ, zero, suc, ◌≤◌, ◌≡◌, refl, inl, inr, Bool, true, false, ◌||◌, ◌&&◌, not, Option, none, some,
  List, [], ◌∷◌, arith, map, is_empty, length, length-take, take, keep, all, All, Bool-cases,
  if◌then◌else◌,
}
use apple_mail_fast_mcp.Text.{
  Text, has_char, strip, is_space, codes, text_eq, starts_with, ends_with,
}
use apple_mail_fast_mcp.Text.Strip.{
  begins_in, ends_in, strip_by-begins_in, strip_by-ends_in, has_char-strip_by,
}
use apple_mail_fast_mcp.Utils.Escape.{
  replace_char, truncate, split_on, inner, parse_applescript_list, sanitize_input, max_input_length,
}

-- Splitting keeps no separator.
abbrev lacks : ℕ → Text → Bool
lacks c s = not (has_char c s)

split_on-lacks : (c : ℕ) (s : Text) → all (lacks c) (split_on c s) ≡ true
unfolding split_on
split_on-lacks c [] = refl
split_on-lacks c (d ∷ s) = ground (arith, split_on-lacks c s)

-- An item of a parsed list.
pub record IsItem (t : Text) : Type 0 where
  pub some_character : is_empty t ≡ false
  pub no_comma : has_char b',' t ≡ false
  pub no_leading_space : begins_in is_space t ≡ false
  pub no_trailing_space : ends_in is_space t ≡ false

strip-IsItem : (t : Text) → has_char b',' t ≡ false → is_empty (strip t) ≡ false → IsItem (strip t)
strip-IsItem t h some_char = record {
  some_character = some_char;
  no_comma = unfold strip in has_char-strip_by is_space b',' t h;
  no_leading_space = unfold strip in strip_by-begins_in is_space t;
  no_trailing_space = unfold strip in strip_by-ends_in is_space t;
}

keep-IsItem :
    (ts : List Text)
    → all (lacks b',') ts ≡ true
    → All IsItem (keep (λ t. not (is_empty t)) (map strip ts))
keep-IsItem [] h = tt
keep-IsItem (t ∷ ts) h = elim (Bool-cases (is_empty (strip t))) [
  | inl empty ↦ rw empty (keep-IsItem ts (ground arith))
  | inr full ↦ rw full (strip-IsItem t (ground arith) full, keep-IsItem ts (ground arith))
]

abbrev body : Text → Text
body result =
    if starts_with (strip result) (codes "{") && ends_with (strip result) (codes "}")
    then inner (strip result)
    else strip result

-- Every item that `parse_applescript_list` returns is a text that is not empty, holds no comma, and
-- neither begins nor ends with white space.
pub parse_applescript_list-IsItem : (result : Text) → All IsItem (parse_applescript_list result)
unfolding parse_applescript_list
parse_applescript_list-IsItem result = elim (Bool-cases (is_empty result)) [
  | inl empty ↦ rw empty tt
  | inr full ↦ elim (Bool-cases (text_eq (strip result) (codes "{}") || is_empty (strip result))) [
    | inl none_left ↦ rw (full, none_left) tt
    | inr items ↦
        rw (full, items)
          (keep-IsItem (split_on b',' (body result)) (split_on-lacks b',' (body result)))
  ]
]

has_char-replace : (s : Text) → has_char 0 (replace_char 0 [] s) ≡ false
unfolding replace_char
has_char-replace [] = refl
has_char-replace (d ∷ s) = ground (arith, has_char-replace s)

replace_char-id : (s : Text) → has_char 0 s ≡ false → replace_char 0 [] s ≡ s
unfolding replace_char
replace_char-id [] h = refl
replace_char-id (d ∷ s) h = ground (arith, replace_char-id s)

has_char-take : (n : ℕ) (s : Text) → has_char 0 s ≡ false → has_char 0 (take n s) ≡ false
has_char-take zero s h = refl
has_char-take (suc n) [] h = refl
has_char-take (suc n) (d ∷ s) h = ground (arith, has_char-take n s)

truncate_bounds :
    (n : ℕ) (s : Text)
    → has_char 0 s ≡ false
    → (has_char 0 (truncate n s) ≡ false) × (length (truncate n s) ≤ n)
unfolding truncate
truncate_bounds n s h = ground (arith, has_char-take n s h, length-take n s)

truncate-id : (n : ℕ) (s : Text) → length s ≤ n → truncate n s ≡ s
unfolding truncate
truncate-id n s h = ground arith

-- A sanitized input has no null byte and at most ten thousand characters.
pub sanitize_input_bounds :
    (value : Option Text)
    → (has_char 0 (sanitize_input value) ≡ false)
      × (length (sanitize_input value) ≤ max_input_length)
unfolding sanitize_input
sanitize_input_bounds none = (refl, omega arith)
sanitize_input_bounds (some value) =
    truncate_bounds max_input_length (replace_char 0 [] value) (has_char-replace value)

-- An input without null bytes and of at most ten thousand characters is left as it was.
pub sanitize_input-id :
    (value : Text)
    → has_char 0 value ≡ false
    → length value ≤ max_input_length
    → sanitize_input (some value) ≡ value
unfolding sanitize_input
sanitize_input-id value clean short =
    rw (replace_char-id value clean) (truncate-id max_input_length value short)
