-- ===== src/Text.antt =====
-- Python's `str` as the list of its code points, with the methods that the program calls.
pub mod Search
pub mod Strip
use Prim.Native.Char.{code}
use mathlib.Core.List.{reverse}
use apple_mail_fast_mcp.Base.{
  ℕ, zero, suc, ◌+◌, String, Bool, true, false, ◌&&◌, ◌||◌, Option, none, some, List, [], ◌∷◌, ◌++◌,
  leb, ltb, ◌==◌, is_empty, if◌then◌else◌,
}

abbrev pub Text : Type 0
Text = List ℕ

-- The text of a literal.
abbrev pub codes : String → Text
codes String.[] = []
codes (String.◌∷◌ c s) = code c ∷ codes s

-- What the Unicode tables say of `str.lower` outside ASCII: a code point, with the text before it
-- (backwards) and after it, on which the capital sigma depends, becomes a text.
pub record Unicode : Type 0 where
  pub lower_at : Text → ℕ → Text → Text

-- `s == t`
abbrev pub text_eq : Text → Text → Bool
text_eq [] [] = true
text_eq (c ∷ s) (d ∷ t) = c == d && text_eq s t
text_eq _ _ = false

-- `s in texts`
abbrev pub text_member : Text → List Text → Bool
text_member s [] = false
text_member s (t ∷ ts) = text_eq t s || text_member s ts

-- `chr(c) in s`
abbrev pub has_char : ℕ → Text → Bool
has_char c [] = false
has_char c (d ∷ s) = d == c || has_char c s

-- `s.startswith(prefix)` and `s.endswith(suffix)`
abbrev pub starts_with : Text → Text → Bool
starts_with s [] = true
starts_with [] (p ∷ prefix) = false
starts_with (c ∷ s) (p ∷ prefix) = c == p && starts_with s prefix

unfoldable pub ends_with : Text → Text → Bool
ends_with s suffix = starts_with (reverse s) (reverse suffix)

-- `str.isspace` of one code point
unfoldable pub is_space : ℕ → Bool
is_space c =
    (leb 9 c && leb c 13)
    || (leb 28 c && leb c 32)
    || c == 0x85
    || c == 0xa0
    || c == 0x1680
    || (leb 0x2000 c && leb c 0x200a)
    || c == 0x2028
    || c == 0x2029
    || c == 0x202f
    || c == 0x205f
    || c == 0x3000

-- `s.lstrip(chars)`, `s.rstrip(chars)` and `s.strip(chars)`, for the characters that pass a test
unfoldable pub lstrip : (ℕ → Bool) → Text → Text
lstrip p [] = []
lstrip p (c ∷ s) = if p c then lstrip p s else c ∷ s

unfoldable pub rstrip : (ℕ → Bool) → Text → Text
rstrip p [] = []
rstrip p (c ∷ s) = let rest = rstrip p s in if p c && is_empty rest then [] else c ∷ rest

unfoldable pub strip_by : (ℕ → Bool) → Text → Text
unfolding lstrip rstrip
strip_by p s = rstrip p (lstrip p s)

-- `s.strip()`
unfoldable pub strip : Text → Text
unfolding strip_by is_space
strip = strip_by is_space

abbrev pub ascii_lower : ℕ → ℕ
ascii_lower c = if leb b'A' c && leb c b'Z' then c + 32 else c

lower_from : Unicode → Text → Text → Text
lower_from u before [] = []
lower_from u before (c ∷ s) =
    (if leb c 127 then ascii_lower c ∷ [] else u.lower_at before c s) ++ lower_from u (c ∷ before) s

-- `s.lower()`
unfoldable pub lower : Unicode → Text → Text
unfolding lower_from
lower u = lower_from u []

-- What stands behind the last `chr(c)`: `s.rsplit(chr(c), 1)[1]`, and `none` where there is none.
unfoldable pub after_last : ℕ → Text → Option Text
after_last c [] = none
after_last c (d ∷ s) = elim (after_last c s) [
  | some rest ↦ some rest
  | none ↦ if d == c then some s else none
]

-- What stands before it: `s.rsplit(chr(c), 1)[0]`, the whole text where there is none.
unfoldable pub before_last : ℕ → Text → Text
unfolding after_last
before_last c [] = []
before_last c (d ∷ s) = elim (after_last c s) [
  | some rest ↦ d ∷ before_last c s
  | none ↦ if d == c then [] else d ∷ before_last c s
]

-- `s < t` of two texts, by code points
unfoldable pub text_lt : Text → Text → Bool
text_lt [] [] = false
text_lt [] (d ∷ t) = true
text_lt (c ∷ s) [] = false
text_lt (c ∷ s) (d ∷ t) = ltb c d || (c == d && text_lt s t)
