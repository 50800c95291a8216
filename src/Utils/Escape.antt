-- ===== src/Utils/Escape.antt =====
-- Texts embedded in AppleScript: `escape_applescript_string`, `format_applescript_list`,
-- `parse_applescript_list`, `sanitize_input` and `applescript_account_clause` of utils.py.
pub mod Literal
pub mod Parse
use apple_mail_fast_mcp.Base.{
  ℕ, ◌+◌, Bool, true, false, ◌&&◌, ◌||◌, not, Option, none, some, List, [], ◌∷◌, ◌++◌, map, leb,
  ltb, ◌==◌, is_empty, length, take, keep, if◌then◌else◌,
}
use apple_mail_fast_mcp.Text.{Text, codes, strip, starts_with, ends_with, text_eq}

-- `s.replace(chr(c), by)`
unfoldable pub replace_char : ℕ → Text → Text → Text
replace_char c by [] = []
replace_char c by (d ∷ s) = (if d == c then by else d ∷ []) ++ replace_char c by s

-- `escape_applescript_string`: backslashes first, then quotes
unfoldable pub escape_applescript_string : Text → Text
unfolding replace_char
escape_applescript_string s =
    replace_char b'"' (b'\\' ∷ b'"' ∷ []) (replace_char b'\\' (b'\\' ∷ b'\\' ∷ []) s)

-- `"{0}".format(escape_applescript_string(item))` between quotes
unfoldable pub quoted : Text → Text
quoted item = b'"' ∷ escape_applescript_string item ++ b'"' ∷ []

-- `sep.join(items)`
unfoldable pub join : Text → List Text → Text
join sep [] = []
join sep (s ∷ []) = s
join sep (s ∷ t ∷ ts) = s ++ (sep ++ join sep (t ∷ ts))

-- `format_applescript_list`
unfoldable pub format_applescript_list : List Text → Text
unfolding join quoted
format_applescript_list items = b'{' ∷ join (b',' ∷ b' ' ∷ []) (map quoted items) ++ b'}' ∷ []

-- `s.split(chr(c))`
unfoldable pub split_on : ℕ → Text → List Text
split_on c [] = [] ∷ []
split_on c (d ∷ s) = elim (split_on c s) [
  | [] ↦ []
  | t ∷ ts ↦ if d == c then [] ∷ t ∷ ts else (d ∷ t) ∷ ts
]

-- `s[1:-1]` of a text of two characters or more
abbrev pub drop_last : Text → Text
drop_last [] = []
drop_last (c ∷ []) = []
drop_last (c ∷ d ∷ s) = c ∷ drop_last (d ∷ s)

abbrev pub inner : Text → Text
inner [] = []
inner (c ∷ s) = drop_last s

-- `parse_applescript_list`
unfoldable pub parse_applescript_list : Text → List Text
unfolding split_on
parse_applescript_list result =
    if is_empty result
    then []
    else let s = strip result in
      if text_eq s (codes "{}") || is_empty s
      then []
      else let body = if starts_with s (codes "{") && ends_with s (codes "}") then inner s else s in
        keep (λ t. not (is_empty t)) (map strip (split_on b',' body))

-- `sanitize_input` of `None` or of a value with its `str`
abbrev pub max_input_length : ℕ
max_input_length = 10000

-- `if len(s) > n: s = s[:n]`
unfoldable pub truncate : ℕ → Text → Text
truncate n s = if ltb n (length s) then take n s else s

unfoldable pub sanitize_input : Option Text → Text
unfolding replace_char
sanitize_input none = []
sanitize_input (some value) = truncate max_input_length (replace_char 0 [] value)
