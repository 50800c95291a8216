-- ===== src/Utils/Filename.antt =====
-- `sanitize_filename` of utils.py.
pub mod Bounds
pub mod Limit
use apple_mail_fast_mcp.Base.{
  ℕ, ◌+◌, ◌-◌, Bool, true, false, not, ◌&&◌, ◌||◌, Option, none, some, List, [], ◌∷◌, ◌++◌, leb,
  ltb, ◌==◌, map, length, take, keep, is_empty, if◌then◌else◌,
}
use apple_mail_fast_mcp.Text.{Text, codes, text_eq, lstrip, after_last, before_last}
use apple_mail_fast_mcp.Utils.Escape.{replace_char, split_on}

-- `Path(s).name`: the last component of a POSIX path that is neither empty nor `.`
last_or_empty : List Text → Text
last_or_empty [] = []
last_or_empty (t ∷ []) = t
last_or_empty (t ∷ u ∷ ts) = last_or_empty (u ∷ ts)

unfoldable pub path_name : Text → Text
unfolding last_or_empty
path_name s =
    last_or_empty (keep (λ t. not (is_empty t || text_eq t (codes "."))) (split_on b'/' s))

-- `[a-zA-Z0-9._-]`
unfoldable pub is_safe_char : ℕ → Bool
is_safe_char c =
    (leb b'a' c && leb c b'z')
    || (leb b'A' c && leb c b'Z')
    || (leb b'0' c && leb c b'9')
    || c == b'.'
    || c == b'_'
    || c == b'-'

abbrev pub safe_or_underscore : ℕ → ℕ
safe_or_underscore c = if is_safe_char c then c else b'_'

abbrev pub is_dot : ℕ → Bool
is_dot c = c == b'.'

-- The name up to the step that limits its length.
unfoldable pub clean_name : Text → Text
unfolding path_name is_safe_char
clean_name filename =
    lstrip is_dot (map safe_or_underscore (path_name (replace_char 0 [] filename)))

-- `s[: max_length - n - 1]`: with a number below zero it drops characters from the end.
unfoldable pub slice_for : ℕ → ℕ → Text → Text
slice_for max_length n s =
    if leb (n + 1) max_length
    then take (max_length - n - 1) s
    else take (length s - (n + 1 - max_length)) s

-- The step that limits the length and means to keep the extension.
unfoldable pub limit_length : ℕ → Text → Text
unfolding slice_for
limit_length max_length s =
    if ltb max_length (length s)
    then elim (after_last b'.' s) [
      | none ↦ take max_length s
      | some ext ↦
          if is_empty ext
          then take max_length s
          else slice_for max_length (length ext) (before_last b'.' s) ++ b'.' ∷ ext
    ]
    else s

unfoldable pub sanitize_filename : Text → Text
sanitize_filename filename =
    let name = limit_length 255 (clean_name filename) in
    if is_empty name then codes "unnamed_file" else name
