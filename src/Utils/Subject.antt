-- ===== src/Utils/Subject.antt =====
-- `normalize_subject` of utils.py.
pub mod Base
use apple_mail_fast_mcp.Base.{
  ℕ, zero, suc, Bool, true, false, Option, none, some, List, [], ◌∷◌, length, drop, if◌then◌else◌,
}
use apple_mail_fast_mcp.Text.{Text, Unicode, codes, starts_with, lower, strip, lstrip, is_space}

-- `_REPLY_PREFIXES`
abbrev pub reply_prefixes : List Text
reply_prefixes = codes "re:" ∷ codes "fwd:" ∷ codes "fw:" ∷ []

-- The `for` loop: the subject without the first prefix that it begins with, if there is one.
unfoldable pub strip_reply : Unicode → List Text → Text → Option Text
strip_reply u [] s = none
strip_reply u (prefix ∷ prefixes) s =
    if starts_with (lower u s) prefix
    then some (lstrip is_space (drop (length prefix) s))
    else strip_reply u prefixes s

-- The `while` loop, on fuel.
unfoldable pub strip_replies : ℕ → Unicode → Text → Option Text
strip_replies zero u s = none
strip_replies (suc n) u s = elim (strip_reply u reply_prefixes s) [
  | none ↦ some s
  | some t ↦ strip_replies n u t
]

-- A round takes a character off, so one round more than the characters is enough.
unfoldable pub normalize_subject : Unicode → Text → Option Text
normalize_subject u subject = let s = strip subject in strip_replies (suc (length s)) u s
