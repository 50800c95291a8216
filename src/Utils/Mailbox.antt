-- ===== src/Utils/Mailbox.antt =====
-- `sanitize_mailbox_name` and `is_gmail_system_label` of utils.py.
pub mod Clean
use apple_mail_fast_mcp.Base.{
  ℕ, Bool, true, false, not, ◌&&◌, ◌||◌, List, [], ◌∷◌, ◌==◌, keep, if◌then◌else◌,
}
use apple_mail_fast_mcp.Text.{Text, codes, text_eq, starts_with, has_char, strip}
use apple_mail_fast_mcp.Utils.Escape.{replace_char}

-- `name.replace("..", "")`
unfoldable pub remove_double_dots : Text → Text
remove_double_dots [] = []
remove_double_dots (c ∷ []) = c ∷ []
remove_double_dots (c ∷ d ∷ s) =
    let behind = remove_double_dots s in
    let on = remove_double_dots (d ∷ s) in if c == b'.' && d == b'.' then behind else c ∷ on

-- `[<>:"|?*]`
unfoldable pub is_dangerous : ℕ → Bool
is_dangerous c = has_char c (codes "<>:|?*\"")

unfoldable pub sanitize_mailbox_name : Text → Text
unfolding is_dangerous
sanitize_mailbox_name name =
    let undotted = remove_double_dots (replace_char 0 [] name) in
    let unslashed = replace_char b'\\' [] (replace_char b'/' [] undotted) in
    strip (keep (λ c. not (is_dangerous c)) unslashed)

unfoldable pub is_gmail_system_label : Text → Bool
is_gmail_system_label name = text_eq name (codes "[Gmail]") || starts_with name (codes "[Gmail]/")
