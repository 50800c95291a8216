-- ===== src/Security/Validators.antt =====
-- The input validators of security.py that need no regular expression.
pub mod Attachments
use apple_mail_fast_mcp.Base.{
  ℕ, ◌*◌, Bool, true, false, Option, none, some, List, [], ◌∷◌, leb, ltb, ◌==◌, any, if◌then◌else◌,
}
use apple_mail_fast_mcp.Text.{Text, Unicode, codes, ends_with, lower}

-- The messages of `validate_bulk_operation`, by the numbers that they show.
pub data BulkError : Type 0 where
  no_items : BulkError
  too_many_items : ℕ → ℕ → BulkError

-- `validate_bulk_operation`, of a number of items; `none` is `(True, "")`
unfoldable pub validate_bulk_operation : ℕ → ℕ → Option BulkError
validate_bulk_operation item_count max_items =
    if item_count == 0
    then some BulkError.no_items
    else if ltb max_items item_count
    then some (BulkError.too_many_items item_count max_items)
    else none

abbrev pub dangerous_extensions : List Text
dangerous_extensions =
    codes ".exe"
    ∷ codes ".bat"
    ∷ codes ".cmd"
    ∷ codes ".com"
    ∷ codes ".scr"
    ∷ codes ".pif"
    ∷ codes ".vbs"
    ∷ codes ".vbe"
    ∷ codes ".js"
    ∷ codes ".jse"
    ∷ codes ".wsf"
    ∷ codes ".wsh"
    ∷ codes ".msi"
    ∷ codes ".msp"
    ∷ codes ".scf"
    ∷ codes ".lnk"
    ∷ codes ".inf"
    ∷ codes ".reg"
    ∷ codes ".ps1"
    ∷ codes ".psm1"
    ∷ codes ".app"
    ∷ codes ".deb"
    ∷ codes ".rpm"
    ∷ codes ".sh"
    ∷ codes ".bash"
    ∷ codes ".csh"
    ∷ codes ".ksh"
    ∷ codes ".zsh"
    ∷ codes ".command"
    ∷ []

-- The loop over the extensions, on the name in lower case
unfoldable pub has_extension : List Text → Text → Bool
has_extension [] s = false
has_extension (ext ∷ exts) s = if ends_with s ext then true else has_extension exts s

-- `validate_attachment_type`
unfoldable pub validate_attachment_type : Unicode → Text → Bool → Bool
unfolding has_extension
validate_attachment_type u filename allow_executables =
    if has_extension dangerous_extensions (lower u filename) then allow_executables else true

-- `validate_attachment_size`, with the default of its limit
abbrev pub max_attachment_size : ℕ
max_attachment_size = 25 * 1024 * 1024

unfoldable pub validate_attachment_size : ℕ → ℕ → Bool
validate_attachment_size size_bytes max_size = leb size_bytes max_size
