-- ===== src/Drafts/Builder.antt =====
-- draft_builder.py: the subjects, the recipients, the bodies and the headers of a draft.
pub mod Subjects
pub mod Recipients
pub mod Headers
use apple_mail_fast_mcp.Base.{
  ℕ, Bool, true, false, not, ◌&&◌, ◌||◌, Option, none, some, List, [], ◌∷◌, ◌++◌, ◌==◌, is_empty,
  keep, map, if◌then◌else◌,
}
use apple_mail_fast_mcp.Text.{
  Text, Unicode, codes, text_member, ascii_lower, is_space, lstrip, rstrip, strip, lower,
}

-- A prefix without regard to case; the letters of the patterns have no other case outside ASCII.
unfoldable pub starts_with_any_case : Text → Text → Bool
starts_with_any_case s [] = true
starts_with_any_case [] (p ∷ prefix) = false
starts_with_any_case (c ∷ s) (p ∷ prefix) = ascii_lower c == p && starts_with_any_case s prefix

-- `_RE_PREFIX.match(s)` and `_FWD_PREFIX.match(s)`
unfoldable pub has_re_prefix : Text → Bool
unfolding starts_with_any_case lstrip is_space
has_re_prefix s = starts_with_any_case (lstrip is_space s) (codes "re:")

unfoldable pub has_fwd_prefix : Text → Bool
unfolding starts_with_any_case lstrip is_space
has_fwd_prefix s =
    let t = lstrip is_space s in
    starts_with_any_case t (codes "fw:")
    || starts_with_any_case t (codes "fwd:")
    || starts_with_any_case t (codes "forward:")

-- `reply_subject` and `forward_subject`, which differ in the prefix
unfoldable pub prefixed : (Text → Bool) → Text → Text → Text
prefixed has_prefix prefix subject =
    let s = strip subject in
    if has_prefix s then s else if is_empty s then prefix else prefix ++ b' ' ∷ s

unfoldable pub reply_subject : Text → Text
unfolding prefixed has_re_prefix
reply_subject = prefixed has_re_prefix (codes "Re:")

unfoldable pub forward_subject : Text → Text
unfolding prefixed has_fwd_prefix
forward_subject = prefixed has_fwd_prefix (codes "Fwd:")

-- A pair of `getaddresses`: a display name and an address
abbrev pub Pair : Type 0
Pair = Text × Text

abbrev pub has_address : Pair → Bool
has_address p = not (is_empty p.1)

-- The loop over To and Cc, with what was seen
unfoldable pub other_recipients : Unicode → (Pair → Text) → List Text → List Pair → List Text
other_recipients u formataddr seen [] = []
other_recipients u formataddr seen (p ∷ ps) =
    let key = lower u p.1 in
    if is_empty p.1 || text_member key seen
    then other_recipients u formataddr seen ps
    else formataddr p ∷ other_recipients u formataddr (key ∷ seen) ps

-- `derive_reply_recipients`. `getaddresses` parses a list of headers, and `formataddr` prints a pair:
-- both are the email package's.
unfoldable pub derive_reply_recipients :
    Unicode
    → (List Text → List Pair)
    → (Pair → Text)
    → Text
    → Text
    → Text
    → Text
    → List Text
    → Bool
    → List Text × List Text
unfolding other_recipients
derive_reply_recipients u getaddresses formataddr from_header reply_to_header to_header cc_header
      self_addresses reply_all =
    let selves = map (lower u) self_addresses in
    let primary =
      keep has_address
        (getaddresses ((if is_empty reply_to_header then from_header else reply_to_header) ∷ [])) in
    let seen = map (λ p. lower u p.1) primary ++ selves in
    (
      map formataddr primary,
      if reply_all
          then other_recipients u formataddr seen (getaddresses (to_header ∷ cc_header ∷ []))
          else [],
    )

-- `_sanitize_header`
unfoldable pub sanitize_header : Text → Text
sanitize_header s = keep (λ c. not (c == 0 || (c == 13 || c == 10))) s

abbrev pub joined : Text → List Text → Text
joined separator [] = []
joined separator (s ∷ []) = s
joined separator (s ∷ t ∷ ss) = s ++ separator ++ joined separator (t ∷ ss)

-- What `build_draft_mime` is called with, as far as the headers go
pub record Draft : Type 0 where
  pub sender : Text
  pub to : List Text
  pub subject : Text
  pub cc : List Text
  pub bcc : List Text
  pub in_reply_to : Option Text
  pub references : List Text

-- `if values: msg[name] = separator.join(...)`
unfoldable pub list_header : Text → Text → List Text → List (Text × Text)
unfolding sanitize_header
list_header name separator [] = []
list_header name separator (v ∷ values) =
    (name, joined separator (map sanitize_header (v ∷ values))) ∷ []

unfoldable pub reply_header : Option Text → List (Text × Text)
unfolding sanitize_header
reply_header none = []
reply_header (some []) = []
reply_header (some (c ∷ id)) = (codes "In-Reply-To", sanitize_header (c ∷ id)) ∷ []

-- The headers that `build_draft_mime` sets, with the Message-ID that `make_msgid` made and the date
-- that `formatdate` gave.
unfoldable pub draft_headers : Text → Text → Draft → List (Text × Text)
unfolding sanitize_header list_header reply_header
draft_headers message_id date d =
    ((codes "Message-ID", message_id)
      ∷ (codes "From", sanitize_header d.sender)
      ∷ (codes "To", joined (codes ", ") (map sanitize_header d.to))
      ∷ list_header (codes "Cc") (codes ", ") d.cc)
    ++ list_header (codes "Bcc") (codes ", ") d.bcc
    ++ ((codes "Subject", sanitize_header d.subject)
        ∷ (codes "Date", date)
        ∷ reply_header d.in_reply_to)
    ++ list_header (codes "References") (codes " ") d.references

-- A line of `_quote_lines`
abbrev pub quote_line : Text → Text
quote_line [] = codes ">"
quote_line (c ∷ line) = codes "> " ++ c ∷ line

-- `_quote_lines`, of the lines of `splitlines`
unfoldable pub quote_lines : List Text → Text
quote_lines lines = joined (codes "\n") (map quote_line lines)

-- `build_reply_body` and `build_forward_body`
unfoldable pub build_reply_body : Text → Text → Text → List Text → Text
unfolding quote_lines
build_reply_body new_body original_from original_date original_lines =
    rstrip is_space new_body
    ++ codes "\n\nOn "
    ++ strip original_date
    ++ codes ", "
    ++ strip original_from
    ++ codes " wrote:\n"
    ++ quote_lines original_lines
    ++ codes "\n"

unfoldable pub build_forward_body : Text → Text → Text → Text → Text → Text → Text
build_forward_body new_body original_from original_date original_subject original_to original_text =
    rstrip is_space new_body
    ++ codes "\n\n---------- Forwarded message ----------\nFrom: "
    ++ strip original_from
    ++ codes "\nDate: "
    ++ strip original_date
    ++ codes "\nSubject: "
    ++ strip original_subject
    ++ codes "\nTo: "
    ++ strip original_to
    ++ codes "\n\n"
    ++ original_text
    ++ codes "\n"
