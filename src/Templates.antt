-- ===== src/Templates.antt =====
-- templates.py: the file format of a template, and the store. A file is found by the name of its
-- template.
pub mod RoundTrip
pub mod Store
mod Tests
use apple_mail_fast_mcp.Base.{
  ℕ, Bool, true, false, not, ◌&&◌, ◌||◌, Option, none, some, List, [], ◌∷◌, ◌++◌, leb, ◌==◌,
  is_empty, length, all, if◌then◌else◌,
}
use apple_mail_fast_mcp.Text.{Text, Unicode, codes, text_eq, has_char, lower, strip, rstrip}
use apple_mail_fast_mcp.Text.Strip.{begins_in}

pub record Template : Type 0 where
  pub name : Text
  pub subject : Option Text
  pub body : Text

pub data TemplateError : Type 0 where
  empty_file no_blank_line empty_body : TemplateError
  malformed_header unknown_key : Text → TemplateError
  invalid_name not_found : Text → TemplateError

pub data Outcome (A : Type 0) : Type 0 where
  good : A → Outcome A
  failed : TemplateError → Outcome A

-- Where `str.splitlines` ends a line
unfoldable pub is_line_break : ℕ → Bool
is_line_break c =
    (leb 10 c && leb c 13)
    || ((leb 28 c && leb c 30) || (c == 0x85 || (c == 0x2028 || c == 0x2029)))

abbrev pub add_to_line : ℕ → List Text → List Text
add_to_line c [] = (c ∷ []) ∷ []
add_to_line c (line ∷ lines) = (c ∷ line) ∷ lines

-- `text.splitlines(keepends=True)`; a carriage return goes with the newline behind it.
unfoldable pub split_lines : Text → List Text
split_lines [] = []
split_lines (c ∷ s) =
    let lines = split_lines s in
    if is_line_break c && not (c == 13 && begins_in (λ d. d == 10) s)
    then (c ∷ []) ∷ lines
    else add_to_line c lines

-- The lines before the first blank one, and those behind it
unfoldable pub split_at_blank : List Text → Option (List Text × List Text)
split_at_blank [] = none
split_at_blank (line ∷ lines) =
    let rest = split_at_blank lines in
    if is_empty (strip line)
    then some ([], lines)
    else elim rest [ none ↦ none | some (headers, body) ↦ some (line ∷ headers, body) ]

-- `line.partition(chr(c))`, without the separator
unfoldable pub before_first : ℕ → Text → Text
before_first c [] = []
before_first c (d ∷ s) = if d == c then [] else d ∷ before_first c s

unfoldable pub after_first : ℕ → Text → Text
after_first c [] = []
after_first c (d ∷ s) = if d == c then s else after_first c s

-- `raw.rstrip("\n").rstrip("\r")`
unfoldable pub without_end : Text → Text
without_end raw = rstrip (λ c. c == 13) (rstrip (λ c. c == 10) raw)

-- The loop over the header lines; of the one known key the last value counts.
unfoldable pub parse_headers : Unicode → List Text → Option Text → Outcome (Option Text)
parse_headers u [] subject = good subject
parse_headers u (raw ∷ raws) subject =
    let line = without_end raw in
    elim (is_empty (strip line)) [
      | true ↦ parse_headers u raws subject
      | false ↦ elim (has_char b':' line) [
        | false ↦ failed (TemplateError.malformed_header line)
        | true ↦
            let key = lower u (strip (before_first b':' line)) in
            elim (text_eq key (codes "subject")) [
              | false ↦ failed (TemplateError.unknown_key key)
              | true ↦ parse_headers u raws (some (strip (after_first b':' line)))
            ]
      ]
    ]

unfoldable pub concat : List Text → Text
concat [] = []
concat (line ∷ lines) = line ++ concat lines

-- `parse_template_file`
unfoldable pub parse_template_file : Unicode → Text → Text → Outcome Template
parse_template_file u name [] = failed TemplateError.empty_file
parse_template_file u name (c ∷ text) = elim (split_at_blank (split_lines (c ∷ text))) [
  | none ↦ failed TemplateError.no_blank_line
  | some (header_lines, body_lines) ↦
      let body = concat body_lines in
      elim (is_empty (strip body)) [
        | true ↦ failed TemplateError.empty_body
        | false ↦ elim (parse_headers u header_lines none) [
          | failed e ↦ failed e
          | good subject ↦ good (record { name = name; subject = subject; body = body })
        ]
      ]
]

-- `serialize_template`
unfoldable pub header_block : Option Text → Text
header_block none = []
header_block (some subject) = codes "subject: " ++ subject ++ 10 ∷ []

unfoldable pub serialize_template : Template → Text
unfolding header_block
serialize_template t = header_block t.subject ++ 10 ∷ t.body

-- `_NAME_RE.fullmatch(name)`
abbrev pub is_name_char : ℕ → Bool
is_name_char c =
    (leb b'a' c && leb c b'z')
    || ((leb b'A' c && leb c b'Z') || ((leb b'0' c && leb c b'9') || (c == b'_' || c == b'-')))

unfoldable pub is_valid_name : Text → Bool
is_valid_name name = all is_name_char name && (leb 1 (length name) && leb (length name) 64)
