-- ===== src/Drafts/Builder/Headers.antt =====
-- No header of a draft can hold a line break.
use apple_mail_fast_mcp.Base.{
  ◌≡◌, refl, ◌∙◌, Bool, true, not, ◌||◌, Option, none, some, List, [], ◌∷◌, ◌++◌, ◌==◌, All,
  All-append, all, all-append, all-keep, map,
}
use apple_mail_fast_mcp.Text.{Text, codes}
use apple_mail_fast_mcp.Drafts.Builder.{
  sanitize_header, joined, Draft, list_header, reply_header, draft_headers,
}

-- A text without NUL, CR and LF
abbrev pub is_one_line : Text → Bool
is_one_line s = all (λ c. not (c == 0 || (c == 13 || c == 10))) s

abbrev pub HasOneLine : Text × Text → Type 0
HasOneLine h = is_one_line h.1 ≡ true

sanitize_header-one_line : (s : Text) → is_one_line (sanitize_header s) ≡ true
unfolding sanitize_header
sanitize_header-one_line s = all-keep _ s

append-one_line :
    (s t : Text) → is_one_line s ≡ true → is_one_line t ≡ true → is_one_line (s ++ t) ≡ true
append-one_line s t h k = all-append _ s t ∙ rw (h, k) refl

joined-one_line :
    (separator : Text) (values : List Text)
    → is_one_line separator ≡ true
    → is_one_line (joined separator (map sanitize_header values)) ≡ true
joined-one_line separator [] h = refl
joined-one_line separator (v ∷ []) h = sanitize_header-one_line v
joined-one_line separator (v ∷ w ∷ values) h =
    append-one_line (sanitize_header v ++ separator)
      (joined separator (map sanitize_header (w ∷ values)))
      (append-one_line (sanitize_header v) separator (sanitize_header-one_line v) h)
      (joined-one_line separator (w ∷ values) h)

list_header-HasOneLine :
    (name separator : Text) (values : List Text)
    → is_one_line separator ≡ true
    → All HasOneLine (list_header name separator values)
unfolding list_header
list_header-HasOneLine name separator [] h = tt
list_header-HasOneLine name separator (v ∷ values) h =
    (joined-one_line separator (v ∷ values) h, tt)

reply_header-HasOneLine : (id : Option Text) → All HasOneLine (reply_header id)
unfolding reply_header
reply_header-HasOneLine none = tt
reply_header-HasOneLine (some []) = tt
reply_header-HasOneLine (some (c ∷ id)) = (sanitize_header-one_line (c ∷ id), tt)

-- The parts of the list
abbrev first_headers : Text → Draft → List (Text × Text)
first_headers message_id d =
    (codes "Message-ID", message_id)
    ∷ (codes "From", sanitize_header d.sender)
    ∷ (codes "To", joined (codes ", ") (map sanitize_header d.to))
    ∷ list_header (codes "Cc") (codes ", ") d.cc

abbrev last_headers : Text → Draft → List (Text × Text)
last_headers date d =
    (codes "Subject", sanitize_header d.subject) ∷ (codes "Date", date) ∷ reply_header d.in_reply_to

-- Whatever the addresses, the subject and the ids of a draft are: none of its headers holds NUL, CR
-- or LF, if the Message-ID and the date that the email package makes hold none. So no caller can put
-- a header of his own into a draft.
pub draft_headers-HasOneLine :
    (message_id date : Text) (d : Draft)
    → is_one_line message_id ≡ true
    → is_one_line date ≡ true
    → All HasOneLine (draft_headers message_id date d)
unfolding draft_headers
draft_headers-HasOneLine message_id date d h k =
    All-append HasOneLine
      (first_headers message_id d
        ++ list_header (codes "Bcc") (codes ", ") d.bcc
        ++ last_headers date d)
      (list_header (codes "References") (codes " ") d.references)
      (All-append HasOneLine
        (first_headers message_id d ++ list_header (codes "Bcc") (codes ", ") d.bcc)
        (last_headers date d)
        (All-append HasOneLine (first_headers message_id d)
          (list_header (codes "Bcc") (codes ", ") d.bcc)
          (
            h,
            (
              sanitize_header-one_line d.sender,
              (
                joined-one_line (codes ", ") d.to refl,
                list_header-HasOneLine (codes "Cc") (codes ", ") d.cc refl,
              ),
            ),
          )
          (list_header-HasOneLine (codes "Bcc") (codes ", ") d.bcc refl))
        (sanitize_header-one_line d.subject, (k, reply_header-HasOneLine d.in_reply_to)))
      (list_header-HasOneLine (codes "References") (codes " ") d.references refl)
