-- ===== src/Imap/Tests/Structures.antt =====
-- The theorems on body structures and on the rows of a search at concrete inputs.
use mathlib.Core.List.{reverse}
use apple_mail_fast_mcp.Base.{
  ℕ, ◌≡◌, refl, true, false, not, ◌&&◌, Option, none, some, List, [], ◌∷◌, ◌==◌, arith,
  if◌then◌else◌,
}
use apple_mail_fast_mcp.Text.{Text, codes}
use apple_mail_fast_mcp.Imap.{Reply, value}
use apple_mail_fast_mcp.Imap.Bodystructure.{
  Value, bytes, atom, sequence, tuple, nil, cons, is_word, find_param, filename_from_params,
  is_disposition, lists_attachment, first_disposition, is_rfc822, leaf_attachments, walk,
  walk_tuple, walk_each, bodystructure_extract_attachments, has_param, disposition_marks_attachment,
  any_marks, leaf_has_attachment, bodystructure_has_attachment, tuple_has_attachment,
  each_has_attachment,
}
use apple_mail_fast_mcp.Imap.Bodystructure.Agreement.{
  lists_some, names_are_bytes, any_disposition, leaf_regular, is_regular, tuple_regular,
  each_regular, listed-has_attachment, bodystructure_has_attachment_agrees,
}
use apple_mail_fast_mcp.Imap.Rows.{collect_rows}
use apple_mail_fast_mcp.Imap.Rows.Newest.{newest, rows_in, collect_rows-newest}

abbrev b : Text → Value
b s = bytes s

-- A message with a text and a PDF, in IMAPClient's form
abbrev text_part : Value
text_part = tuple (cons (b (codes "text")) (cons (b (codes "plain")) (cons (tuple nil) nil)))

abbrev disposition : Value → Value
disposition name =
    tuple
      (cons (b (codes "INLINE")) (cons (tuple (cons (b (codes "filename")) (cons name nil))) nil))

abbrev pdf_part : Value → Value
pdf_part name =
    tuple (cons (b (codes "application")) (cons (b (codes "pdf")) (cons (disposition name) nil)))

abbrev mixed : Value → Value
mixed name =
    tuple
      (cons (sequence (cons text_part (cons (pdf_part name) nil))) (cons (b (codes "mixed")) nil))

abbrev same : Text → Text
same s = s

listed-has_attachment_example :
    (lists_some (bodystructure_extract_attachments same (mixed (b (codes "a.pdf"))))
      && not (bodystructure_has_attachment (mixed (b (codes "a.pdf")))))
    ≡ false
listed-has_attachment_example = listed-has_attachment same (mixed (b (codes "a.pdf")))

bodystructure_has_attachment_agrees_example :
    bodystructure_has_attachment (mixed (b (codes "a.pdf")))
    ≡ lists_some (bodystructure_extract_attachments same (mixed (b (codes "a.pdf"))))
unfolding is_regular tuple_regular each_regular leaf_regular any_disposition is_disposition is_word
    names_are_bytes
bodystructure_has_attachment_agrees_example =
    bodystructure_has_attachment_agrees same (mixed (b (codes "a.pdf"))) refl

-- A file name that is not bytes: the filter says yes, the list is empty.
filename_none :
    (bodystructure_has_attachment (mixed atom) ≡ true)
    × (bodystructure_extract_attachments same (mixed atom) ≡ [])
unfolding bodystructure_has_attachment tuple_has_attachment each_has_attachment leaf_has_attachment
    is_rfc822 any_marks disposition_marks_attachment has_param is_word
    bodystructure_extract_attachments walk walk_tuple walk_each leaf_attachments first_disposition
    is_disposition lists_attachment filename_from_params find_param
filename_none = (refl, refl)

-- Every second message has a row, which is its UID.
abbrev even : ℕ → Option ℕ
even u = if u == 2 then some 2 else if u == 4 then some 4 else if u == 6 then some 6 else none

abbrev answer : List ℕ → ℕ → Reply (ℕ → Option ℕ) × ℕ
answer chunk w = (value even, w)

abbrev all_uids : List ℕ
all_uids = 2 ∷ 3 ∷ 4 ∷ 5 ∷ 6 ∷ 7 ∷ []

collect_rows-newest_example :
    collect_rows answer (some 2) all_uids 0
    ≡ (value (reverse (newest (some 2) (rows_in even (reverse all_uids)))), 0)
collect_rows-newest_example =
    collect_rows-newest answer even (λ chunk w. refl) (some 2) all_uids 0 (omega arith)
      (omega arith)
