-- ===== src/Imap/Bodystructure.antt =====
-- imap_connector.py: the attachments of a BODYSTRUCTURE, as a list and as a yes or no.
pub mod Agreement
use apple_mail_fast_mcp.Base.{
  ℕ, zero, suc, Bool, true, false, not, ◌&&◌, ◌||◌, Option, none, some, List, [], ◌∷◌, ◌++◌,
  if◌then◌else◌,
}
use apple_mail_fast_mcp.Text.{Text, codes, text_eq, ascii_lower}

-- What IMAPClient parses a BODYSTRUCTURE into: bytes, a number, None and other atoms, a list, or a
-- tuple. A `bytearray`, which the code allows for, counts as bytes.
mutual
  pub data Value : Type 0 where
    bytes : Text → Value
    number : ℕ → Value
    atom : Value
    sequence tuple : Values → Value

  pub data Values : Type 0 where
    nil : Values
    cons : Value → Values → Values

-- A dict of `_bodystructure_extract_attachments`; `downloaded` is always False.
pub record Attachment : Type 0 where
  pub name : Text
  pub mime_type : Text
  pub size : ℕ

-- `b.lower()` of bytes, which changes ASCII only
abbrev pub bytes_lower : Text → Text
bytes_lower [] = []
bytes_lower (b ∷ bs) = ascii_lower b ∷ bytes_lower bs

-- `isinstance(v, bytes) and v.lower() == key`
unfoldable pub is_word : Text → Value → Bool
is_word key (bytes k) = text_eq (bytes_lower k) key
is_word key v = false

-- `v[0] if isinstance(v[0], bytes) else b""`, and so for the other positions
abbrev pub bytes_or_empty : Option Value → Text
bytes_or_empty (some (bytes b)) = b
bytes_or_empty v = []

abbrev pub at : Values → ℕ → Option Value
at nil n = none
at (cons v vs) zero = some v
at (cons v vs) (suc n) = at vs n

abbrev pub bytes_of : Value → Option Text
bytes_of (bytes b) = some b
bytes_of v = none

abbrev pub first_some : Option Text → Option Text → Option Text
first_some (some a) o = some a
first_some none o = o

-- The loop of `_filename_from_params` over the pairs of a tuple. A key whose value is not bytes is
-- passed over, and so is a last key without a value.
unfoldable pub find_param : Text → Values → Option Text
unfolding is_word
find_param key nil = none
find_param key (cons k nil) = none
find_param key (cons k (cons v rest)) =
    let found = find_param key rest in
    if is_word key k then first_some (bytes_of v) found else found

-- `_filename_from_params`, before the value is decoded
unfoldable pub filename_from_params : Text → Option Value → Option Text
unfolding find_param
filename_from_params key (some (tuple params)) = find_param key params
filename_from_params key v = none

-- A tuple whose head is one of the two disposition keywords
unfoldable pub is_disposition : Value → Bool
unfolding is_word
is_disposition (tuple (cons k rest)) = is_word (codes "attachment") k || is_word (codes "inline") k
is_disposition v = false

abbrev pub is_given : Option Text → Bool
is_given none = false
is_given (some s) = true

-- `disp_kind == b"attachment" or (disp_kind == b"inline" and disp_filename is not None)`
unfoldable pub lists_attachment : Value → Bool
unfolding is_word filename_from_params
lists_attachment (tuple (cons k rest)) =
    is_word (codes "attachment") k
    || (is_word (codes "inline") k
        && is_given (filename_from_params (codes "filename") (at rest 0)))
lists_attachment v = false

-- The loop over the elements, up to the first disposition
unfoldable pub first_disposition : Values → Option Value
unfolding is_disposition
first_disposition nil = none
first_disposition (cons v vs) = if is_disposition v then some v else first_disposition vs

-- `disp_filename`
unfoldable pub disposition_filename : Option Value → Option Text
unfolding filename_from_params
disposition_filename (some (tuple (cons k rest))) =
    filename_from_params (codes "filename") (at rest 0)
disposition_filename v = none

unfoldable pub is_rfc822 : Values → Bool
is_rfc822 leaf =
    text_eq (bytes_lower (bytes_or_empty (at leaf 0))) (codes "message")
    && text_eq (bytes_lower (bytes_or_empty (at leaf 1))) (codes "rfc822")

abbrev pub number_or_zero : Option Value → ℕ
number_or_zero (some (number n)) = n
number_or_zero v = 0

-- `a or b or ""`, of decoded names
abbrev pub name_or : Option Text → Option Text → Text
name_or (some (c ∷ s)) o = c ∷ s
name_or n (some s) = s
name_or n none = []

abbrev pub decoded : (Text → Text) → Option Text → Option Text
decoded decode none = none
decoded decode (some b) = some (decode b)

-- Whether the disposition that the loop found counts
abbrev pub marks : Option Value → Bool
marks none = false
marks (some v) = lists_attachment v

-- `decode` is `_decode` of bytes, by UTF-8 with replacements.
module _ (decode : Text → Text) where
  -- The part of `_walk` on a leaf
  unfoldable pub leaf_attachments : Values → List Attachment
  unfolding first_disposition disposition_filename is_rfc822 filename_from_params
  leaf_attachments leaf =
      let disposition = first_disposition leaf in
      if marks disposition || is_rfc822 leaf
      then record {
        name =
            name_or (decoded decode (disposition_filename disposition))
              (decoded decode (filename_from_params (codes "name") (at leaf 2)));
        mime_type =
            decode (bytes_or_empty (at leaf 0)) ++ b'/' ∷ decode (bytes_or_empty (at leaf 1));
        size = number_or_zero (at leaf 6);
      }
        ∷ []
      else []

  unfoldable mutual
    unfolding leaf_attachments

    -- `_walk`
    pub walk : Value → List Attachment
    walk (tuple vs) = walk_tuple vs
    walk v = []

    pub walk_tuple : Values → List Attachment
    walk_tuple nil = []
    walk_tuple (cons (sequence children) rest) = walk_each children
    walk_tuple (cons (tuple vs) rest) = walk_tuple vs ++ walk_each rest
    walk_tuple (cons (bytes b) rest) = leaf_attachments (cons (bytes b) rest)
    walk_tuple (cons (number n) rest) = leaf_attachments (cons (number n) rest)
    walk_tuple (cons atom rest) = leaf_attachments (cons atom rest)

    pub walk_each : Values → List Attachment
    walk_each nil = []
    walk_each (cons v vs) = walk v ++ walk_each vs

  -- `_bodystructure_extract_attachments`
  unfoldable pub bodystructure_extract_attachments : Value → List Attachment
  unfolding walk
  bodystructure_extract_attachments structure = walk structure

-- `any(...)` over the pairs of the parameters
unfoldable pub has_param : Text → Values → Bool
unfolding is_word
has_param key nil = false
has_param key (cons k nil) = false
has_param key (cons k (cons v rest)) = is_word key k || has_param key rest

abbrev pub has_filename : Option Value → Bool
has_filename (some (tuple params)) = has_param (codes "filename") params
has_filename v = false

-- `_disposition_marks_attachment`
unfoldable pub disposition_marks_attachment : Value → Bool
unfolding is_word has_param
disposition_marks_attachment (tuple (cons (bytes b) rest)) =
    if is_word (codes "attachment") (bytes b)
    then true
    else if not (is_word (codes "inline") (bytes b))
    then false
    else has_filename (at rest 0)
disposition_marks_attachment v = false

-- `any(_disposition_marks_attachment(elem) for elem in structure)`
unfoldable pub any_marks : Values → Bool
unfolding disposition_marks_attachment
any_marks nil = false
any_marks (cons v vs) = disposition_marks_attachment v || any_marks vs

-- `_leaf_has_attachment`
unfoldable pub leaf_has_attachment : Values → Bool
unfolding is_rfc822 any_marks
leaf_has_attachment leaf = if is_rfc822 leaf then true else any_marks leaf

unfoldable mutual
  unfolding leaf_has_attachment

  -- `_bodystructure_has_attachment`
  pub bodystructure_has_attachment : Value → Bool
  bodystructure_has_attachment (tuple vs) = tuple_has_attachment vs
  bodystructure_has_attachment v = false

  pub tuple_has_attachment : Values → Bool
  tuple_has_attachment nil = false
  tuple_has_attachment (cons (sequence children) rest) = each_has_attachment children
  tuple_has_attachment (cons (tuple vs) rest) = tuple_has_attachment vs || each_has_attachment rest
  tuple_has_attachment (cons (bytes b) rest) = leaf_has_attachment (cons (bytes b) rest)
  tuple_has_attachment (cons (number n) rest) = leaf_has_attachment (cons (number n) rest)
  tuple_has_attachment (cons atom rest) = leaf_has_attachment (cons atom rest)

  pub each_has_attachment : Values → Bool
  each_has_attachment nil = false
  each_has_attachment (cons v vs) = bodystructure_has_attachment v || each_has_attachment vs
