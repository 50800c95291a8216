-- ===== src/Utils/Escape/Literal.antt =====
-- What AppleScript reads back: an escaped text stays inside its literal, whatever it holds.
use mathlib.Core.List.{append_assoc}
use mathlib.Core.Option
use apple_mail_fast_mcp.Base.{
  ℕ, zero, suc, ◌≤◌, ◌≡◌, refl, false, ◌&&◌, Option, none, some, List, [], ◌∷◌, ◌++◌, arith, map,
  ◌==◌, length, if◌then◌else◌,
}
use apple_mail_fast_mcp.Text.{Text, codes, text_eq}
use apple_mail_fast_mcp.Utils.Escape.{
  replace_char, escape_applescript_string, quoted, join, format_applescript_list,
}

-- The character that AppleScript reads for a backslash and the one behind it.
unescape : ℕ → Option ℕ
unescape c =
    if c == b'"'
    then some b'"'
    else if c == b'\\'
    then some b'\\'
    else if c == b'n'
    then some 10
    else if c == b'r'
    then some 13
    else if c == b't'
    then some 9
    else none

abbrev prepend : ℕ → Option (Text × Text) → Option (Text × Text)
prepend c none = none
prepend c (some (s, rest)) = some (c ∷ s, rest)

-- Reads a string literal behind its opening quote: the text that it stands for, and the rest of
-- the script. `none` is a literal that is not closed, or an escape that AppleScript refuses.
unfoldable pub read_literal : Text → Option (Text × Text)
unfolding unescape
read_literal [] = none
read_literal (c ∷ []) = if c == b'"' then some ([], []) else none
read_literal (c ∷ d ∷ s) =
    let behind = read_literal s in
    let on = read_literal (d ∷ s) in
    if c == b'"'
    then some ([], d ∷ s)
    else if c == b'\\'
    then elim (unescape d) [ none ↦ none | some e ↦ prepend e behind ]
    else prepend c on

replace_char-append :
    (c : ℕ) (by s t : Text)
    → replace_char c by (s ++ t) ≡ replace_char c by s ++ replace_char c by t
unfolding replace_char
replace_char-append c by [] t = refl
replace_char-append c by (d ∷ s) t = rw (replace_char-append c by s t, append_assoc) refl

abbrev escaped : ℕ → Text
escaped c =
    if c == b'\\' then b'\\' ∷ b'\\' ∷ [] else if c == b'"' then b'\\' ∷ b'"' ∷ [] else c ∷ []

-- The two passes over the text escape it character by character.
escape-cons :
    (c : ℕ) (s : Text)
    → escape_applescript_string (c ∷ s) ≡ escaped c ++ escape_applescript_string s
unfolding escape_applescript_string
escape-cons c s = ground arith

read_literal-quote : (rest : Text) → read_literal (b'"' ∷ rest) ≡ some ([], rest)
unfolding read_literal
read_literal-quote [] = refl
read_literal-quote (d ∷ rest) = refl

read_literal-escaped :
    (c : ℕ) (t : Text) (s rest : Text)
    → read_literal t ≡ some (s, rest)
    → read_literal (escaped c ++ t) ≡ some (c ∷ s, rest)
unfolding read_literal
read_literal-escaped c [] s rest h = cc
read_literal-escaped c (d ∷ t) s rest h = ground arith

-- An escaped text cannot leave its literal: read from behind the opening quote, AppleScript gets
-- back the text itself, and goes on with whatever stood behind the closing quote.
pub read_literal-escape :
    (s rest : Text) → read_literal (escape_applescript_string s ++ b'"' ∷ rest) ≡ some (s, rest)
read_literal-escape [] rest = unfold escape_applescript_string in read_literal-quote rest
read_literal-escape (c ∷ s) rest =
    rw (escape-cons, append_assoc) (read_literal-escaped c _ s rest (read_literal-escape s rest))

-- What follows an item: the closing brace, or a comma, a space and the next item.
after_item : Text → (Text → Option (List Text)) → Text → Option (List Text)
after_item item next [] = none
after_item item next (d ∷ []) = if d == b'}' then some (item ∷ []) else none
after_item item next (d ∷ e ∷ rest) =
    if d == b',' && e == b' ' then Option.map (λ items. item ∷ items) (next rest) else none

-- Reads `"…", "…"` up to a closing brace, at most as many literals as the fuel.
unfoldable pub read_items : ℕ → Text → Option (List Text)
unfolding after_item
read_items zero s = none
read_items (suc n) [] = none
read_items (suc n) (q ∷ s) =
    if q == b'"'
    then elim (read_literal s) [
      | none ↦ none
      | some (item, rest) ↦ after_item item (read_items n) rest
    ]
    else none

-- Reads a list of string literals in braces.
pub read_list : ℕ → Text → Option (List Text)
unfolding read_items
read_list n [] = none
read_list n (c ∷ s) =
    if c == b'{' then (if text_eq s (codes "}") then some [] else read_items n s) else none

read_items-quoted :
    (n : ℕ) (item rest : Text)
    → read_items (suc n) (quoted item ++ rest) ≡ after_item item (read_items n) rest
unfolding quoted read_items
read_items-quoted n item rest = rw (append_assoc, read_literal-escape item rest, read_items) refl

read_items-join :
    (n : ℕ) (item : Text) (items : List Text)
    → length items ≤ n
    → read_items (suc n) (join (b',' ∷ b' ' ∷ []) (map quoted (item ∷ items)) ++ b'}' ∷ [])
      ≡ some (item ∷ items)
unfolding join after_item
read_items-join n item [] h = rw read_items-quoted refl
read_items-join zero item (i ∷ items) h = elim h [ ]
read_items-join (suc n) item (i ∷ items) h =
    rw (append_assoc, read_items-quoted, read_items-join n i items (omega arith)) refl

join-not_brace :
    (item : Text) (items : List Text)
    → text_eq (join (b',' ∷ b' ' ∷ []) (map quoted (item ∷ items)) ++ b'}' ∷ []) (codes "}") ≡ false
unfolding join quoted
join-not_brace item [] = refl
join-not_brace item (i ∷ items) = refl

-- The list that `format_applescript_list` writes is read by AppleScript as the items themselves:
-- as many, in their order, each as it was, whatever quotes, commas and braces they hold.
pub read_list-format :
    (items : List Text) → read_list (length items) (format_applescript_list items) ≡ some items
unfolding format_applescript_list read_list
read_list-format [] = refl
read_list-format (item ∷ items) =
    rw (join-not_brace item items) (read_items-join (length items) item items (omega arith))
