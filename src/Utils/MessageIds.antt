-- ===== src/Utils/MessageIds.antt =====
-- `parse_rfc822_ids` of utils.py: the ids of an In-Reply-To or References header.
pub mod Distinct
pub mod RoundTrip
use mathlib.Core.List.{foldl}
use apple_mail_fast_mcp.Base.{
  ℕ, Bool, true, false, not, ◌&&◌, ◌||◌, List, [], ◌∷◌, ◌++◌, ◌==◌, is_empty, if◌then◌else◌,
}
use apple_mail_fast_mcp.Text.{Text, text_member, lstrip, rstrip, strip, is_space}
use apple_mail_fast_mcp.Text.Strip.{begins_in}

-- `c` goes on with the first word of `ws` where the text behind it begins with no white space.
add_char : ℕ → Bool → List Text → List Text
add_char c goes_on [] = (c ∷ []) ∷ []
add_char c goes_on (w ∷ ws) = if goes_on then (c ∷ w) ∷ ws else (c ∷ []) ∷ w ∷ ws

-- `raw.split()`
unfoldable pub words : Text → List Text
unfolding add_char
words [] = []
words (c ∷ s) =
    let ws = words s in
    if is_space c then ws else add_char c (begins_in (λ d. not (is_space d)) s) ws

-- `tok.strip().lstrip("<").rstrip(">").strip()`
unfoldable pub clean_id : Text → Text
clean_id tok = strip (rstrip (λ c. c == b'>') (lstrip (λ c. c == b'<') (strip tok)))

-- One round of the loop.
unfoldable pub add_id : List Text → Text → List Text
add_id out tok =
    let cleaned = clean_id tok in
    if not (is_empty cleaned) && not (text_member cleaned out) then out ++ cleaned ∷ [] else out

unfoldable pub parse_rfc822_ids : Text → List Text
parse_rfc822_ids raw = foldl add_id [] (words raw)
