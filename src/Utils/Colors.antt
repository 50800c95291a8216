-- ===== src/Utils/Colors.antt =====
-- `validate_flag_color` and `get_flag_index` of utils.py, and its tests of hosts and MIME types.
pub mod Indexes
use apple_mail_fast_mcp.Base.{
  ℕ, Bool, true, false, ◌||◌, Option, none, some, List, [], ◌∷◌, if◌then◌else◌,
}
use apple_mail_fast_mcp.Text.{
  Text, Unicode, codes, text_eq, text_member, starts_with, ends_with, lower, strip,
}
use apple_mail_fast_mcp.Security.Audit.{Count, natural, negative}

abbrev pub valid_colors : List Text
valid_colors =
    codes "none"
    ∷ codes "orange"
    ∷ codes "red"
    ∷ codes "yellow"
    ∷ codes "blue"
    ∷ codes "green"
    ∷ codes "purple"
    ∷ codes "gray"
    ∷ []

unfoldable pub validate_flag_color : Unicode → Text → Bool
validate_flag_color u color = text_member (lower u color) valid_colors

abbrev pub color_map : List (Text × Count)
color_map =
    (codes "none", negative 0)
    ∷ (codes "red", natural 0)
    ∷ (codes "orange", natural 1)
    ∷ (codes "yellow", natural 2)
    ∷ (codes "green", natural 3)
    ∷ (codes "blue", natural 4)
    ∷ (codes "purple", natural 5)
    ∷ (codes "gray", natural 6)
    ∷ []

-- `color_map[color]`
unfoldable pub find_color : Text → List (Text × Count) → Option Count
find_color color [] = none
find_color color ((name, index) ∷ entries) =
    if text_eq name color then some index else find_color color entries

-- `none` is the `ValueError`.
unfoldable pub get_flag_index : Unicode → Text → Option Count
get_flag_index u color = find_color (lower u color) color_map

unfoldable pub is_apple_hosted_address : Unicode → Text → Bool
is_apple_hosted_address u address =
    let a = lower u (strip address) in
    ends_with a (codes "@icloud.com")
    || (ends_with a (codes "@me.com") || ends_with a (codes "@mac.com"))

unfoldable pub is_icloud_imap_host : Unicode → Text → Bool
is_icloud_imap_host u host = ends_with (lower u (strip host)) (codes ".mail.me.com")

unfoldable pub is_texty_mime : Unicode → Text → Bool
is_texty_mime u mime_type =
    let m = lower u (strip mime_type) in
    if starts_with m (codes "text/")
    then true
    else if text_eq m (codes "application/json") || text_eq m (codes "application/xml")
    then true
    else ends_with m (codes "+json") || ends_with m (codes "+xml")
