-- ===== src/Drafts/Seeds.antt =====
-- drafts.py: the seeds of drafts, one file each. A file is what reading and parsing it gives.
pub mod Store
use apple_mail_fast_mcp.Base.{
  ℕ, Bool, true, false, not, ◌&&◌, ◌||◌, Option, none, some, List, [], ◌∷◌, ◌++◌, leb, ◌==◌, all,
  length, is_empty, if◌then◌else◌,
}
use apple_mail_fast_mcp.Text.{Text, codes, text_eq, has_char}

-- The character class of `_DRAFT_ID_RE`
unfoldable pub is_draft_char : ℕ → Bool
is_draft_char c =
    (leb b'A' c && leb c b'Z')
    || (leb b'a' c && leb c b'z')
    || (leb b'0' c && leb c b'9')
    || c == b'.'
    || c == b'_'
    || c == b'@'
    || c == b'+'
    || c == b'='
    || c == b'-'

abbrev pub begins_with_dot : Text → Bool
begins_with_dot [] = false
begins_with_dot (c ∷ s) = c == b'.'

-- What the lookahead refuses
unfoldable pub has_two_dots : Text → Bool
has_two_dots [] = false
has_two_dots (c ∷ s) = (c == b'.' && begins_with_dot s) || has_two_dots s

-- `_validate_draft_id`
unfoldable pub is_draft_id : Text → Bool
unfolding is_draft_char has_two_dots
is_draft_id s =
    not (has_two_dots s) && all is_draft_char s && leb 1 (length s) && leb (length s) 255

pub data SeedKind : Type 0 where
  reply forward : SeedKind

pub record SeedRecord : Type 0 where
  pub seed_kind : SeedKind
  pub seed_id : Text
  pub reply_all : Bool

-- What a file holds: bytes that are no UTF-8, a text that is no JSON or cannot be read, JSON that is
-- no object, or an object with what `get` finds in it: two texts, and the truth of a value.
pub data Content : Type 0 where
  no_utf8 no_json no_object : Content
  object : Option Text → Option Text → Bool → Content

abbrev pub SeedFiles : Type 0
SeedFiles = List (Text × Content)

unfoldable pub seed_at : Text → SeedFiles → Option Content
seed_at path [] = none
seed_at path ((p, x) ∷ files) = if text_eq p path then some x else seed_at path files

unfoldable pub write_seed : Text → Content → SeedFiles → SeedFiles
write_seed path x [] = (path, x) ∷ []
write_seed path x ((p, y) ∷ files) =
    if text_eq p path then (path, x) ∷ files else (p, y) ∷ write_seed path x files

unfoldable pub remove_seed : Text → SeedFiles → SeedFiles
remove_seed path [] = []
remove_seed path ((p, y) ∷ files) =
    let rest = remove_seed path files in if text_eq p path then rest else (p, y) ∷ rest

-- How a method ended: it returned, raised `MailDraftInvalidIdError`, or another exception.
pub data Ending (A : Type 0) : Type 0 where
  done : A → Ending A
  invalid_id : Ending A
  crashed : Ending A

-- `_path_for`, below the root
abbrev pub seed_path : Text → Text
seed_path id = id ++ codes ".json"

abbrev pub kind_of : Option Text → Option SeedKind
kind_of none = none
kind_of (some s) =
    if text_eq s (codes "reply")
    then some reply
    else if text_eq s (codes "forward")
    then some forward
    else none

-- The checks of `get_seed` behind the parsing
abbrev pub checked_seed : Option SeedKind → Option Text → Bool → Option SeedRecord
checked_seed none seed_id reply_all = none
checked_seed (some kind) none reply_all = none
checked_seed (some kind) (some []) reply_all = none
checked_seed (some kind) (some (c ∷ s)) reply_all =
    some (record { seed_kind = kind; seed_id = c ∷ s; reply_all = reply_all })

abbrev pub read_seed : Option Content → Ending (Option SeedRecord)
read_seed none = done none
read_seed (some no_utf8) = crashed
read_seed (some no_json) = done none
read_seed (some no_object) = crashed
read_seed (some (object kind seed_id reply_all)) =
    done (checked_seed (kind_of kind) seed_id reply_all)

-- `get_seed`
unfoldable pub get_seed : Text → SeedFiles → Ending (Option SeedRecord)
unfolding is_draft_id seed_at
get_seed id files = if is_draft_id id then read_seed (seed_at (seed_path id) files) else invalid_id

-- The payload of `set_seed`, as it is read back
unfoldable pub payload : SeedKind → Text → Bool → Content
payload reply seed_id reply_all = object (some (codes "reply")) (some seed_id) reply_all
payload forward seed_id reply_all = object (some (codes "forward")) (some seed_id) false

-- `set_seed`
unfoldable pub set_seed : Text → SeedRecord → SeedFiles → Ending (Unit {0}) × SeedFiles
unfolding is_draft_id write_seed payload
set_seed id seed files =
    if is_draft_id id
    then (
      done tt,
      write_seed (seed_path id) (payload seed.seed_kind seed.seed_id seed.reply_all) files,
    )
    else (invalid_id, files)

-- `delete`
unfoldable pub delete_seed : Text → SeedFiles → Ending (Unit {0}) × SeedFiles
unfolding is_draft_id remove_seed
delete_seed id files =
    if is_draft_id id then (done tt, remove_seed (seed_path id) files) else (invalid_id, files)
