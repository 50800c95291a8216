-- ===== src/Imap/Search.antt =====
-- The guard on the arguments of IMAP commands, and the search programs.
pub mod Clean
pub mod Meaning
pub mod Evaluation
use apple_mail_fast_mcp.Base.{
  ℕ, zero, suc, ◌+◌, ◌-◌, Bool, true, false, not, ◌&&◌, ◌||◌, Option, none, some, List, [], ◌∷◌,
  ◌++◌, leb, ltb, ◌==◌, is_empty, length, take, drop, if◌then◌else◌,
}
use apple_mail_fast_mcp.Text.{Text, codes, starts_with, ends_with}
use apple_mail_fast_mcp.Imap.{
  Criterion, word, group, Criteria, finish, also, ImapError, value_error, index_error, Reply, value,
  error,
}
use apple_mail_fast_mcp.Imap.Dates.{iso_to_imap_date, iso_to_imap_before}

unfoldable pub is_control : ℕ → Bool
is_control c = ltb c 0x20 || c == 0x7f

unfoldable pub has_control : Text → Bool
has_control [] = false
has_control (c ∷ s) = if is_control c then true else has_control s

-- `_reject_control_chars`
unfoldable pub reject_control_chars : Text → Reply (Unit {0})
unfolding has_control is_control
reject_control_chars s = if has_control s then error value_error else value tt

-- `_bracket_message_id`
unfoldable pub bracketed : Text → Text
bracketed id =
    if starts_with id (codes "<") && ends_with id (codes ">") then id else b'<' ∷ id ++ b'>' ∷ []

unfoldable pub bracket_message_id : Text → Reply Text
unfolding bracketed has_control is_control
bracket_message_id id = if has_control id then error value_error else value (bracketed id)

-- `_validate_message_ids`
unfoldable pub validate_message_ids : List Text → Reply (Unit {0})
unfolding has_control is_control
validate_message_ids [] = value tt
validate_message_ids (id ∷ ids) =
    if has_control id then error value_error else validate_message_ids ids

-- The list of brackets in `_or_message_id_criteria`
unfoldable pub bracket_all : List Text → Reply (List Text)
unfolding bracketed has_control is_control
bracket_all [] = value []
bracket_all (id ∷ ids) =
    if has_control id
    then error value_error
    else elim (bracket_all ids) [ value rest ↦ value (bracketed id ∷ rest) | error e ↦ error e ]

-- `["HEADER", "Message-ID", id]`
unfoldable pub header_clause : Text → Criteria
header_clause id =
    also (word (codes "HEADER")) (also (word (codes "Message-ID")) (also (word id) finish))

-- The loop that folds the clauses into an OR to the right
unfoldable pub or_clauses : Text → List Text → Criteria
unfolding header_clause
or_clauses id [] = header_clause id
or_clauses id (next ∷ ids) =
    also (word (codes "OR"))
      (also (group (header_clause id)) (also (group (or_clauses next ids)) finish))

-- The criteria of the clauses, with the IndexError of `clauses[-1]`
abbrev pub or_of : Reply (List Text) → Reply Criteria
or_of (error e) = error e
or_of (value []) = error index_error
or_of (value (id ∷ ids)) = value (or_clauses id ids)

-- `_or_message_id_criteria`
unfoldable pub or_message_id_criteria : List Text → Reply Criteria
unfolding bracket_all
or_message_id_criteria ids = or_of (bracket_all ids)

-- The filters of `_build_search_criteria`
pub record Filters : Type 0 where
  pub sender_contains : Option Text
  pub subject_contains : Option Text
  pub read_status : Option Bool
  pub is_flagged : Option Bool
  pub date_from : Option Text
  pub date_to : Option Text
  pub body_contains : Option Text
  pub text_contains : Option Text

-- `if s: _reject_control_chars(s, ...); criteria.extend([key, s])`
unfoldable pub text_terms : Text → Option Text → Reply (List Text)
unfolding has_control is_control
text_terms key none = value []
text_terms key (some []) = value []
text_terms key (some (c ∷ s)) =
    if has_control (c ∷ s) then error value_error else value (key ∷ (c ∷ s) ∷ [])

unfoldable pub flag_terms : Text → Text → Option Bool → List Text
flag_terms key other none = []
flag_terms key other (some true) = key ∷ []
flag_terms key other (some false) = other ∷ []

unfoldable pub date_terms : Text → (Text → Reply Text) → Option Text → Reply (List Text)
date_terms key read none = value []
date_terms key read (some iso) = elim (read iso) [
  | value date ↦ value (key ∷ date ∷ [])
  | error e ↦ error e
]

-- `criteria.extend(...)`, unless one of the two raised
abbrev pub extend : Reply (List Text) → Reply (List Text) → Reply (List Text)
extend (value xs) (value ys) = value (xs ++ ys)
extend (value xs) (error e) = error e
extend (error e) ys = error e

-- `criteria or ["ALL"]`
abbrev pub or_all : Reply (List Text) → Reply (List Text)
or_all (value []) = value (codes "ALL" ∷ [])
or_all r = r

-- The criteria before the last step
unfoldable pub search_terms : Filters → Reply (List Text)
unfolding text_terms flag_terms date_terms
search_terms f = extend (text_terms (codes "FROM") f.sender_contains) (
    extend (text_terms (codes "SUBJECT") f.subject_contains) (
      extend (value (flag_terms (codes "SEEN") (codes "UNSEEN") f.read_status)) (
        extend (value (flag_terms (codes "FLAGGED") (codes "UNFLAGGED") f.is_flagged)) (
          extend (date_terms (codes "SINCE") iso_to_imap_date f.date_from) (
            extend (date_terms (codes "BEFORE") iso_to_imap_before f.date_to) (
              extend (text_terms (codes "BODY") f.body_contains)
                (text_terms (codes "TEXT") f.text_contains)))))))

-- `_build_search_criteria`
unfoldable pub build_search_criteria : Filters → Reply (List Text)
unfolding search_terms
build_search_criteria f = or_all (search_terms f)

-- `str.isascii`
abbrev pub is_ascii : Text → Bool
is_ascii [] = true
is_ascii (c ∷ s) = ltb c 128 && is_ascii s

-- `_search_charset`
unfoldable pub search_charset : List Text → Option Text
search_charset [] = none
search_charset (item ∷ criteria) =
    if not (is_ascii item) then some (codes "UTF-8") else search_charset criteria

-- `_strip_brackets`
unfoldable pub strip_brackets : Text → Text
strip_brackets s =
    if starts_with s (codes "<") && ends_with s (codes ">")
    then take (length s - 2) (drop 1 s)
    else s
