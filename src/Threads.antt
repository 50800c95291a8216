-- ===== src/Threads.antt =====
-- `get_scoped_thread` of thread_inspection.py: the thread of a message, from named folders alone.
pub mod Script
pub mod Answers
pub mod Clean
pub mod Punctual
pub mod Complete
pub mod Order
mod Tests
use apple_mail_fast_mcp.Base.{
  ℕ, String, Bool, true, false, not, ◌&&◌, ◌||◌, Option, none, some, List, [], ◌∷◌, ◌++◌, map, leb,
  ltb, all, any, keep, length, is_empty, str_eq, if◌then◌else◌,
}
use apple_mail_fast_mcp.Text.{Text, Unicode, text_eq, text_member, text_lt}
use apple_mail_fast_mcp.Utils.Escape.{sanitize_input}
use apple_mail_fast_mcp.Utils.Subject.{normalize_subject}
use apple_mail_fast_mcp.Utils.Thread.{Candidate, reply_refs, walk_thread_graph}
use apple_mail_fast_mcp.Threads.Script.{Hits, Clock, Reading, candidate_script}

-- What reading the anchor gives: a row, JSON that is no object, or an exception.
pub data AnchorRead : Type 0 where
  anchor_row : Candidate → AnchorRead
  anchor_no_object anchor_raised : AnchorRead

-- What Mail.app holds: the read of a message in a mailbox of an account, the messages of a mailbox
-- whose subject contains a text, and whether the script on candidates raises, or gives no object.
pub record MailApp : Type 0 where
  pub anchor : Text → Text → Text → AnchorRead
  pub hits : Text → Text → Text → Hits
  pub candidates_raise : Bool
  pub candidates_no_object : Bool
  pub clock : Clock

-- `list(dict.fromkeys(names))`, with the names seen before
unfoldable pub distinct_names : List Text → List Text → List Text
distinct_names seen [] = []
distinct_names seen (f ∷ fs) =
    let rest = distinct_names seen fs in
    let fresh = f ∷ distinct_names (f ∷ seen) fs in if text_member f seen then rest else fresh

abbrev pub scope_folders : Text → List Text → List Text
scope_folders mailbox search_mailboxes = distinct_names [] (mailbox ∷ search_mailboxes)

-- The checks on the arguments, in their order.
pub data ScopeError : Type 0 where
  no_account_or_mailbox bad_limit bad_folders : ScopeError

unfoldable pub scope_error : Text → Text → List Text → ℕ → Option ScopeError
scope_error account mailbox folders limit =
    if is_empty account || is_empty mailbox
    then some no_account_or_mailbox
    else if not (leb 1 limit && leb limit 200)
    then some bad_limit
    else if ltb 8 (length folders) || any is_empty folders
    then some bad_folders
    else none

unfoldable pub nonempty_ids : List String → List String
nonempty_ids = keep (λ i. not (str_eq i ""))

-- `known_ids`
unfoldable pub known_ids : Candidate → List String
unfolding nonempty_ids
known_ids anchor =
    nonempty_ids (anchor.rfc_message_id ∷ reply_refs anchor.in_reply_to ++ anchor.references_parsed)

-- `a` has a key below that of `b`: a row without a date comes after all that have one.
unfoldable pub sorts_before : Candidate → Candidate → Bool
sorts_before a b =
    (not (is_empty a.date_sort) && is_empty b.date_sort)
    || (not (is_empty a.date_sort) && text_lt a.date_sort b.date_sort)

unfoldable pub insert_row : Candidate → List Candidate → List Candidate
insert_row r [] = r ∷ []
insert_row r (s ∷ rows) = if sorts_before s r then s ∷ insert_row r rows else r ∷ s ∷ rows

-- `thread.sort(key=...)`
unfoldable pub sort_rows : List Candidate → List Candidate
sort_rows [] = []
sort_rows (r ∷ rows) = insert_row r (sort_rows rows)

-- `walk_thread_graph(known_ids, ...)`, with the default of its last argument
unfoldable pub accepted_rows : Candidate → List Candidate → List Candidate
accepted_rows anchor candidates =
    walk_thread_graph (known_ids anchor) (keep (λ r. not (str_eq r.id anchor.id)) candidates) 100

unfoldable pub same_names : List Text → List Text → Bool
same_names xs ys = all (λ x. text_member x ys) xs && all (λ y. text_member y xs) ys

-- `scope_complete`
unfoldable pub is_scope_complete : List Text → Reading → Bool
is_scope_complete folders r =
    is_empty r.errors && not r.hit_limit && not r.deadline_reached && same_names r.finished folders

-- Why an answer has the anchor alone, or what the read of the candidates gave.
pub data Basis : Type 0 where
  no_base_subject candidates_failed : Basis
  from_candidates : Reading → Basis

-- A key that the answer lacks is `none`.
pub record Thread : Type 0 where
  pub thread : List Candidate
  pub search_mailboxes : List Text
  pub scope_complete : Bool
  pub chronology_complete : Option Bool
  pub basis : Basis

-- A call raises ValueError, TypeError or what reading the anchor raised, or it answers.
pub data Inspection : Type 0 where
  value_error : ScopeError → Inspection
  type_error anchor_failed : Inspection
  answer : Thread → Inspection

unfoldable pub anchor_only : List Text → Candidate → Basis → Thread
anchor_only folders anchor basis = record {
  thread = anchor ∷ [];
  search_mailboxes = folders;
  scope_complete = false;
  chronology_complete = none;
  basis = basis;
}

-- The answer from the candidates, which the code sorts once more.
unfoldable pub thread_of : List Text → Candidate → Reading → Thread
thread_of folders anchor r =
    let thread = anchor ∷ accepted_rows anchor r.rows in
    record {
      thread = sort_rows thread;
      search_mailboxes = folders;
      scope_complete = is_scope_complete folders r;
      chronology_complete = some (all (λ row. not (is_empty row.date_sort)) thread);
      basis = from_candidates r;
    }

module _ (u : Unicode) (mail : MailApp) where
  -- What is read of the folders, which the script has by their sanitized names.
  unfoldable pub read_candidates : Text → List Text → ℕ → Text → Reading
  read_candidates account folders limit base_subject =
      let subject_safe = sanitize_input (some base_subject) in
      candidate_script mail.clock limit (λ folder. mail.hits account folder subject_safe)
        (map (λ folder. sanitize_input (some folder)) folders)

  -- After the subject was reduced. An empty one is not searched for.
  unfoldable pub inspect_subject : Text → List Text → ℕ → Candidate → Text → Inspection
  inspect_subject account folders limit anchor base_subject =
      if is_empty base_subject
      then answer (anchor_only folders anchor no_base_subject)
      else if mail.candidates_raise
      then answer (anchor_only folders anchor candidates_failed)
      else if mail.candidates_no_object
      then type_error
      else answer (thread_of folders anchor (read_candidates account folders limit base_subject))

  -- After the anchor was read. `normalize_subject` always gives a text.
  unfoldable pub inspect_anchor : Text → List Text → ℕ → Candidate → Inspection
  inspect_anchor account folders limit anchor = elim (normalize_subject u anchor.subject) [
    | none ↦ answer (anchor_only folders anchor no_base_subject)
    | some base_subject ↦ inspect_subject account folders limit anchor base_subject
  ]

  unfoldable pub read_anchor : Text → List Text → ℕ → AnchorRead → Inspection
  read_anchor account folders limit (anchor_row row) = inspect_anchor account folders limit row
  read_anchor account folders limit anchor_no_object = type_error
  read_anchor account folders limit anchor_raised = anchor_failed

  unfoldable pub get_scoped_thread : Text → Text → Text → List Text → ℕ → Inspection
  get_scoped_thread message_id account mailbox search_mailboxes limit =
      let folders = scope_folders mailbox search_mailboxes in
      elim (scope_error account mailbox folders limit) [
        | some e ↦ value_error e
        | none ↦
            read_anchor account folders limit
              (mail.anchor account (sanitize_input (some mailbox)) message_id)
      ]
