-- ===== src/Imap/Commands.antt =====
-- What it is for a command that no argument holds a control character, and the checks that ensure it.
pub mod Steps
pub mod Every
pub mod Refusals
use apple_mail_fast_mcp.Base.{
  ℕ, zero, ◌≡◌, refl, sym, ap, ◌∙◌, inl, inr, Bool, true, false, not, ◌&&◌, Option, none, some,
  List, [], ◌∷◌, ◌++◌, ltb, arith, All, All-append, Bool-cases, map, length, if◌then◌else◌,
}
use apple_mail_fast_mcp.Text.{Text, codes, text_member}
use apple_mail_fast_mcp.Imap.{
  Criterion, word, group, Criteria, finish, also, Folder, Change, close_folder, delete_folder,
  rename_folder, move_uids, copy_uids, add_flags, remove_flags, uid_expunge, append_message,
  Command, list_folders, select_folder, search_for, change, ImapError, value_error,
  message_not_found, move_unsupported, trash_not_found, Reply, value, error, Client, Session, Imap,
  lift, ◌>>=◌,
}
use apple_mail_fast_mcp.Imap.Search.{
  is_control, has_control, reject_control_chars, bracketed, validate_message_ids, bracket_all,
  header_clause, or_clauses, or_of, or_message_id_criteria,
}
use apple_mail_fast_mcp.Imap.Search.Clean.{IsClean, append-IsClean}
use apple_mail_fast_mcp.Imap.Folders.{
  flagged_folder, conventional_folder, name_of, conventional_trash_names, conventional_drafts_names,
  conventional_sent_names, is_some_name, find_by_flag, find_by_convention, find_folder, append_to,
  append_draft, append_sent_copy, delete_mailbox, rename_mailbox,
}
use apple_mail_fast_mcp.Imap.Messages
use apple_mail_fast_mcp.Imap.Triples.{
  Holds, Safe, bind-Safe, pure-Safe, if-Safe, lift-Safe, suppress-Safe, open-Safe,
  capabilities-Safe, list-Safe, select-Safe, search-Safe, change-Safe, Quiet, done, failed, checked,
  step, guarded, split,
}

unfoldable mutual
  pub CriterionIsClean : Criterion → Type 0
  CriterionIsClean (word s) = IsClean s
  CriterionIsClean (group k) = CriteriaAreClean k

  pub CriteriaAreClean : Criteria → Type 0
  CriteriaAreClean finish = Unit
  CriteriaAreClean (also x k) = CriterionIsClean x × CriteriaAreClean k

abbrev pub ChangeIsClean : Change → Type 0
ChangeIsClean close_folder = Unit
ChangeIsClean (delete_folder s) = IsClean s
ChangeIsClean (rename_folder s t) = IsClean s × IsClean t
ChangeIsClean (move_uids uids s) = IsClean s
ChangeIsClean (copy_uids uids s) = IsClean s
ChangeIsClean (add_flags uids flags) = All IsClean flags
ChangeIsClean (remove_flags uids flags) = All IsClean flags
ChangeIsClean (uid_expunge uids) = Unit
ChangeIsClean (append_message s raw flags) = IsClean s × All IsClean flags

-- The bytes of a message that is appended are sent as a literal, which may hold anything.
abbrev pub CommandIsClean : Command → Type 0
CommandIsClean list_folders = Unit
CommandIsClean (select_folder s readonly) = IsClean s
CommandIsClean (search_for k) = CriteriaAreClean k
CommandIsClean (change d) = ChangeIsClean d

pub reject-IsClean : (s : Text) → Holds (λ _. IsClean s) (reject_control_chars s)
unfolding reject_control_chars
reject-IsClean s = elim (Bool-cases (has_control s)) [
  | inl bad ↦ rw bad tt
  | inr good ↦ rw good refl
]

bracketed-IsClean : (id : Text) → IsClean id → IsClean (bracketed id)
unfolding bracketed has_control is_control
bracketed-IsClean id h = ground (arith, append-IsClean id (b'>' ∷ []) h refl)

cons_bracketed-AreClean :
    (id : Text) (r : Reply (List Text))
    → Holds (All IsClean) r
    → IsClean id
    → Holds (All IsClean) (elim r [ value rest ↦ value (bracketed id ∷ rest) | error e ↦ error e ])
cons_bracketed-AreClean id (value rest) h k = (bracketed-IsClean id k, h)
cons_bracketed-AreClean id (error e) h k = tt

bracket_all-AreClean : (ids : List Text) → Holds (All IsClean) (bracket_all ids)
unfolding bracket_all
bracket_all-AreClean [] = tt
bracket_all-AreClean (id ∷ ids) = elim (Bool-cases (has_control id)) [
  | inl bad ↦ rw bad tt
  | inr good ↦
      rw good (cons_bracketed-AreClean id (bracket_all ids) (bracket_all-AreClean ids) good)
]

clause-AreClean : (id : Text) → IsClean id → CriteriaAreClean (header_clause id)
unfolding header_clause CriteriaAreClean CriterionIsClean has_control is_control
clause-AreClean id h = (refl, (refl, (h, tt)))

or_clauses-AreClean :
    (id : Text) (ids : List Text)
    → IsClean id
    → All IsClean ids
    → CriteriaAreClean (or_clauses id ids)
unfolding or_clauses CriteriaAreClean CriterionIsClean has_control is_control
or_clauses-AreClean id [] h k = clause-AreClean id h
or_clauses-AreClean id (next ∷ ids) h k =
    (refl, (clause-AreClean id h, (or_clauses-AreClean next ids k.0 k.1, tt)))

or_of-AreClean : (r : Reply (List Text)) → Holds (All IsClean) r → Holds CriteriaAreClean (or_of r)
or_of-AreClean (error e) h = tt
or_of-AreClean (value []) h = tt
or_of-AreClean (value (id ∷ ids)) h = or_clauses-AreClean id ids h.0 h.1

pub or_message_id_criteria-AreClean :
    (ids : List Text) → Holds CriteriaAreClean (or_message_id_criteria ids)
unfolding or_message_id_criteria
or_message_id_criteria-AreClean ids = or_of-AreClean (bracket_all ids) (bracket_all-AreClean ids)
