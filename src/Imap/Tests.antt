-- ===== src/Imap/Tests.antt =====
-- The theorems on the IMAP connector at concrete inputs, on a server that keeps its mailboxes in a
-- list.
mod Structures
mod Sessions
use apple_mail_fast_mcp.Base.{
  ℕ, zero, suc, ◌≡◌, ◌<◌, refl, sym, Bool, true, false, not, ◌&&◌, ◌||◌, Option, none, some, List,
  [], ◌∷◌, ◌++◌, arith, All, any, keep, length, if◌then◌else◌,
}
use apple_mail_fast_mcp.Text.{Text, codes, text_eq, text_member, ends_with}
use apple_mail_fast_mcp.Text.Search.{text_eq_refl}
use apple_mail_fast_mcp.Imap.{
  Criteria, Folder, Change, close_folder, delete_folder, rename_folder, move_uids, copy_uids,
  add_flags, remove_flags, uid_expunge, append_message, Command, words, Reply, value, error, Client,
  Session,
}
use apple_mail_fast_mcp.Imap.Search.{
  has_control, is_control, bracketed, bracket_all, or_clauses, or_message_id_criteria, Filters,
  text_terms, flag_terms, date_terms, search_terms, build_search_criteria,
}
use apple_mail_fast_mcp.Imap.Search.Clean.{IsClean, HasCleanFilters, build_search_criteria-IsClean}
use apple_mail_fast_mcp.Imap.Folders.{
  delete_mailbox, rename_mailbox, append_draft, append_sent_copy,
}
use apple_mail_fast_mcp.Imap.Commands.{CommandIsClean}
use apple_mail_fast_mcp.Imap.Commands.Every.{methods-CommandIsClean}
use apple_mail_fast_mcp.Imap.Commands.Refusals.{
  ChangesNothing, KeepsMailbox, unsupported-ChangesNothing, delete_mailbox-KeepsMailbox,
}
use apple_mail_fast_mcp.Imap.Search.Meaning.{
  Facts, Means, or_message_id_criteria-Means, build_search_criteria-Means,
}
use apple_mail_fast_mcp.Imap.Search.Evaluation.{
  Awaits, a_key, evaluate, evaluate_one, evaluate-Means,
}
use apple_mail_fast_mcp.Imap.Messages.{
  move_messages, delete_messages, permanently_delete_messages, set_read_status, set_flagged_status,
}
use apple_mail_fast_mcp.Imap.Server.{
  Mail, facts_of, uids_of, has_one_of, with_flags, without_flags, is_expunged, each, IsServer,
}
use apple_mail_fast_mcp.Imap.Deletion.{permanently_delete_messages-removes}

-- A server with one mailbox, which every name selects
abbrev changed_mails : Change → List Mail → List Mail
changed_mails (add_flags uids flags) ms = each (with_flags uids flags) ms
changed_mails (remove_flags uids flags) ms = each (without_flags uids flags) ms
changed_mails (uid_expunge uids) ms = keep (λ m. not (is_expunged uids m)) ms
changed_mails _ ms = ms

abbrev World : Type 0
World = Text × List Mail

abbrev one_mailbox : Client World
one_mailbox = record {
  opened = λ w. (value tt, w);
  capabilities = λ w. (value (codes "UIDPLUS" ∷ []), w);
  folders = λ w. (value [], w);
  selected = λ name readonly w. (value (length w.1), (name, w.1));
  found = λ k w. (value (uids_of (keep (λ m. evaluate (facts_of m) a_key k) w.1)), w);
  changed = λ d w. (value tt, (w.0, changed_mails d w.1));
}

keep_same : (f g : Mail → Bool) (ms : List Mail) → ((m : Mail) → f m ≡ g m) → keep f ms ≡ keep g ms
keep_same f g [] e = refl
keep_same f g (m ∷ ms) e = ground (arith, e m, keep_same f g ms e)

abbrev one_mailbox-IsServer : IsServer one_mailbox (λ name w. w.1) (λ w. w.0) (codes "UIDPLUS" ∷ [])
one_mailbox-IsServer = record {
  opened_law = λ w. refl;
  capabilities_law = λ w. refl;
  found_law = λ k f w h.
      rw
        (keep_same (λ m. evaluate (facts_of m) a_key k) f w.1
          (λ m. evaluate-Means (facts_of m) k (f m) (h m)))
        refl;
  selected_law = λ name readonly w. ((name, w.1), refl, refl, refl);
  added_law = λ uids flags w. ((w.0, each (with_flags uids flags) w.1), refl, refl, refl);
  removed_law = λ uids flags w. ((w.0, each (without_flags uids flags) w.1), refl, refl, refl);
  expunged_law = λ uids w. ((w.0, keep (λ m. not (is_expunged uids m)) w.1), refl, refl, refl);
}

-- A message with one header, and no text
abbrev mail : ℕ → Text → List Text → Mail
mail n id flags = record {
  uid = n;
  flags = flags;
  has_text = λ key s. false;
  has_header = λ name s. text_eq s id;
}

abbrev mails : List Mail
mails = mail 4 (codes "<a@x>") [] ∷ mail 9 (codes "<b@x>") (codes "\\Deleted" ∷ []) ∷ []

permanently_delete_messages-removes_example :
    (s : Session World) × (permanently_delete_messages one_mailbox
        (codes "a@x" ∷ [])
        (codes "Junk")
        (record { sent = []; world = (codes "INBOX", mails) })
      ≡ (value (length (keep (has_one_of (codes "a@x" ∷ [])) mails)), s))
    × (s.world.1 ≡ keep (λ m. not (has_one_of (codes "a@x" ∷ []) m)) mails)
unfolding has_control is_control
permanently_delete_messages-removes_example =
    permanently_delete_messages-removes one_mailbox (λ name w. w.1) (λ w. w.0)
      (codes "UIDPLUS" ∷ []) one_mailbox-IsServer (codes "a@x" ∷ []) (codes "Junk") []
      (codes "INBOX", mails) (refl, tt) refl refl (refl, (refl, tt))

abbrev filters : Filters
filters = record {
  sender_contains = some (codes "ann");
  subject_contains = none;
  read_status = some false;
  is_flagged = none;
  date_from = none;
  date_to = none;
  body_contains = some [];
  text_contains = none;
}

abbrev terms : List Text
terms = codes "FROM" ∷ codes "ann" ∷ codes "UNSEEN" ∷ []

build_search_criteria-IsClean_example : All IsClean terms × HasCleanFilters filters
unfolding build_search_criteria search_terms text_terms flag_terms date_terms has_control is_control
build_search_criteria-IsClean_example = build_search_criteria-IsClean filters terms refl

abbrev from_ann : Facts
from_ann = record {
  has_text = λ key s. text_eq key (codes "FROM");
  has_header = λ name s. true;
  is_seen = false;
  is_flagged = true;
}

build_search_criteria-Means_example : Means from_ann (words terms) true
unfolding build_search_criteria search_terms text_terms flag_terms date_terms has_control is_control
build_search_criteria-Means_example = build_search_criteria-Means from_ann filters terms refl

or_message_id_criteria-Means_example :
    Means from_ann (or_clauses (codes "<a>") (codes "<b>" ∷ [])) true
unfolding or_message_id_criteria bracket_all bracketed has_control is_control ends_with
or_message_id_criteria-Means_example =
    or_message_id_criteria-Means from_ann (codes "a" ∷ codes "<b>" ∷ []) _ refl

abbrev start : Session World
start = record { sent = []; world = (codes "INBOX", mails) }

methods-CommandIsClean_example :
    All CommandIsClean
      (move_messages one_mailbox (codes "a@x" ∷ []) (codes "A") (codes "B\nC") start).1.sent
    × All CommandIsClean (delete_messages one_mailbox (codes "a@x" ∷ []) (codes "A") start).1.sent
    × All CommandIsClean
        (permanently_delete_messages one_mailbox (codes "a@x" ∷ []) (codes "A") start).1.sent
    × All CommandIsClean
        (set_read_status one_mailbox (codes "a@x" ∷ []) (codes "A") true start).1.sent
    × All CommandIsClean
        (set_flagged_status one_mailbox (codes "a@x" ∷ []) (codes "A") true start).1.sent
    × All CommandIsClean (delete_mailbox one_mailbox (codes "A") true start).1.sent
    × All CommandIsClean (rename_mailbox one_mailbox (codes "A") (codes "B\nC") start).1.sent
    × All CommandIsClean (append_draft one_mailbox [] start).1.sent
    × All CommandIsClean (append_sent_copy one_mailbox [] true start).1.sent
methods-CommandIsClean_example =
    methods-CommandIsClean one_mailbox (λ w. tt) (codes "a@x" ∷ []) (codes "A") (codes "B\nC") []
      true start tt

-- The same server without capabilities
abbrev plain : Client World
plain = record one_mailbox { capabilities = λ w. (value [], w) }

unsupported-ChangesNothing_example :
    All ChangesNothing (move_messages plain (codes "a@x" ∷ []) (codes "A") (codes "B") start).1.sent
    × All ChangesNothing (delete_messages plain (codes "a@x" ∷ []) (codes "A") start).1.sent
    × All ChangesNothing
        (permanently_delete_messages plain (codes "a@x" ∷ []) (codes "A") start).1.sent
unsupported-ChangesNothing_example =
    unsupported-ChangesNothing plain (λ w. refl) (λ w. refl) (codes "a@x" ∷ []) (codes "A")
      (codes "B") start tt

-- The same server, which says that every mailbox has three messages
abbrev full : Client World
full = record one_mailbox { selected = λ name readonly w. (value 3, w) }

delete_mailbox-KeepsMailbox_example :
    All KeepsMailbox (delete_mailbox full (codes "A") false start).1.sent
delete_mailbox-KeepsMailbox_example =
    delete_mailbox-KeepsMailbox full (codes "A") start (λ w. omega arith) tt
