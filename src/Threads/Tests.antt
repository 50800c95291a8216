-- ===== src/Threads/Tests.antt =====
-- The theorem on threads at a concrete mailbox.
use apple_mail_fast_mcp.Base.{◌≡◌, refl, true, false, none, some, [], ◌∷◌, if◌then◌else◌}
use apple_mail_fast_mcp.Text.{
  Text, Unicode, codes, text_eq, lower, strip, is_space, lstrip, rstrip, strip_by, text_lt,
}
use apple_mail_fast_mcp.Utils.Thread.{
  Candidate, walk_thread_graph, visit, pass, refs, reply_refs, walk_from,
}
use apple_mail_fast_mcp.Utils.Escape.{sanitize_input, truncate, replace_char}
use apple_mail_fast_mcp.Utils.Subject.{normalize_subject, strip_replies, strip_reply}
use apple_mail_fast_mcp.Threads.{
  MailApp, anchor_row, Thread, from_candidates, answer, scope_folders, get_scoped_thread,
  scope_error, distinct_names, read_anchor, inspect_anchor, inspect_subject, thread_of, sort_rows,
  is_scope_complete, accepted_rows, read_candidates, insert_row, known_ids, nonempty_ids,
  same_names, sorts_before,
}
use apple_mail_fast_mcp.Threads.Script.{
  Hits, candidate_script, read_folder, read_folders, read_message, read_messages,
}
use apple_mail_fast_mcp.Threads.Order.{IsOrderly, get_scoped_thread-IsOrderly}
use apple_mail_fast_mcp.Threads.Complete.{IsComplete, get_scoped_thread-IsComplete}

abbrev ascii : Unicode
ascii = record { lower_at = λ before c after. c ∷ [] }

abbrev question : Candidate
question = record {
  id = "1";
  rfc_message_id = "a";
  in_reply_to = none;
  references_parsed = [];
  subject = codes "Plan";
  date_sort = codes "2026-01-02";
}

abbrev reply : Candidate
reply = record {
  id = "2";
  rfc_message_id = "b";
  in_reply_to = some "a";
  references_parsed = [];
  subject = codes "Re: Plan";
  date_sort = codes "2026-01-01";
}

abbrev mail_hits : Text → Hits
mail_hits folder =
    if text_eq folder (codes "INBOX")
    then some (some question ∷ [])
    else some (some reply ∷ some question ∷ [])

abbrev mail : MailApp
mail = record {
  anchor = λ account mailbox message_id. anchor_row question;
  hits = λ account folder subject. mail_hits folder;
  candidates_raise = false;
  candidates_no_object = false;
  clock = λ n. false;
}

-- The reply has the earlier date.
abbrev found : Thread
found = record {
  thread = reply ∷ question ∷ [];
  search_mailboxes = codes "INBOX" ∷ codes "Sent" ∷ [];
  scope_complete = true;
  chronology_complete = some true;
  basis = from_candidates (record {
    rows = question ∷ reply ∷ question ∷ [];
    errors = [];
    finished = codes "INBOX" ∷ codes "Sent" ∷ [];
    hit_limit = false;
    deadline_reached = false;
    looks = 5;
  });
}

get_scoped_thread_found :
    get_scoped_thread ascii mail (codes "1") (codes "Work") (codes "INBOX") (codes "Sent" ∷ []) 100
    ≡ answer found
unfolding get_scoped_thread scope_error distinct_names read_anchor inspect_anchor inspect_subject
    thread_of sort_rows is_scope_complete accepted_rows read_candidates insert_row known_ids
    nonempty_ids same_names sorts_before candidate_script read_folder read_folders read_message
    read_messages walk_thread_graph visit pass refs reply_refs walk_from sanitize_input truncate
    replace_char normalize_subject strip_replies strip_reply lower strip is_space lstrip rstrip
    strip_by text_lt
get_scoped_thread_found = refl

get_scoped_thread-IsComplete_example :
    IsComplete ascii mail
      (codes "Work")
      (codes "1")
      (codes "INBOX")
      (scope_folders (codes "INBOX") (codes "Sent" ∷ []))
      100
      found
get_scoped_thread-IsComplete_example =
    get_scoped_thread-IsComplete ascii mail (codes "1") (codes "Work") (codes "INBOX")
      (codes "Sent" ∷ []) 100 found get_scoped_thread_found refl

get_scoped_thread-IsOrderly_example :
    IsOrderly mail (codes "Work") (codes "1") (codes "INBOX") 100 found
get_scoped_thread-IsOrderly_example =
    get_scoped_thread-IsOrderly ascii mail (codes "1") (codes "Work") (codes "INBOX")
      (codes "Sent" ∷ []) 100 found get_scoped_thread_found
