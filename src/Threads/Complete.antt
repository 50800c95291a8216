-- ===== src/Threads/Complete.antt =====
-- An answer whose scope is complete has what an unbounded read of the folders would give.
use apple_mail_fast_mcp.Base.{
  ℕ, ◌≤◌, ◌<◌, ◌+◌, ◌≡◌, refl, ap, ◌∙◌, sym, true, false, some, List, [], ◌∷◌, map, arith, length,
}
use apple_mail_fast_mcp.Text.{Text, Unicode}
use apple_mail_fast_mcp.Utils.Escape.{sanitize_input}
use apple_mail_fast_mcp.Utils.Subject.{normalize_subject}
use apple_mail_fast_mcp.Utils.Thread.{Candidate}
use apple_mail_fast_mcp.Threads.{
  MailApp, anchor_row, Thread, answer, anchor_only, thread_of, scope_folders, accepted_rows,
  sort_rows, is_scope_complete, read_candidates, get_scoped_thread,
}
use apple_mail_fast_mcp.Threads.Answers.{get_scoped_thread-answers}
use apple_mail_fast_mcp.Threads.Clean.{clean, gather, read_folders-clean}
use apple_mail_fast_mcp.Threads.Order.{candidate_script_bound}
use apple_mail_fast_mcp.Threads.Punctual.{read_folders-IsPunctual}
use apple_mail_fast_mcp.Threads.Script.{candidate_script}

-- What an answer with a complete scope comes from: an anchor, its base subject, and rows that are all
-- the messages with that subject in all the folders.
pub record IsComplete (u : Unicode) (mail : MailApp) (account message_id mailbox : Text)
    (folders : List Text) (limit : ℕ) (t : Thread) : Type 0 where
  pub anchor : Candidate
  pub reads_anchor :
      mail.anchor account (sanitize_input (some mailbox)) message_id ≡ anchor_row anchor
  pub base_subject : Text
  pub has_subject : normalize_subject u anchor.subject ≡ some base_subject
  pub rows : List Candidate
  pub reads_all :
      gather
        (λ f. mail.hits account f (sanitize_input (some base_subject)))
        (map (λ f. sanitize_input (some f)) folders)
      ≡ some (map some rows)
  pub within_limit : length rows ≤ limit
  -- The clock was looked at for each folder and each message.
  pub in_time : (n : ℕ) → n < length folders + length rows → mail.clock n ≡ false
  pub lists : t.thread ≡ sort_rows (anchor ∷ accepted_rows anchor rows)

scope_complete-reads_all :
    (u : Unicode) (mail : MailApp) (account base : Text) (folders : List Text) (limit : ℕ)
    → is_scope_complete folders (read_candidates u mail account folders limit base) ≡ true
    → gather
        (λ f. mail.hits account f (sanitize_input (some base)))
        (map (λ f. sanitize_input (some f)) folders)
      ≡ some (map some (read_candidates u mail account folders limit base).rows)
unfolding is_scope_complete read_candidates candidate_script
scope_complete-reads_all u mail account base folders limit c =
    let r = read_candidates u mail account folders limit base in
    let ok : clean r ≡ true = ground arith in
    let (ms, all, before, rows) =
      read_folders-clean mail.clock limit (λ f. mail.hits account f (sanitize_input (some base)))
        (map (λ f. sanitize_input (some f)) folders) _ ok in
    all ∙ ap some (sym rows)

length-names : (f : Text → Text) (names : List Text) → length (map f names) ≡ length names
length-names f [] = refl
length-names f (n ∷ names) = let rest = length-names f names in omega arith

scope_complete-in_time :
    (u : Unicode) (mail : MailApp) (account base : Text) (folders : List Text) (limit : ℕ)
    → is_scope_complete folders (read_candidates u mail account folders limit base) ≡ true
    → (n : ℕ) → n < length folders + length (read_candidates u mail account folders limit base).rows
    → mail.clock n ≡ false
unfolding is_scope_complete read_candidates candidate_script
scope_complete-in_time u mail account base folders limit c n small =
    let r = read_candidates u mail account folders limit base in
    let ok : clean r ≡ true = ground arith in
    let times =
      read_folders-IsPunctual mail.clock limit
        (λ f. mail.hits account f (sanitize_input (some base)))
        (map (λ f. sanitize_input (some f)) folders) _ ok in
    let names = length-names (λ f. sanitize_input (some f)) folders in
    let count = times.looks_count in times.in_time n (omega arith) (omega arith)

scope_complete-within_limit :
    (u : Unicode) (mail : MailApp) (account base : Text) (folders : List Text) (limit : ℕ)
    → length (read_candidates u mail account folders limit base).rows ≤ limit
unfolding read_candidates
scope_complete-within_limit u mail account base folders limit =
    candidate_script_bound mail.clock limit (λ f. mail.hits account f (sanitize_input (some base)))
      (map (λ f. sanitize_input (some f)) folders)

-- Where an answer says that its scope is complete, every folder could be searched, every message found
-- there was read, they are at most `limit`, and at none of the looks at the clock, one for each folder
-- and each message, was the deadline past. The thread is the anchor with those that the walk accepts of
-- all the messages that any of the folders has under the base subject, sorted.
pub get_scoped_thread-IsComplete :
    (u : Unicode) (mail : MailApp) (message_id account mailbox : Text)
    (search_mailboxes : List Text) (limit : ℕ) (t : Thread)
    → get_scoped_thread u mail message_id account mailbox search_mailboxes limit ≡ answer t
    → t.scope_complete ≡ true
    → IsComplete u mail account message_id mailbox (scope_folders mailbox search_mailboxes) limit t
unfolding anchor_only thread_of is_scope_complete
get_scoped_thread-IsComplete u mail message_id account mailbox search_mailboxes limit t h c =
    let folders = scope_folders mailbox search_mailboxes in
    get_scoped_thread-answers u mail message_id account mailbox search_mailboxes limit
      (λ x. x.scope_complete ≡ true → IsComplete u mail account message_id mailbox folders limit x)
      t (λ p a e. ((λ c'. cc), (λ c'. cc)))
      (λ p a base e n c'. record {
        anchor = a;
        reads_anchor = e;
        base_subject = base;
        has_subject = n;
        rows = (read_candidates u mail account folders limit base).rows;
        reads_all = scope_complete-reads_all u mail account base folders limit c';
        within_limit = scope_complete-within_limit u mail account base folders limit;
        in_time = scope_complete-in_time u mail account base folders limit c';
        lists = refl;
      })
      h c
