-- ===== src/Threads/Order.antt =====
-- How an answer of `get_scoped_thread` is ordered, and how much it takes to read it.
use apple_mail_fast_mcp.Base.{
  ℕ, suc, ◌≤◌, ◌≡◌, refl, ◌⊎◌, inl, inr, Bool, true, false, Option, none, some, List, [], ◌∷◌,
  arith, leb, length, length-append, Bool-cases, if◌then◌else◌,
}
use apple_mail_fast_mcp.Text.{Text, Unicode}
use apple_mail_fast_mcp.Text.Search.{text_lt-asym}
use apple_mail_fast_mcp.Utils.Escape.{sanitize_input}
use apple_mail_fast_mcp.Utils.Thread.{Candidate}
use apple_mail_fast_mcp.Threads.{
  MailApp, anchor_row, Thread, Basis, from_candidates, no_base_subject, candidates_failed, answer,
  scope_folders, scope_error, sorts_before, insert_row, sort_rows, anchor_only, thread_of,
  read_candidates, get_scoped_thread,
}
use apple_mail_fast_mcp.Threads.Answers.{get_scoped_thread-answers}
use apple_mail_fast_mcp.Threads.Script.{
  Hits, Clock, Reading, stopped, finish_folder, read_message, read_messages, read_folder,
  read_folders, candidate_script,
}

-- No row has a date below the date of the row in front of it, and none follows one without a date.
abbrev pub IsChronological : List Candidate → Type 0
IsChronological [] = Unit
IsChronological (a ∷ []) = Unit
IsChronological (a ∷ b ∷ rows) = (sorts_before b a ≡ false) × IsChronological (b ∷ rows)

sorts_before-asym : (a b : Candidate) → sorts_before a b ≡ true → sorts_before b a ≡ false
unfolding sorts_before
sorts_before-asym a b h = ground (arith, text_lt-asym a.date_sort b.date_sort)

insert_row-IsChronological :
    (a : Candidate) (rows : List Candidate)
    → IsChronological rows
    → IsChronological (insert_row a rows)
unfolding insert_row
insert_row-IsChronological a [] r = tt
insert_row-IsChronological a (b ∷ []) r = elim (Bool-cases (sorts_before b a)) [
  | inl p ↦ rw p (sorts_before-asym b a p, tt)
  | inr p ↦ rw p (p, tt)
]
insert_row-IsChronological a (b ∷ c ∷ rows) r =
    let rest = insert_row-IsChronological a (c ∷ rows) r.1 in
    elim (Bool-cases (sorts_before b a)) [
      | inr p ↦ rw p (p, r)
      | inl p ↦ rw p (elim (Bool-cases (sorts_before c a)) [
        | inl q ↦ rw q (r.0, rw q at rest)
        | inr q ↦ rw q (sorts_before-asym b a p, rw q at rest)
      ])
    ]

sort_rows-IsChronological : (rows : List Candidate) → IsChronological (sort_rows rows)
unfolding sort_rows
sort_rows-IsChronological [] = tt
sort_rows-IsChronological (a ∷ rows) =
    insert_row-IsChronological a (sort_rows rows) (sort_rows-IsChronological rows)

abbrev pub Among : Candidate → List Candidate → Type 0
Among a [] = ⊥
Among a (b ∷ rows) = (a ≡ b) ⊎ Among a rows

insert_row-Among : (a : Candidate) (rows : List Candidate) → Among a (insert_row a rows)
unfolding insert_row
insert_row-Among a [] = inl refl
insert_row-Among a (b ∷ rows) = elim (Bool-cases (sorts_before b a)) [
  | inl p ↦ rw p (inr (insert_row-Among a rows))
  | inr p ↦ rw p (inl refl)
]

exits_bound :
    (limit : ℕ) (p q : Bool) (a b x : Reading)
    → length a.rows ≤ limit
    → length b.rows ≤ limit
    → (q ≡ false → length x.rows ≤ limit)
    → length (if p then a else if q then b else x).rows ≤ limit
exits_bound limit true q a b x ha hb hx = ha
exits_bound limit false true a b x ha hb hx = hb
exits_bound limit false false a b x ha hb hx = hx refl

read_message_bound :
    (limit : ℕ) (folder : Text) (m : Option Candidate) (r : Reading)
    → suc (length r.rows) ≤ limit
    → length (read_message folder m r).rows ≤ limit
unfolding read_message
read_message_bound limit folder none r h = omega arith
read_message_bound limit folder (some row) r h =
    let both = length-append r.rows (row ∷ []) in omega arith

finish_folder_bound :
    (limit : ℕ) (folder : Text) (r : Reading)
    → length r.rows ≤ limit
    → length (finish_folder folder r).rows ≤ limit
finish_folder_bound limit folder r h = ground arith

module _ (late : Clock) (limit : ℕ) where
  read_messages_bound :
      (folder : Text) (ms : List (Option Candidate)) (r : Reading)
      → length r.rows ≤ limit
      → length (read_messages late limit folder ms r).rows ≤ limit
  unfolding read_messages
  read_messages_bound folder [] r h = h
  read_messages_bound folder (m ∷ ms) r h =
      let seen = record r { looks = suc r.looks } in
      exits_bound limit (late r.looks) (leb limit (length r.rows)) _ _ _ h h (λ q.
        read_messages_bound folder ms (read_message folder m seen)
          (read_message_bound limit folder m seen (ground arith)))

  read_folder_bound :
      (folder : Text) (found : Hits) (r : Reading)
      → length r.rows ≤ limit
      → length (read_folder late limit folder found r).rows ≤ limit
  unfolding read_folder
  read_folder_bound folder none r h = h
  read_folder_bound folder (some ms) r h =
      finish_folder_bound limit folder (read_messages late limit folder ms r)
        (read_messages_bound folder ms r h)

  read_folders_bound :
      (hits : Text → Hits) (fs : List Text) (r : Reading)
      → length r.rows ≤ limit
      → length (read_folders late limit hits fs r).rows ≤ limit
  unfolding read_folders
  read_folders_bound hits [] r h = h
  read_folders_bound hits (f ∷ fs) r h =
      let seen = record r { looks = suc r.looks } in
      let after = read_folder late limit f (hits f) seen in
      let ok = read_folder_bound f (hits f) seen h in
      exits_bound limit (late r.looks) (stopped after) _ after _ h ok
        (λ _. read_folders_bound hits fs after ok)

  pub candidate_script_bound :
      (hits : Text → Hits) (fs : List Text)
      → length (candidate_script late limit hits fs).rows ≤ limit
  unfolding candidate_script
  candidate_script_bound hits fs =
      read_folders_bound hits fs
        (record {
          rows = [];
          errors = [];
          finished = [];
          hit_limit = false;
          deadline_reached = false;
          looks = 0;
        })
        (omega arith)

-- The rows that the script gave, where it was run.
abbrev pub rows_read : Basis → List Candidate
rows_read no_base_subject = []
rows_read candidates_failed = []
rows_read (from_candidates r) = r.rows

-- In order, with a message that Mail gives as the anchor, and read within bounds.
pub record IsOrderly (mail : MailApp) (account message_id mailbox : Text) (limit : ℕ) (t : Thread)
    : Type 0 where
  pub is_chronological : IsChronological t.thread
  pub anchor : Candidate
  pub reads_anchor :
      mail.anchor account (sanitize_input (some mailbox)) message_id ≡ anchor_row anchor
  pub has_anchor : Among anchor t.thread
  pub reads_few : length (rows_read t.basis) ≤ limit
  pub limit_bound : limit ≤ 200
  pub folders_bound : length t.search_mailboxes ≤ 8

scope_error-none :
    (account mailbox : Text) (folders : List Text) (limit : ℕ)
    → scope_error account mailbox folders limit ≡ none
    → (limit ≤ 200) × (length folders ≤ 8)
unfolding scope_error
scope_error-none account mailbox folders limit h = ground arith

anchor_only-IsOrderly :
    (mail : MailApp) (account message_id mailbox : Text) (folders : List Text) (limit : ℕ)
    (a : Candidate)
    → mail.anchor account (sanitize_input (some mailbox)) message_id ≡ anchor_row a
    → (limit ≤ 200) × (length folders ≤ 8)
    → (basis : Basis) → rows_read basis ≡ []
    → IsOrderly mail account message_id mailbox limit (anchor_only folders a basis)
unfolding anchor_only
anchor_only-IsOrderly mail account message_id mailbox folders limit a e few basis none_read =
    record {
      is_chronological = tt;
      anchor = a;
      reads_anchor = e;
      has_anchor = inl refl;
      reads_few = rw none_read (omega arith);
      limit_bound = few.0;
      folders_bound = few.1;
    }

-- Every answer lists its messages by date, those without one last, with the anchor that Mail gave
-- among them. It has read at most `limit` candidates, the limit is at most 200, and the folders are at
-- most eight.
pub get_scoped_thread-IsOrderly :
    (u : Unicode) (mail : MailApp) (message_id account mailbox : Text)
    (search_mailboxes : List Text) (limit : ℕ) (t : Thread)
    → get_scoped_thread u mail message_id account mailbox search_mailboxes limit ≡ answer t
    → IsOrderly mail account message_id mailbox limit t
unfolding thread_of sort_rows read_candidates
get_scoped_thread-IsOrderly u mail message_id account mailbox search_mailboxes limit t h =
    let folders = scope_folders mailbox search_mailboxes in
    get_scoped_thread-answers u mail message_id account mailbox search_mailboxes limit
      (IsOrderly mail account message_id mailbox limit) t
      (λ p a e.
        let few = scope_error-none account mailbox folders limit p in
        let alone = anchor_only-IsOrderly mail account message_id mailbox folders limit a e few in
        (alone no_base_subject refl, alone candidates_failed refl))
      (λ p a base e n.
        let few = scope_error-none account mailbox folders limit p in
        record {
          is_chronological = sort_rows-IsChronological (a ∷ _);
          anchor = a;
          reads_anchor = e;
          has_anchor = insert_row-Among a _;
          reads_few = candidate_script_bound mail.clock limit _ _;
          limit_bound = few.0;
          folders_bound = few.1;
        })
      h
