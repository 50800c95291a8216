-- ===== src/Threads/Script.antt =====
-- The script of `get_scoped_thread` that reads the candidates, folder by folder, in Mail.app.
use apple_mail_fast_mcp.Base.{
  ℕ, suc, Bool, true, false, ◌||◌, Option, none, some, List, [], ◌∷◌, ◌++◌, leb, length,
  if◌then◌else◌,
}
use apple_mail_fast_mcp.Text.{Text}
use apple_mail_fast_mcp.Utils.Thread.{Candidate}

-- The messages of a mailbox whose subject contains the text, each as the dict that `_enrich_row`
-- returns. One that cannot be read is `none`; so
-- is the list, where the mailbox cannot be resolved or searched.
abbrev pub Hits : Type 0
Hits = Option (List (Option Candidate))

-- Whether more than 18 seconds have passed when the script looks the n-th time.
abbrev pub Clock : Type 0
Clock = ℕ → Bool

-- The variables of the script, and how often it has looked at the clock. An error is the name of its
-- mailbox.
pub record Reading : Type 0 where
  pub rows : List Candidate
  pub errors : List Text
  pub finished : List Text
  pub hit_limit : Bool
  pub deadline_reached : Bool
  pub looks : ℕ

abbrev pub stopped : Reading → Bool
stopped r = r.hit_limit || r.deadline_reached

-- `set end of candidateRows to ...`, and its handler
unfoldable pub read_message : Text → Option Candidate → Reading → Reading
read_message folder none r = record r { errors = r.errors ++ folder ∷ [] }
read_message folder (some row) r = record r { rows = r.rows ++ row ∷ [] }

-- `if not hitLimit and not deadlineReached then set end of finishedMailboxes to ...`
abbrev pub finish_folder : Text → Reading → Reading
finish_folder folder r = if stopped r then r else record r { finished = r.finished ++ folder ∷ [] }

module _ (late : Clock) (limit : ℕ) where
  -- The inner loop.
  unfoldable pub read_messages : Text → List (Option Candidate) → Reading → Reading
  unfolding read_message
  read_messages folder [] r = r
  read_messages folder (m ∷ ms) r =
      let seen = record r { looks = suc r.looks } in
      let rest = read_messages folder ms (read_message folder m seen) in
      if late r.looks
      then record seen { deadline_reached = true }
      else if leb limit (length r.rows)
      then record seen { hit_limit = true }
      else rest

  -- The body of the outer loop, with its handler.
  unfoldable pub read_folder : Text → Hits → Reading → Reading
  unfolding read_messages
  read_folder folder none r = record r { errors = r.errors ++ folder ∷ [] }
  read_folder folder (some ms) r = finish_folder folder (read_messages folder ms r)

  unfoldable pub read_folders : (Text → Hits) → List Text → Reading → Reading
  unfolding read_folder
  read_folders hits [] r = r
  read_folders hits (f ∷ fs) r =
      let seen = record r { looks = suc r.looks } in
      let after = read_folder f (hits f) seen in
      let rest = read_folders hits fs after in
      if late r.looks
      then record seen { deadline_reached = true }
      else if stopped after
      then after
      else rest

  unfoldable pub candidate_script : (Text → Hits) → List Text → Reading
  unfolding read_folders
  candidate_script hits folders = read_folders hits folders (record {
    rows = [];
    errors = [];
    finished = [];
    hit_limit = false;
    deadline_reached = false;
    looks = 0;
  })
