-- ===== src/Utils/Thread.antt =====
-- `walk_thread_graph` of utils.py: which candidate messages belong to a thread.
pub mod Sound
pub mod Rounds
pub mod Complete
use mathlib.Core.List.{foldl}
use apple_mail_fast_mcp.Base.{
  ℕ, zero, suc, String, Bool, true, false, Option, none, some, List, [], ◌∷◌, ◌++◌, any, member,
  str_eq, if◌then◌else◌,
}
use apple_mail_fast_mcp.Text.{Text}

-- The dict of a message, with the keys that the walk reads, and the two that `get_scoped_thread` reads
-- besides.
pub record Candidate : Type 0 where
  pub id : String
  pub rfc_message_id : String
  pub in_reply_to : Option String
  pub references_parsed : List String
  pub subject : Text
  pub date_sort : Text

-- `if cand["in_reply_to"]: refs.add(cand["in_reply_to"])`
unfoldable pub reply_refs : Option String → List String
reply_refs none = []
reply_refs (some parent) = if str_eq parent "" then [] else parent ∷ []

-- The set `refs` of one candidate.
unfoldable pub refs : Candidate → List String
refs cand = cand.rfc_message_id ∷ reply_refs cand.in_reply_to ++ cand.references_parsed

-- `bool(xs & ys)` of two sets
abbrev pub overlaps : List String → List String → Bool
overlaps xs ys = any (λ x. member x ys) xs

-- The variables of the loops; a set is the list of what was put into it.
pub record Walk : Type 0 where
  pub accepted : List Candidate
  pub accepted_ids : List String
  pub frontier : List String
  pub changed : Bool

-- The body of the inner loop.
unfoldable pub visit : Walk → Candidate → Walk
visit w cand =
    if member cand.id w.accepted_ids
    then w
    else if overlaps (refs cand) w.frontier
    then record {
      accepted = w.accepted ++ cand ∷ [];
      accepted_ids = cand.id ∷ w.accepted_ids;
      frontier = refs cand ++ w.frontier;
      changed = true;
    }
    else w

-- One round of the outer loop, before its test of `changed`.
unfoldable pub pass : List Candidate → Walk → Walk
pass candidates w = foldl visit (record w { changed = false }) candidates

-- The outer loop, with the rounds left.
unfoldable pub walk_from : ℕ → List Candidate → Walk → Walk
walk_from zero candidates w = w
walk_from (suc n) candidates w =
    let w' = pass candidates w in
    let rest = walk_from n candidates w' in if w'.changed then rest else w'

abbrev pub start : List String → Walk
start known_ids = record { accepted = []; accepted_ids = []; frontier = known_ids; changed = false }

unfoldable pub walk_thread_graph : List String → List Candidate → ℕ → List Candidate
unfolding walk_from pass
walk_thread_graph known_ids candidates max_iterations =
    (walk_from max_iterations candidates (start known_ids)).accepted
