-- ===== src/Imap/Resolution.antt =====
-- On a server that works, the ids of a batch resolve to the UIDs of the messages that have one.
use apple_mail_fast_mcp.Base.{
  ℕ, zero, suc, ◌≡◌, refl, ap, List, [], ◌∷◌, arith, All, keep, take, drop, length,
}
use apple_mail_fast_mcp.Text.{Text}
use apple_mail_fast_mcp.Imap.{Criteria, Command, search_for, value, Client}
use apple_mail_fast_mcp.Imap.Search.{
  bracketed, validate_message_ids, bracket_all, or_clauses, or_of, or_message_id_criteria,
}
use apple_mail_fast_mcp.Imap.Search.Clean.{IsClean}
use apple_mail_fast_mcp.Imap.Search.Meaning.{or_message_id_criteria-Means}
use apple_mail_fast_mcp.Imap.Messages.{
  search_chunk, chunks, add_new, resolve_chunks, resolve_uids_batch,
}
use apple_mail_fast_mcp.Imap.Server.{Mail, facts_of, uids_of, has_one_of, IsServer}
use apple_mail_fast_mcp.Imap.Uids.{resolved}
use apple_mail_fast_mcp.Imap.Uids.Matching.{batch}

pub validate_clean : (ids : List Text) → All IsClean ids → validate_message_ids ids ≡ value tt
unfolding validate_message_ids
validate_clean [] h = refl
validate_clean (id ∷ ids) h = ground (arith, h.0, validate_clean ids h.1)

bracketed_all : List Text → List Text
bracketed_all [] = []
bracketed_all (id ∷ ids) = bracketed id ∷ bracketed_all ids

bracket_all_clean :
    (ids : List Text) → All IsClean ids → bracket_all ids ≡ value (bracketed_all ids)
unfolding bracket_all bracketed_all
bracket_all_clean [] h = refl
bracket_all_clean (id ∷ ids) h = ground (arith, h.0, bracket_all_clean ids h.1)

-- A chunk that becomes a search program
abbrev CanSearch : List Text → Type 0
CanSearch part = (k : Criteria) × (or_message_id_criteria part ≡ value k)

cons-CanSearch : (id : Text) (ids : List Text) → All IsClean (id ∷ ids) → CanSearch (id ∷ ids)
unfolding or_message_id_criteria bracketed_all
cons-CanSearch id ids h =
    (or_clauses (bracketed id) (bracketed_all ids), ap or_of (bracket_all_clean (id ∷ ids) h))

All-take : (n : ℕ) (ids : List Text) → All IsClean ids → All IsClean (take n ids)
All-take zero ids h = tt
All-take (suc n) [] h = tt
All-take (suc n) (id ∷ ids) h = (h.0, All-take n ids h.1)

All-drop : (n : ℕ) (ids : List Text) → All IsClean ids → All IsClean (drop n ids)
All-drop zero ids h = h
All-drop (suc n) [] h = tt
All-drop (suc n) (id ∷ ids) h = All-drop n ids h.1

chunks-CanSearch : (fuel : ℕ) (ids : List Text) → All IsClean ids → All CanSearch (chunks fuel ids)
unfolding chunks
chunks-CanSearch zero ids h = tt
chunks-CanSearch (suc fuel) [] h = tt
chunks-CanSearch (suc fuel) (id ∷ ids) h = (
  cons-CanSearch id (take 49 ids) (h.0, All-take 49 ids h.1),
  chunks-CanSearch fuel (drop search_chunk (id ∷ ids)) (All-drop search_chunk (id ∷ ids) h),
)

module _ {W : Type 0} (c : Client W) (mailbox : Text → W → List Mail) (current : W → Text)
    (capable : List Text) (server : IsServer c mailbox current capable) where
  abbrev pub selected_mails : W → List Mail
  selected_mails w = mailbox (current w) w

  resolve_chunks_lem :
      (parts : List (List Text)) (uids : List ℕ) (sent : List Command) (w : W)
      → All CanSearch parts
      → (sent' : List Command) × (resolve_chunks c parts uids (record { sent = sent; world = w })
          ≡ (value (resolved (selected_mails w) parts uids), record { sent = sent'; world = w }))
  unfolding resolve_chunks resolved
  resolve_chunks_lem [] uids sent w h = (sent, refl)
  resolve_chunks_lem (part ∷ parts) uids sent w ((k, e), h) =
      let (sent', q) =
        resolve_chunks_lem parts
          (add_new uids (uids_of (keep (has_one_of part) (selected_mails w)))) (search_for k ∷ sent)
          w h in
      (
        sent',
        rw
            (
              e,
              server.found_law k (has_one_of part) w
                  (λ m. or_message_id_criteria-Means (facts_of m) part k e),
            )
            q,
      )

  -- The batch becomes the UIDs of the messages in the selected mailbox, and nothing changes.
  pub resolve_lem :
      (ids : List Text) (sent : List Command) (w : W)
      → All IsClean ids
      → (sent' : List Command) × (resolve_uids_batch c ids (record { sent = sent; world = w })
          ≡ (value (batch ids (selected_mails w)), record { sent = sent'; world = w }))
  unfolding resolve_uids_batch batch
  resolve_lem ids sent w h =
      resolve_chunks_lem (chunks (length ids) ids) [] sent w (chunks-CanSearch (length ids) ids h)
