-- ===== src/Imap/Deletion.antt =====
-- On a server that works, permanent deletion removes exactly the messages that were asked for.
use apple_mail_fast_mcp.Base.{
  ℕ, ◌≡◌, refl, sym, ap, ◌∙◌, inl, inr, Bool, true, false, not, List, [], ◌∷◌, arith, All,
  Bool-cases, keep, length,
}
use apple_mail_fast_mcp.Text.{Text, codes, text_member}
use apple_mail_fast_mcp.Imap.{
  Command, select_folder, change, add_flags, uid_expunge, value, Client, Session,
}
use apple_mail_fast_mcp.Imap.Search.{reject_control_chars}
use apple_mail_fast_mcp.Imap.Search.Clean.{IsClean}
use apple_mail_fast_mcp.Imap.Messages.{
  uid_member, deleted_flag, has_capability, expunge_resolved, permanently_delete_messages,
}
use apple_mail_fast_mcp.Imap.Server.{
  Mail, uids_of, has_one_of, with_flags, is_expunged, each, IsServer,
}
use apple_mail_fast_mcp.Imap.Uids.{AreDistinct}
use apple_mail_fast_mcp.Imap.Uids.Matching.{batch, length-batch, batch-Agrees}
use apple_mail_fast_mcp.Imap.Resolution.{validate_clean, resolve_lem}

pub length-uids_of : (ms : List Mail) → length (uids_of ms) ≡ length ms
length-uids_of [] = refl
length-uids_of (m ∷ ms) = ground (arith, length-uids_of ms)

-- The two commands together, on a mailbox whose messages agree with a test
pub keep-each :
    (uids : List ℕ) (f : Mail → Bool) (ms : List Mail)
    → All (λ m. uid_member m.uid uids ≡ f m) ms
    → keep (λ m. not (is_expunged uids m)) (each (with_flags uids deleted_flag) ms)
      ≡ keep (λ m. not (f m)) ms
keep-each uids f [] h = refl
keep-each uids f (m ∷ ms) h = elim (Bool-cases (f m)) [
  | inl asked ↦ ground (arith, h.0, asked, keep-each uids f ms h.1)
  | inr other ↦ ground (arith, h.0, other, keep-each uids f ms h.1)
]

keep_unasked :
    (f : Mail → Bool) (ms : List Mail) → All (λ m. false ≡ f m) ms → ms ≡ keep (λ m. not (f m)) ms
keep_unasked f [] h = refl
keep_unasked f (m ∷ ms) h = ground (arith, h.0, keep_unasked f ms h.1)

module _ {W : Type 0} (c : Client W) (mailbox : Text → W → List Mail) (current : W → Text)
    (capable : List Text) (server : IsServer c mailbox current capable) where
  expunge_resolved_lem :
      (uids : List ℕ) (f : Mail → Bool) (sent : List Command) (w : W)
      → All (λ m. uid_member m.uid uids ≡ f m) (mailbox (current w) w)
      → (s : Session W) × (expunge_resolved c uids (record { sent = sent; world = w })
          ≡ (value (length uids), s))
        × (mailbox (current w) s.world ≡ keep (λ m. not (f m)) (mailbox (current w) w))
  unfolding expunge_resolved
  expunge_resolved_lem [] f sent w h = (record { sent = sent; world = w }, refl, keep_unasked f _ h)
  expunge_resolved_lem (u ∷ us) f sent w h =
      let (v, flagged, same, marked) = server.added_law (u ∷ us) deleted_flag w in
      let (x, expunged, still, gone) = server.expunged_law (u ∷ us) v in
      (
        record {
          sent = change (uid_expunge (u ∷ us)) ∷ change (add_flags (u ∷ us) deleted_flag) ∷ sent;
          world = x;
        },
        rw (flagged, expunged) refl,
        ap (λ name. mailbox name x) (sym same)
            ∙ gone
            ∙ ap (λ name. keep (λ m. not (is_expunged (u ∷ us) m)) (mailbox name v)) same
            ∙ ap (λ ms. keep (λ m. not (is_expunged (u ∷ us) m)) ms) marked
            ∙ keep-each (u ∷ us) f _ h,
      )

  -- On a server that works and has UIDPLUS, with a mailbox in which no UID stands twice, and with
  -- ids and a mailbox's name without control characters: permanent deletion returns the number of the
  -- messages that have one of the ids, and afterwards the mailbox holds exactly the others, in order
  -- and with their flags, those that another client had marked as deleted included.
  pub permanently_delete_messages-removes :
      (ids : List Text) (source : Text) (sent : List Command) (w : W)
      → All IsClean ids
      → IsClean source
      → text_member (codes "UIDPLUS") capable ≡ true
      → AreDistinct (uids_of (mailbox source w))
      → (s : Session W) × (permanently_delete_messages c ids source
            (record { sent = sent; world = w })
          ≡ (value (length (keep (has_one_of ids) (mailbox source w))), s))
        × (mailbox source s.world ≡ keep (λ m. not (has_one_of ids m)) (mailbox source w))
  unfolding permanently_delete_messages reject_control_chars has_capability
  permanently_delete_messages-removes ids source sent w h k supported distinct =
      let (v, selected, cur, same) = server.selected_law source false w in
      let (sent', resolved_to) =
        resolve_lem c mailbox current capable server ids (select_folder source false ∷ sent) v h in
      let here : mailbox (current v) v ≡ mailbox source w = ap (λ n. mailbox n v) cur ∙ same in
      let uids : List ℕ = batch ids (mailbox (current v) v) in
      let (s, deleted, left) =
        expunge_resolved_lem uids (has_one_of ids) sent' v
          (batch-Agrees ids (mailbox (current v) v) (rw here distinct)) in
      (
        s,
        rw
            (
              validate_clean ids h,
              k,
              server.opened_law w,
              selected,
              server.capabilities_law v,
              supported,
              resolved_to,
              deleted,
              length-batch ids (mailbox (current v) v) (rw here distinct),
              here,
              length-uids_of (keep (has_one_of ids) (mailbox source w)),
            )
            refl,
        ap (λ n. mailbox n s.world) (sym cur)
            ∙ left
            ∙ ap (λ ms. keep (λ m. not (has_one_of ids m)) ms) here,
      )
