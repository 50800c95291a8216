-- ===== src/Imap/Commands/Refusals.antt =====
-- What is not sent where the server lacks a capability, or where a mailbox is not empty.
use apple_mail_fast_mcp.Base.{ℕ, ◌≡◌, ◌<◌, refl, ap, true, false, not, ◌&&◌, List, ltb, All, lt→ltb}
use apple_mail_fast_mcp.Text.{Text, codes, text_member}
use apple_mail_fast_mcp.Imap.{
  close_folder, delete_folder, rename_folder, move_uids, copy_uids, add_flags, remove_flags,
  uid_expunge, append_message, Command, list_folders, select_folder, search_for, change,
  value_error, move_unsupported, Client, Session,
}
use apple_mail_fast_mcp.Imap.Search.{reject_control_chars, validate_message_ids}
use apple_mail_fast_mcp.Imap.Folders.{delete_mailbox}
use apple_mail_fast_mcp.Imap.Messages.{
  has_capability, move_messages, delete_messages, permanently_delete_messages,
}
use apple_mail_fast_mcp.Imap.Triples.{
  Holds, Safe, bind-Safe, pure-Safe, suppress-Safe, open-Safe, select-Safe, change-Safe,
  capabilities_giving, select_giving, Quiet, failed, checked, step, guarded, taken,
}

-- A command that changes nothing on the server
abbrev pub ChangesNothing : Command → Type 0
ChangesNothing list_folders = Unit
ChangesNothing (select_folder s readonly) = Unit
ChangesNothing (search_for k) = Unit
ChangesNothing (change d) = ⊥

-- A command that removes no mailbox
abbrev pub KeepsMailbox : Command → Type 0
KeepsMailbox list_folders = Unit
KeepsMailbox (select_folder s readonly) = Unit
KeepsMailbox (search_for k) = Unit
KeepsMailbox (change close_folder) = Unit
KeepsMailbox (change (delete_folder s)) = ⊥
KeepsMailbox (change (rename_folder s t)) = ⊥
KeepsMailbox (change (move_uids uids s)) = Unit
KeepsMailbox (change (copy_uids uids s)) = Unit
KeepsMailbox (change (add_flags uids flags)) = Unit
KeepsMailbox (change (remove_flags uids flags)) = Unit
KeepsMailbox (change (uid_expunge uids)) = Unit
KeepsMailbox (change (append_message s raw flags)) = Unit

-- The server never says that it has the capability.
abbrev pub Lacks : {W : Type 0} → Client W → Text → Type 0
Lacks {W} c name = (w : W) → Holds (λ names. text_member name names ≡ false) (c.capabilities w).0

module _ {W : Type 0} (c : Client W) where
  lacking-Safe :
      (name : Text) → Lacks c name → Safe ChangesNothing (λ b. b ≡ false) (has_capability c name)
  unfolding has_capability
  lacking-Safe name h =
      bind-Safe _ (λ names. text_member name names ≡ false) _ _ _ (capabilities_giving _ c _ h)
        (λ names e. pure-Safe _ (λ b. b ≡ false) (text_member name names) e)

  module _ (no_uidplus : Lacks c (codes "UIDPLUS")) where
    permanently_delete_messages-ChangesNothing :
        (ids : List Text) (source : Text)
        → Quiet ChangesNothing (permanently_delete_messages c ids source)
    unfolding permanently_delete_messages
    permanently_delete_messages-ChangesNothing ids source =
        step _ _ _ (checked _ (validate_message_ids ids)) (λ _.
          step _ _ _ (checked _ (reject_control_chars source)) (λ _.
            step _ _ _ (open-Safe _ c) (λ _. step _ _ _ (select-Safe _ c source false tt) (λ _.
              guarded _ (λ b. b ≡ false) _ _ (lacking-Safe _ no_uidplus)
                (λ b e. taken _ (not b) _ _ (ap not e) (failed _ ℕ move_unsupported))))))

    module _ (no_move : Lacks c (codes "MOVE")) where
      move_messages-ChangesNothing :
          (ids : List Text) (source destination : Text)
          → Quiet ChangesNothing (move_messages c ids source destination)
      unfolding move_messages
      move_messages-ChangesNothing ids source destination =
          step _ _ _ (checked _ (validate_message_ids ids)) (λ _.
            step _ _ _ (checked _ (reject_control_chars source)) (λ _.
              step _ _ _ (checked _ (reject_control_chars destination)) (λ _.
                step _ _ _ (open-Safe _ c) (λ _. step _ _ _ (select-Safe _ c source false tt) (λ _.
                  guarded _ (λ b. b ≡ false) _ _ (lacking-Safe _ no_move)
                    (λ b e.
                      guarded _ (λ d. d ≡ false) _ _ (lacking-Safe _ no_uidplus)
                        (λ d f.
                          taken _ (not b && not d) _ _ (rw (e, f) refl)
                            (failed _ ℕ move_unsupported))))))))

      delete_messages-ChangesNothing :
          (ids : List Text) (source : Text) → Quiet ChangesNothing (delete_messages c ids source)
      unfolding delete_messages
      delete_messages-ChangesNothing ids source =
          step _ _ _ (checked _ (validate_message_ids ids)) (λ _.
            step _ _ _ (checked _ (reject_control_chars source)) (λ _.
              step _ _ _ (open-Safe _ c) (λ _.
                guarded _ (λ b. b ≡ false) _ _ (lacking-Safe _ no_move)
                  (λ b e.
                    guarded _ (λ d. d ≡ false) _ _ (lacking-Safe _ no_uidplus)
                      (λ d f.
                        taken _ (not b && not d) _ _ (rw (e, f) refl)
                          (failed _ ℕ move_unsupported))))))

      -- On a server that advertises neither MOVE nor UIDPLUS, the methods that move, delete and
      -- permanently delete messages send no command that changes anything, whatever the server
      -- answers and however the call ends.
      pub unsupported-ChangesNothing :
          (ids : List Text) (source destination : Text) (s : Session W)
          → All ChangesNothing s.sent
          → All ChangesNothing (move_messages c ids source destination s).1.sent
            × All ChangesNothing (delete_messages c ids source s).1.sent
            × All ChangesNothing (permanently_delete_messages c ids source s).1.sent
      unsupported-ChangesNothing ids source destination s inv = (
        (move_messages-ChangesNothing ids source destination s inv).0,
        (delete_messages-ChangesNothing ids source s inv).0,
        (permanently_delete_messages-ChangesNothing ids source s inv).0,
      )

  refused-KeepsMailbox :
      (name : Text)
      → ((w : W) → Holds (λ n. 0 < n) (c.selected name true w).0)
      → Quiet KeepsMailbox (delete_mailbox c name false)
  unfolding delete_mailbox
  refused-KeepsMailbox name h = step _ _ _ (checked _ (reject_control_chars name)) (λ _.
      step _ _ _ (open-Safe _ c) (λ _.
        guarded _ (λ n. 0 < n) _ _ (select_giving _ c (λ n. 0 < n) name true tt h)
          (λ count more. step _ _ _ (suppress-Safe _ _ (change-Safe _ c close_folder tt)) (λ _.
            taken _ (ltb 0 count && not false) _ _ (rw (lt→ltb 0 count more) refl)
              (failed _ ℕ value_error)))))

  -- Where the server says of a mailbox that it has messages, `delete_mailbox` without
  -- `allow_non_empty` neither deletes nor renames a mailbox, whatever the rest of the server's
  -- answers.
  pub delete_mailbox-KeepsMailbox :
      (name : Text) (s : Session W)
      → ((w : W) → Holds (λ n. 0 < n) (c.selected name true w).0)
      → All KeepsMailbox s.sent
      → All KeepsMailbox (delete_mailbox c name false s).1.sent
  delete_mailbox-KeepsMailbox name s h inv = (refused-KeepsMailbox name h s inv).0
