-- ===== src/Imap/Commands/Steps.antt =====
-- No method that names its mailboxes sends a control character in a command.
use apple_mail_fast_mcp.Base.{
  ℕ, zero, refl, Bool, true, false, not, ◌&&◌, List, [], ◌∷◌, ltb, length,
}
use apple_mail_fast_mcp.Text.{Text, text_member}
use apple_mail_fast_mcp.Imap.{
  close_folder, delete_folder, rename_folder, move_uids, copy_uids, add_flags, remove_flags,
  uid_expunge, value_error, move_unsupported, Client, Imap, lift, ◌>>=◌,
}
use apple_mail_fast_mcp.Imap.Search.{
  is_control, has_control, reject_control_chars, or_message_id_criteria,
}
use apple_mail_fast_mcp.Imap.Search.Clean.{IsClean}
use apple_mail_fast_mcp.Imap.Folders.{delete_mailbox, rename_mailbox}
use apple_mail_fast_mcp.Imap.Messages
use apple_mail_fast_mcp.Imap.Triples.{
  lift-Safe, suppress-Safe, open-Safe, capabilities-Safe, select-Safe, search-Safe, change-Safe,
  Quiet, done, failed, checked, step, guarded, split,
}
use apple_mail_fast_mcp.Imap.Commands.{
  CriteriaAreClean, CommandIsClean, reject-IsClean, or_message_id_criteria-AreClean,
}

module _ {W : Type 0} (c : Client W) where
  resolve_chunks-Quiet :
      (parts : List (List Text)) (uids : List ℕ)
      → Quiet CommandIsClean (Messages.resolve_chunks c parts uids)
  unfolding Messages.resolve_chunks
  resolve_chunks-Quiet [] uids = done _ uids
  resolve_chunks-Quiet (part ∷ parts) uids =
      guarded _ CriteriaAreClean _ _
        (lift-Safe _ _ (or_message_id_criteria part) (or_message_id_criteria-AreClean part))
        (λ k clean.
          step _ _ _ (search-Safe _ c k clean)
            (λ found. resolve_chunks-Quiet parts (Messages.add_new uids found)))

  pub resolve-Quiet : (ids : List Text) → Quiet CommandIsClean (Messages.resolve_uids_batch c ids)
  unfolding Messages.resolve_uids_batch
  resolve-Quiet ids = resolve_chunks-Quiet (Messages.chunks (length ids) ids) []

  pub capability-Quiet : (name : Text) → Quiet CommandIsClean (Messages.has_capability c name)
  unfolding Messages.has_capability
  capability-Quiet name =
      step _ _ _ (capabilities-Safe _ c) (λ names. done _ (text_member name names))

  pub reject :
      {A : Type 0} (s : Text) (f : Unit {0} → Imap W A)
      → (IsClean s → Quiet CommandIsClean (f tt))
      → Quiet CommandIsClean (lift (reject_control_chars s) >>= f)
  reject s f h =
      guarded _ (λ _. IsClean s) _ f
        (lift-Safe _ (λ _. IsClean s) (reject_control_chars s) (reject-IsClean s))
        (λ u clean. h clean)

  pub move_resolved-Quiet :
      (has_move : Bool) (destination : Text) (uids : List ℕ)
      → IsClean destination
      → Quiet CommandIsClean (Messages.move_resolved c has_move destination uids)
  unfolding Messages.move_resolved has_control is_control
  move_resolved-Quiet has_move destination [] h = done _ zero
  move_resolved-Quiet true destination (u ∷ us) h =
      step _ _ _ (change-Safe _ c (move_uids (u ∷ us) destination) h)
        (λ _. done _ (length (u ∷ us)))
  move_resolved-Quiet false destination (u ∷ us) h =
      step _ _ _ (change-Safe _ c (copy_uids (u ∷ us) destination) h) (λ _.
        step _ _ _ (change-Safe _ c (add_flags (u ∷ us) Messages.deleted_flag) (refl, tt)) (λ _.
          step _ _ _ (change-Safe _ c (uid_expunge (u ∷ us)) tt) (λ _. done _ (length (u ∷ us)))))

  pub move_messages-Quiet :
      (ids : List Text) (source destination : Text)
      → Quiet CommandIsClean (Messages.move_messages c ids source destination)
  unfolding Messages.move_messages
  move_messages-Quiet ids source destination = step _ _ _ (checked _ _) (λ _.
      reject source _ (λ clean_source. reject destination _ (λ clean_destination.
        step _ _ _ (open-Safe _ c) (λ _.
          step _ _ _ (select-Safe _ c source false clean_source) (λ _.
            step _ _ _ (capability-Quiet _) (λ has_move.
              step _ _ _ (capability-Quiet _) (λ has_uidplus.
                split _ (not has_move && not has_uidplus) _ _ (failed _ ℕ move_unsupported) (
                  step _ _ _ (resolve-Quiet ids) (λ uids.
                    move_resolved-Quiet has_move destination uids clean_destination)))))))))

  expunge_resolved-Quiet : (uids : List ℕ) → Quiet CommandIsClean (Messages.expunge_resolved c uids)
  unfolding Messages.expunge_resolved has_control is_control
  expunge_resolved-Quiet [] = done _ zero
  expunge_resolved-Quiet (u ∷ us) =
      step _ _ _ (change-Safe _ c (add_flags (u ∷ us) Messages.deleted_flag) (refl, tt)) (λ _.
        step _ _ _ (change-Safe _ c (uid_expunge (u ∷ us)) tt) (λ _. done _ (length (u ∷ us))))

  pub permanently_delete_messages-Quiet :
      (ids : List Text) (source : Text)
      → Quiet CommandIsClean (Messages.permanently_delete_messages c ids source)
  unfolding Messages.permanently_delete_messages
  permanently_delete_messages-Quiet ids source = step _ _ _ (checked _ _) (λ _.
      reject source _ (λ clean_source. step _ _ _ (open-Safe _ c) (λ _.
        step _ _ _ (select-Safe _ c source false clean_source) (λ _.
          step _ _ _ (capability-Quiet _) (λ has_uidplus.
            split _ (not has_uidplus) _ _ (failed _ ℕ move_unsupported)
              (step _ _ _ (resolve-Quiet ids) (λ uids. expunge_resolved-Quiet uids)))))))

  store_resolved-Quiet :
      (flag : Text) (on : Bool) (uids : List ℕ)
      → IsClean flag
      → Quiet CommandIsClean (Messages.store_resolved c flag on uids)
  unfolding Messages.store_resolved
  store_resolved-Quiet flag on [] h = done _ zero
  store_resolved-Quiet flag true (u ∷ us) h =
      step _ _ _ (change-Safe _ c (add_flags (u ∷ us) (flag ∷ [])) (h, tt))
        (λ _. done _ (length (u ∷ us)))
  store_resolved-Quiet flag false (u ∷ us) h =
      step _ _ _ (change-Safe _ c (remove_flags (u ∷ us) (flag ∷ [])) (h, tt))
        (λ _. done _ (length (u ∷ us)))

  pub set_status-Quiet :
      (flag : Text) (ids : List Text) (source : Text) (on : Bool)
      → IsClean flag
      → Quiet CommandIsClean (Messages.set_status c flag ids source on)
  unfolding Messages.set_status
  set_status-Quiet flag ids source on h = step _ _ _ (checked _ _) (λ _.
      reject source _ (λ clean_source. step _ _ _ (open-Safe _ c) (λ _.
        step _ _ _ (select-Safe _ c source false clean_source)
          (λ _. step _ _ _ (resolve-Quiet ids) (λ uids. store_resolved-Quiet flag on uids h)))))

  pub delete_mailbox-Quiet :
      (name : Text) (allow_non_empty : Bool)
      → Quiet CommandIsClean (delete_mailbox c name allow_non_empty)
  unfolding delete_mailbox
  delete_mailbox-Quiet name allow_non_empty = reject name _ (λ clean_name.
      step _ _ _ (open-Safe _ c) (λ _. step _ _ _ (select-Safe _ c name true clean_name) (λ count.
        step _ _ _ (suppress-Safe _ _ (change-Safe _ c close_folder tt)) (λ _.
          split _ (ltb 0 count && not allow_non_empty) _ _ (failed _ ℕ value_error)
            (step _ _ _ (change-Safe _ c (delete_folder name) clean_name) (λ _. done _ count))))))

  pub rename_mailbox-Quiet :
      (old_name new_name : Text) → Quiet CommandIsClean (rename_mailbox c old_name new_name)
  unfolding rename_mailbox
  rename_mailbox-Quiet old_name new_name = reject old_name _ (λ clean_old.
      reject new_name _ (λ clean_new.
        step _ _ _ (open-Safe _ c)
          (λ _. change-Safe _ c (rename_folder old_name new_name) (clean_old, clean_new))))
