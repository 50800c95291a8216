-- ===== src/Imap/Commands/Every.antt =====
-- No method sends a control character in a command, those that look for a folder included.
use apple_mail_fast_mcp.Base.{
  ℕ, refl, inl, inr, Bool, true, false, not, ◌&&◌, Option, none, some, List, [], ◌∷◌, All,
  Bool-cases, map, if◌then◌else◌,
}
use apple_mail_fast_mcp.Text.{Text, codes, text_member}
use apple_mail_fast_mcp.Imap.{
  Folder, append_message, message_not_found, move_unsupported, trash_not_found, Client, Session,
}
use apple_mail_fast_mcp.Imap.Search.{is_control, has_control}
use apple_mail_fast_mcp.Imap.Search.Clean.{IsClean}
use apple_mail_fast_mcp.Imap.Folders.{
  flagged_folder, conventional_folder, name_of, conventional_trash_names, conventional_drafts_names,
  conventional_sent_names, is_some_name, find_by_flag, find_by_convention, find_folder, append_to,
  append_draft, append_sent_copy, delete_mailbox, rename_mailbox,
}
use apple_mail_fast_mcp.Imap.Messages
use apple_mail_fast_mcp.Imap.Triples.{
  Holds, Safe, bind-Safe, pure-Safe, if-Safe, open-Safe, list-Safe, select-Safe, change-Safe, Quiet,
  done, failed, checked, step, guarded, split,
}
use apple_mail_fast_mcp.Imap.Commands.{CommandIsClean}
use apple_mail_fast_mcp.Imap.Commands.Steps.{
  resolve-Quiet, capability-Quiet, reject, move_resolved-Quiet, move_messages-Quiet,
  permanently_delete_messages-Quiet, set_status-Quiet, delete_mailbox-Quiet, rename_mailbox-Quiet,
}

-- A folder's name that the code may have chosen
abbrev ChoiceIsClean : Option Text → Type 0
ChoiceIsClean none = Unit
ChoiceIsClean (some s) = IsClean s

abbrev FoldersAreClean : List Folder → Type 0
FoldersAreClean = All (λ f. IsClean f.name)

answered-AreClean : (b : Bool) → All IsClean (if b then codes "\\Answered" ∷ [] else [])
unfolding has_control is_control
answered-AreClean true = (refl, tt)
answered-AreClean false = tt

flagged_folder-IsClean :
    (flag : Text) (fs : List Folder) → FoldersAreClean fs → ChoiceIsClean (flagged_folder flag fs)
unfolding flagged_folder
flagged_folder-IsClean flag [] h = tt
flagged_folder-IsClean flag (f ∷ fs) h = elim (Bool-cases (text_member flag f.flags)) [
  | inl yes_flag ↦ rw yes_flag h.0
  | inr no_flag ↦ rw no_flag (flagged_folder-IsClean flag fs h.1)
]

conventional_folder-IsClean :
    (names present : List Text)
    → All IsClean names
    → ChoiceIsClean (conventional_folder names present)
unfolding conventional_folder
conventional_folder-IsClean [] present h = tt
conventional_folder-IsClean (n ∷ names) present h = elim (Bool-cases (text_member n present)) [
  | inl there ↦ rw there h.0
  | inr missing ↦ rw missing (conventional_folder-IsClean names present h.1)
]

-- `folders_clean`: the names that the server lists have no control character.
module _ {W : Type 0} (c : Client W)
    (folders_clean : (w : W) → Holds FoldersAreClean (c.folders w).0) where
  flag-Safe : (flag : Text) → Safe CommandIsClean ChoiceIsClean (find_by_flag c flag)
  unfolding find_by_flag
  flag-Safe flag =
      bind-Safe _ FoldersAreClean _ _ _ (list-Safe _ c FoldersAreClean tt folders_clean)
        (λ fs clean. pure-Safe _ ChoiceIsClean _ (flagged_folder-IsClean flag fs clean))

  convention-Safe :
      (names : List Text)
      → All IsClean names
      → Safe CommandIsClean ChoiceIsClean (find_by_convention c names)
  unfolding find_by_convention
  convention-Safe names h =
      bind-Safe _ FoldersAreClean _ _ _ (list-Safe _ c FoldersAreClean tt folders_clean)
        (λ fs clean.
          pure-Safe _ ChoiceIsClean _ (conventional_folder-IsClean names (map name_of fs) h))

  find_folder-Safe :
      (flag : Text) (names : List Text)
      → All IsClean names
      → Safe CommandIsClean ChoiceIsClean (find_folder c flag names)
  unfolding find_folder
  find_folder-Safe flag names h = bind-Safe _ ChoiceIsClean _ _ _ (flag-Safe flag) (λ flagged clean.
      if-Safe _ ChoiceIsClean (is_some_name flagged) _ _ (pure-Safe _ ChoiceIsClean flagged clean)
        (convention-Safe names h))

  append_to-Quiet :
      (raw : List ℕ) (flags : List Text) (folder : Option Text)
      → All IsClean flags
      → ChoiceIsClean folder
      → Quiet CommandIsClean (append_to c raw flags folder)
  append_to-Quiet raw flags none h k = failed _ Text message_not_found
  append_to-Quiet raw flags (some folder) h k =
      step _ _ _ (change-Safe _ c (append_message folder raw flags) (k, h)) (λ _. done _ folder)

  pub append_draft-Quiet : (raw : List ℕ) → Quiet CommandIsClean (append_draft c raw)
  unfolding append_draft has_control is_control
  append_draft-Quiet raw = step _ _ _ (open-Safe _ c) (λ _.
      guarded _ ChoiceIsClean _ _
        (find_folder-Safe (codes "\\Drafts") conventional_drafts_names (refl, (refl, (refl, tt))))
        (λ folder clean. append_to-Quiet raw (codes "\\Draft" ∷ []) folder (refl, tt) clean))

  pub append_sent_copy-Quiet :
      (raw : List ℕ) (answered : Bool) → Quiet CommandIsClean (append_sent_copy c raw answered)
  unfolding append_sent_copy has_control is_control
  append_sent_copy-Quiet raw answered = step _ _ _ (open-Safe _ c) (λ _.
      guarded _ ChoiceIsClean _ _
        (find_folder-Safe (codes "\\Sent") conventional_sent_names
          (refl, (refl, (refl, (refl, tt)))))
        (λ folder clean. append_to-Quiet raw _ folder (refl, answered-AreClean answered) clean))

  or_convention-Safe :
      (flagged : Option Text)
      → ChoiceIsClean flagged
      → Safe CommandIsClean ChoiceIsClean (Messages.or_convention c flagged)
  unfolding has_control is_control
  or_convention-Safe (some trash) h = pure-Safe _ ChoiceIsClean (some trash) h
  or_convention-Safe none h =
      convention-Safe conventional_trash_names (refl, (refl, (refl, (refl, tt))))

  delete_into-Quiet :
      (ids : List Text) (source : Text) (has_move : Bool) (trash : Option Text)
      → IsClean source
      → ChoiceIsClean trash
      → Quiet CommandIsClean (Messages.delete_into c ids source has_move trash)
  delete_into-Quiet ids source has_move none h k = failed _ ℕ trash_not_found
  delete_into-Quiet ids source has_move (some trash) h k =
      step _ _ _ (select-Safe _ c source false h) (λ _.
        step _ _ _ (resolve-Quiet c ids) (λ uids. move_resolved-Quiet c has_move trash uids k))

  pub delete_messages-Quiet :
      (ids : List Text) (source : Text)
      → Quiet CommandIsClean (Messages.delete_messages c ids source)
  unfolding Messages.delete_messages
  delete_messages-Quiet ids source = step _ _ _ (checked _ _) (λ _.
      reject c source _ (λ clean_source. step _ _ _ (open-Safe _ c) (λ _.
        step _ _ _ (capability-Quiet c _) (λ has_move.
          step _ _ _ (capability-Quiet c _) (λ has_uidplus.
            split _ (not has_move && not has_uidplus) _ _ (failed _ ℕ move_unsupported) (
              guarded _ ChoiceIsClean _ _ (flag-Safe (codes "\\Trash")) (λ flagged clean.
                guarded _ ChoiceIsClean _ _ (or_convention-Safe flagged clean) (λ trash clean_trash.
                  delete_into-Quiet ids source has_move trash clean_source clean_trash))))))))

  -- Whatever a server answers, as long as the folder names that it lists hold no control character:
  -- if no argument of a command sent so far holds one, then none does after any of the nine methods
  -- that change a mailbox, whatever ids and names they are called with, and however the call ends. So
  -- no caller's text can end a command early and begin another. The bytes of a message that is
  -- appended, which go as a literal, do not count.
  pub methods-CommandIsClean :
      (ids : List Text) (source destination : Text) (raw : List ℕ) (b : Bool) (s : Session W)
      → All CommandIsClean s.sent
      → All CommandIsClean (Messages.move_messages c ids source destination s).1.sent
        × All CommandIsClean (Messages.delete_messages c ids source s).1.sent
        × All CommandIsClean (Messages.permanently_delete_messages c ids source s).1.sent
        × All CommandIsClean (Messages.set_read_status c ids source b s).1.sent
        × All CommandIsClean (Messages.set_flagged_status c ids source b s).1.sent
        × All CommandIsClean (delete_mailbox c source b s).1.sent
        × All CommandIsClean (rename_mailbox c source destination s).1.sent
        × All CommandIsClean (append_draft c raw s).1.sent
        × All CommandIsClean (append_sent_copy c raw b s).1.sent
  unfolding Messages.set_read_status Messages.set_flagged_status has_control is_control
  methods-CommandIsClean ids source destination raw b s inv = (
    (move_messages-Quiet c ids source destination s inv).0,
    (delete_messages-Quiet ids source s inv).0,
    (permanently_delete_messages-Quiet c ids source s inv).0,
    (set_status-Quiet c (codes "\\Seen") ids source b refl s inv).0,
    (set_status-Quiet c (codes "\\Flagged") ids source b refl s inv).0,
    (delete_mailbox-Quiet c source b s inv).0,
    (rename_mailbox-Quiet c source destination s inv).0,
    (append_draft-Quiet raw s inv).0,
    (append_sent_copy-Quiet raw b s inv).0,
  )
