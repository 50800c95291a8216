-- ===== src/Imap/Folders.antt =====
-- imap_connector.py: the folders that are found by a SPECIAL-USE flag or a conventional name, the
-- appending of a message to one, and the deletion and the renaming of a mailbox.

use apple_mail_fast_mcp.Base.{
  ℕ, Bool, true, false, not, ◌&&◌, Option, none, some, List, [], ◌∷◌, ltb, map, if◌then◌else◌,
}
use apple_mail_fast_mcp.Text.{Text, codes, text_member}
use apple_mail_fast_mcp.Imap.{
  Folder, close_folder, delete_folder, rename_folder, append_message, value_error,
  message_not_found, Client, Imap, pure, fail, lift, ◌>>=◌, ◌>>◌, suppress_client_error,
  open_session, send_list, send_select, send_change,
}
use apple_mail_fast_mcp.Imap.Search.{reject_control_chars}

-- The loop of `_find_trash_folder`, `_find_sent_folder`, `_find_drafts_folder` and
-- `_find_all_mail_folder`, which differ in the flag.
unfoldable pub flagged_folder : Text → List Folder → Option Text
flagged_folder flag [] = none
flagged_folder flag (f ∷ fs) =
    if text_member flag f.flags then some f.name else flagged_folder flag fs

-- The loop over the candidates of the three `_find_..._by_convention`
unfoldable pub conventional_folder : List Text → List Text → Option Text
conventional_folder [] present = none
conventional_folder (candidate ∷ candidates) present =
    if text_member candidate present then some candidate else conventional_folder candidates present

abbrev pub name_of : Folder → Text
name_of f = f.name

-- `_CONVENTIONAL_TRASH_NAMES`, `_CONVENTIONAL_DRAFTS_NAMES` and `_CONVENTIONAL_SENT_NAMES`
abbrev pub conventional_trash_names : List Text
conventional_trash_names =
    codes "Trash" ∷ codes "[Gmail]/Trash" ∷ codes "Deleted Messages" ∷ codes "Deleted Items" ∷ []

abbrev pub conventional_drafts_names : List Text
conventional_drafts_names = codes "Drafts" ∷ codes "[Gmail]/Drafts" ∷ codes "INBOX.Drafts" ∷ []

abbrev pub conventional_sent_names : List Text
conventional_sent_names =
    codes "Sent" ∷ codes "Sent Messages" ∷ codes "[Gmail]/Sent Mail" ∷ codes "INBOX.Sent" ∷ []

-- `name` of `find(...) or ...`, where the empty name counts as none
abbrev pub is_some_name : Option Text → Bool
is_some_name none = false
is_some_name (some []) = false
is_some_name (some (c ∷ s)) = true

module _ {W : Type 0} (c : Client W) where
  unfoldable pub find_by_flag : Text → Imap W (Option Text)
  unfolding flagged_folder
  find_by_flag flag = do folders ← send_list c; pure (flagged_folder flag folders)

  unfoldable pub find_by_convention : List Text → Imap W (Option Text)
  unfolding conventional_folder
  find_by_convention names = do
    folders ← send_list c
    pure (conventional_folder names (map name_of folders))

  -- `self._find_drafts_folder(client) or self._find_drafts_by_convention(client)`
  unfoldable pub find_folder : Text → List Text → Imap W (Option Text)
  unfolding find_by_flag find_by_convention
  find_folder flag names = do
    flagged ← find_by_flag flag
    if is_some_name flagged then pure flagged else find_by_convention names

  abbrev pub append_to : List ℕ → List Text → Option Text → Imap W Text
  append_to raw flags none = fail message_not_found
  append_to raw flags (some folder) = do
    send_change c (append_message folder raw flags)
    pure folder

  -- `append_draft`
  unfoldable pub append_draft : List ℕ → Imap W Text
  unfolding find_folder
  append_draft raw = do
    open_session c
    folder ← find_folder (codes "\\Drafts") conventional_drafts_names
    append_to raw (codes "\\Draft" ∷ []) folder

  -- `append_sent_copy`
  unfoldable pub append_sent_copy : List ℕ → Bool → Imap W Text
  unfolding find_folder
  append_sent_copy raw answered = do
    open_session c
    folder ← find_folder (codes "\\Sent") conventional_sent_names
    append_to raw (codes "\\Seen" ∷ (if answered then codes "\\Answered" ∷ [] else [])) folder

  -- `delete_mailbox`, with the closing that stands before the refusal and before the deletion
  unfoldable pub delete_mailbox : Text → Bool → Imap W ℕ
  unfolding reject_control_chars suppress_client_error
  delete_mailbox name allow_non_empty = do
    lift (reject_control_chars name)
    open_session c
    count ← send_select c name true
    suppress_client_error (send_change c close_folder)
    if ltb 0 count && not allow_non_empty
        then fail value_error
        else do send_change c (delete_folder name); pure count

  -- `rename_mailbox`
  unfoldable pub rename_mailbox : Text → Text → Imap W (Unit {0})
  unfolding reject_control_chars
  rename_mailbox old_name new_name = do
    lift (reject_control_chars old_name)
    lift (reject_control_chars new_name)
    open_session c
    send_change c (rename_folder old_name new_name)
