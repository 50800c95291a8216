-- ===== src/Imap/Messages.antt =====
-- imap_connector.py: the resolution of Message-IDs to UIDs, and the methods that move, delete and
-- flag messages.
use apple_mail_fast_mcp.Base.{
  ℕ, zero, suc, Bool, true, false, not, ◌&&◌, ◌||◌, Option, none, some, List, [], ◌∷◌, ◌++◌, ◌==◌,
  length, take, drop, if◌then◌else◌,
}
use apple_mail_fast_mcp.Text.{Text, codes, text_member}
use apple_mail_fast_mcp.Imap.{
  move_uids, copy_uids, add_flags, remove_flags, uid_expunge, move_unsupported, trash_not_found,
  Client, Imap, pure, fail, lift, ◌>>=◌, ◌>>◌, open_session, client_capabilities, send_select,
  send_search, send_change,
}
use apple_mail_fast_mcp.Imap.Search.{
  reject_control_chars, validate_message_ids, or_message_id_criteria,
}
use apple_mail_fast_mcp.Imap.Folders.{find_by_flag, find_by_convention, conventional_trash_names}

-- `_MSGID_SEARCH_CHUNK`
abbrev pub search_chunk : ℕ
search_chunk = 50

-- `message_ids[i : i + _MSGID_SEARCH_CHUNK]` for the values of the loop's `i`, with fuel for as many
-- chunks as there are ids.
unfoldable pub chunks : ℕ → List Text → List (List Text)
chunks zero ids = []
chunks (suc fuel) [] = []
chunks (suc fuel) (id ∷ ids) =
    take search_chunk (id ∷ ids) ∷ chunks fuel (drop search_chunk (id ∷ ids))

abbrev pub uid_member : ℕ → List ℕ → Bool
uid_member u [] = false
uid_member u (v ∷ vs) = v == u || uid_member u vs

-- The inner loop, with the UIDs so far, which are those seen
unfoldable pub add_new : List ℕ → List ℕ → List ℕ
add_new uids [] = uids
add_new uids (u ∷ us) = add_new (if uid_member u uids then uids else uids ++ u ∷ []) us

-- `silent=True`, which asks for no answer, is left out.
abbrev pub deleted_flag : List Text
deleted_flag = codes "\\Deleted" ∷ []

module _ {W : Type 0} (c : Client W) where
  unfoldable pub resolve_chunks : List (List Text) → List ℕ → Imap W (List ℕ)
  resolve_chunks [] uids = pure uids
  resolve_chunks (chunk ∷ rest) uids = do
    criteria ← lift (or_message_id_criteria chunk)
    found ← send_search c criteria
    resolve_chunks rest (add_new uids found)

  -- `_resolve_uids_batch`
  unfoldable pub resolve_uids_batch : List Text → Imap W (List ℕ)
  unfolding resolve_chunks chunks
  resolve_uids_batch ids = resolve_chunks (chunks (length ids) ids) []

  -- `_has_capability`
  unfoldable pub has_capability : Text → Imap W Bool
  has_capability name = do
    capabilities ← client_capabilities c
    pure (text_member name capabilities)

  -- The end of `move_messages` and of `delete_messages`
  unfoldable pub move_resolved : Bool → Text → List ℕ → Imap W ℕ
  move_resolved has_move destination [] = pure 0
  move_resolved true destination (u ∷ us) = do
    send_change c (move_uids (u ∷ us) destination)
    pure (length (u ∷ us))
  move_resolved false destination (u ∷ us) = do
    send_change c (copy_uids (u ∷ us) destination)
    send_change c (add_flags (u ∷ us) deleted_flag)
    send_change c (uid_expunge (u ∷ us))
    pure (length (u ∷ us))

  -- `move_messages`
  unfoldable pub move_messages : List Text → Text → Text → Imap W ℕ
  unfolding has_capability
  move_messages ids source destination = do
    lift (validate_message_ids ids)
    lift (reject_control_chars source)
    lift (reject_control_chars destination)
    open_session c
    count ← send_select c source false
    has_move ← has_capability (codes "MOVE")
    has_uidplus ← has_capability (codes "UIDPLUS")
    if not has_move && not has_uidplus
        then fail move_unsupported
        else do uids ← resolve_uids_batch ids; move_resolved has_move destination uids

  -- The second try of `delete_messages`, where the first found no folder
  abbrev pub or_convention : Option Text → Imap W (Option Text)
  or_convention (some trash) = pure (some trash)
  or_convention none = find_by_convention c conventional_trash_names

  abbrev pub delete_into : List Text → Text → Bool → Option Text → Imap W ℕ
  delete_into ids source has_move none = fail trash_not_found
  delete_into ids source has_move (some trash) = do
    count ← send_select c source false
    uids ← resolve_uids_batch ids
    move_resolved has_move trash uids

  -- `delete_messages`
  unfoldable pub delete_messages : List Text → Text → Imap W ℕ
  unfolding has_capability
  delete_messages ids source = do
    lift (validate_message_ids ids)
    lift (reject_control_chars source)
    open_session c
    has_move ← has_capability (codes "MOVE")
    has_uidplus ← has_capability (codes "UIDPLUS")
    if not has_move && not has_uidplus then fail move_unsupported else do
      flagged ← find_by_flag c (codes "\\Trash")
      trash ← or_convention flagged
      delete_into ids source has_move trash

  unfoldable pub expunge_resolved : List ℕ → Imap W ℕ
  expunge_resolved [] = pure 0
  expunge_resolved (u ∷ us) = do
    send_change c (add_flags (u ∷ us) deleted_flag)
    send_change c (uid_expunge (u ∷ us))
    pure (length (u ∷ us))

  -- `permanently_delete_messages`
  unfoldable pub permanently_delete_messages : List Text → Text → Imap W ℕ
  unfolding has_capability
  permanently_delete_messages ids source = do
    lift (validate_message_ids ids)
    lift (reject_control_chars source)
    open_session c
    count ← send_select c source false
    has_uidplus ← has_capability (codes "UIDPLUS")
    if not has_uidplus
        then fail move_unsupported
        else do uids ← resolve_uids_batch ids; expunge_resolved uids

  unfoldable pub store_resolved : Text → Bool → List ℕ → Imap W ℕ
  store_resolved flag on [] = pure 0
  store_resolved flag true (u ∷ us) = do
    send_change c (add_flags (u ∷ us) (flag ∷ []))
    pure (length (u ∷ us))
  store_resolved flag false (u ∷ us) = do
    send_change c (remove_flags (u ∷ us) (flag ∷ []))
    pure (length (u ∷ us))

  -- `set_read_status` and `set_flagged_status`, which differ in the flag
  unfoldable pub set_status : Text → List Text → Text → Bool → Imap W ℕ
  set_status flag ids source on = do
    lift (validate_message_ids ids)
    lift (reject_control_chars source)
    open_session c
    count ← send_select c source false
    uids ← resolve_uids_batch ids
    store_resolved flag on uids

  unfoldable pub set_read_status : List Text → Text → Bool → Imap W ℕ
  unfolding set_status
  set_read_status = set_status (codes "\\Seen")

  unfoldable pub set_flagged_status : List Text → Text → Bool → Imap W ℕ
  unfolding set_status
  set_flagged_status = set_status (codes "\\Flagged")
