-- ===== src/Junk/Campaigns/Deleted.antt =====
-- The ledger of deletions: one row per message, which says how its last deletion went.
use apple_mail_fast_mcp.Base.{
  ℕ, ◌≤◌, ◌≡◌, refl, inl, inr, Bool-cases, Bool, true, false, ◌&&◌, List, [], ◌∷◌, arith, any, keep,
  length, if◌then◌else◌,
}
use apple_mail_fast_mcp.Text.{Text, codes, text_eq}
use apple_mail_fast_mcp.Text.Search.{text_eq→eq}
use apple_mail_fast_mcp.Junk.Campaigns.{
  CleanupAction, Store, upsert, is_action_of, was_deleted, record_action,
}
use apple_mail_fast_mcp.Junk.Evidence.{JunkMessage}

-- The primary key: no two rows of the ledger are for one message.
abbrev pub IsKeyed : List CleanupAction → Type 0
IsKeyed rows = (m : JunkMessage) → length (keep (is_action_of m) rows) ≤ 1

-- Two messages with one key.
abbrev pub same_key : JunkMessage → JunkMessage → Bool
same_key m n =
    text_eq n.account m.account
    && (text_eq n.mailbox m.mailbox && text_eq n.rfc_message_id m.rfc_message_id)

-- A row for `n` is a row for `m` exactly if the two have one key.
is_action_of-same_key :
    (m n : JunkMessage) (r : CleanupAction)
    → is_action_of n r ≡ true
    → is_action_of m r ≡ same_key m n
is_action_of-same_key m n r h =
    let a = text_eq→eq r.account n.account (ground arith) in
    let b = text_eq→eq r.mailbox n.mailbox (ground arith) in
    let c = text_eq→eq r.rfc_message_id n.rfc_message_id (ground arith) in rw (a, b, c) refl

same_key-is_action_of :
    (m n : JunkMessage) (r : CleanupAction)
    → same_key m n ≡ true
    → is_action_of m r ≡ is_action_of n r
same_key-is_action_of m n r h =
    let a = text_eq→eq n.account m.account (ground arith) in
    let b = text_eq→eq n.mailbox m.mailbox (ground arith) in
    let c = text_eq→eq n.rfc_message_id m.rfc_message_id (ground arith) in rw (a, b, c) refl

module _ (n : JunkMessage) (status detail : Text) (now : ℕ) where
  abbrev pub written : CleanupAction → CleanupAction
  written r = record r { status = status; detail = detail; updated_at = now }

  abbrev pub fresh : CleanupAction
  fresh = record {
    account = n.account;
    mailbox = n.mailbox;
    rfc_message_id = n.rfc_message_id;
    status = status;
    detail = detail;
    updated_at = now;
  }

module _ (m n : JunkMessage) (status detail : Text) (now : ℕ) where
  abbrev pub is_deleted : Bool
  is_deleted = text_eq status (codes "deleted")

  abbrev pub deletes : List CleanupAction → Bool
  deletes = any (λ r. is_action_of m r && text_eq r.status (codes "deleted"))

  -- The number of rows for `m` after a row for `n` was written.
  length-keep-same :
      (rows : List CleanupAction)
      → same_key m n ≡ true
      → length (keep (is_action_of m) rows) ≤ 1
      → length (
          keep (is_action_of m) (
            upsert (is_action_of n) (written n status detail now) (fresh n status detail now) rows))
        ≤ 1
  unfolding upsert
  length-keep-same [] h k = ground arith
  length-keep-same (r ∷ rows) h k =
      let e = same_key-is_action_of m n r h in
      elim (Bool-cases (is_action_of n r)) [
        | inl same ↦ rw same (ground arith)
        | inr differs ↦
            let rest = length-keep-same rows h (ground arith) in rw (differs, e) (ground arith)
      ]

  length-keep-other :
      (rows : List CleanupAction)
      → same_key m n ≡ false
      → length (
          keep (is_action_of m) (
            upsert (is_action_of n) (written n status detail now) (fresh n status detail now) rows))
        ≡ length (keep (is_action_of m) rows)
  unfolding upsert
  length-keep-other [] h = rw h refl
  length-keep-other (r ∷ rows) h = elim (Bool-cases (is_action_of n r)) [
    | inl same ↦ let e = is_action_of-same_key m n r same in rw (same, e, h) refl
    | inr differs ↦ let rest = length-keep-other rows h in rw differs (ground (arith, rest))
  ]

  deletes-other :
      (rows : List CleanupAction)
      → same_key m n ≡ false
      → deletes
          (upsert (is_action_of n) (written n status detail now) (fresh n status detail now) rows)
        ≡ deletes rows
  unfolding upsert
  deletes-other [] h = rw h refl
  deletes-other (r ∷ rows) h = elim (Bool-cases (is_action_of n r)) [
    | inl same ↦ let e = is_action_of-same_key m n r same in rw (same, e, h) refl
    | inr differs ↦ rw (differs, deletes-other rows h) refl
  ]

  deletes-none :
      (rows : List CleanupAction) → length (keep (is_action_of m) rows) ≤ 0 → deletes rows ≡ false
  deletes-none [] h = refl
  deletes-none (r ∷ rows) h = ground (arith, deletes-none rows)

  deletes-same :
      (rows : List CleanupAction)
      → same_key m n ≡ true
      → length (keep (is_action_of m) rows) ≤ 1
      → deletes
          (upsert (is_action_of n) (written n status detail now) (fresh n status detail now) rows)
        ≡ is_deleted
  unfolding upsert
  deletes-same [] h k = rw h (ground arith)
  deletes-same (r ∷ rows) h k = elim (Bool-cases (is_action_of n r)) [
    | inl same ↦
        let e = is_action_of-same_key m n r same in
        let rest = deletes-none rows (ground arith) in rw (same, e, h, rest) (ground arith)
    | inr differs ↦
        let e = same_key-is_action_of m n r h in
        rw (differs, e, differs) (deletes-same rows h (ground arith))
  ]

IsKeyed-upsert :
    (n : JunkMessage) (status detail : Text) (now : ℕ) (rows : List CleanupAction)
    → IsKeyed rows
    → IsKeyed
        (upsert (is_action_of n) (written n status detail now) (fresh n status detail now) rows)
IsKeyed-upsert n status detail now rows keyed m = elim (Bool-cases (same_key m n)) [
  | inl same ↦ length-keep-same m n status detail now rows same (keyed m)
  | inr other ↦ rw (length-keep-other m n status detail now rows other) (keyed m)
]

module _ (now : ℕ) (message : JunkMessage) (status detail : Text) (store : Store) where
  -- Writing to the ledger keeps one row per message, and afterwards a message counts as deleted
  -- exactly if the row written is for it and says `deleted`, or the row is for another message and
  -- it counted as deleted before.
  pub was_deleted-record_action :
      IsKeyed store.actions
      → let store' = record_action now message status detail store in
        IsKeyed store'.actions
        × ((other : JunkMessage)
            → was_deleted other store' ≡ (
                if same_key other message
                then text_eq status (codes "deleted")
                else was_deleted other store))
  unfolding record_action was_deleted
  was_deleted-record_action keyed = (
    IsKeyed-upsert message status _ now store.actions keyed,
    λ other. elim (Bool-cases (same_key other message)) [
      | inl same ↦
          rw same (deletes-same other message status _ now store.actions same (keyed other))
      | inr differs ↦ rw differs (deletes-other other message status _ now store.actions differs)
    ],
  )
