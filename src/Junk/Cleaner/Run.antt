-- ===== src/Junk/Cleaner/Run.antt =====
-- junk_cleaner.py: `_process_candidates` and the two loops of `clean_junk` over the junk mailboxes.
use apple_mail_fast_mcp.Base.{
  ℕ, ◌+◌, ◌-◌, Bool, true, false, Option, none, some, List, [], ◌∷◌, ◌++◌, length, take, str_eq,
}
use apple_mail_fast_mcp.Text.{Text, Unicode, codes}
use apple_mail_fast_mcp.Junk.Campaigns.{Store, record_messages, record_action}
use apple_mail_fast_mcp.Junk.Evidence.{CharClasses, JunkMessage}
use apple_mail_fast_mcp.Junk.Cleaner.{
  ProviderAccount, JunkCleanerConfig, Attempt, returned, message_not_found, permanent_delete_error,
  raised, and_then, decimal, JunkMailbox, Outside, clear_junk_flags, eligible_messages,
}

-- The database and the world outside; what a call did to them stays done when it raises.
pub record State (W : Type 0) : Type 0 where
  pub store : Store
  pub world : W

-- The variables of `_process_candidates`.
pub record Progress (P : Type 0) : Type 0 where
  pub reported : ℕ
  pub deleted_total : ℕ
  pub failed : ℕ
  pub deletions_remaining : ℕ
  pub purger : Option P

-- One entry of `results`; `none` is a key that is not set.
pub record MailboxResult : Type 0 where
  pub account : Text
  pub mailbox : Text
  pub qualified : ℕ
  pub reported : ℕ
  pub deleted : ℕ
  pub failed : ℕ
  pub messages_seen : Option ℕ
  pub evidence_recorded : Option ℕ
  pub flags_cleared : Option ℕ
  pub sync_retry : Bool
  pub unconfigured : Bool
  pub deferred : Option ℕ

-- A junk mailbox with its result, and its evidence unless it is to be tried again.
pub record Inventory : Type 0 where
  pub result : MailboxResult
  pub junk_mailbox : JunkMailbox
  pub evidence : Option (List JunkMessage)

module _ {W P : Type 0} (o : Outside W P) where
  -- `store.record_action`, at the time that the database reads
  abbrev pub recorded : JunkMessage → Text → Text → State W → State W
  recorded message status detail s = record s {
    store = record_action (o.clock s.world) message status detail s.store;
  }

  -- A call on the world, with the database beside it
  abbrev pub outside : {A : Type 0} → Attempt A × W → State W → Attempt A × State W
  outside (a, w) s = (a, record s { world = w })

  module _ (config : JunkCleanerConfig) (provider : ProviderAccount) (source_mailbox : Text) where
    -- The `try` block: the purger is built at the first message that needs it.
    unfoldable pub purge_message : JunkMessage → Option P → State W → Attempt (P × ℕ) × State W
    purge_message message (some purger) s =
        and_then (outside (o.permanently_delete purger message.rfc_message_id s.world) s)
          (λ n s'. (returned (purger, n), s'))
    purge_message message none s =
        and_then (outside (o.build_purger provider message.account source_mailbox s.world) s)
          (λ purger s'.
            and_then (outside (o.permanently_delete purger message.rfc_message_id s'.world) s')
              (λ n s''. (returned (purger, n), s'')))

    -- The loop of `_process_candidates`
    unfoldable pub process :
        List JunkMessage → Progress P → State W → Attempt (Progress P) × State W
    process [] p s = (returned p, s)
    process (message ∷ messages) p s = elim (str_eq config.mode "observe") [
      | true ↦
          process messages (record p { reported = p.reported + 1 })
            (recorded message (codes "observed") [] s)
      | false ↦
          let (answer, s') = purge_message message p.purger s in
          elim answer [
            | returned (purger, n) ↦
                process messages
                  (record p {
                    purger = some purger;
                    deleted_total = p.deleted_total + n;
                    deletions_remaining = p.deletions_remaining - 1;
                  })
                  (recorded message (codes "deleted") (codes "provider copies: " ++ decimal n) s')
            | permanent_delete_error e ↦ (
              returned (record p { failed = p.failed + 1 }),
              recorded message (codes "failed") e s',
            )
            | message_not_found ↦ (message_not_found, s')
            | raised ↦ (raised, s')
          ]
    ]

    -- `_process_candidates`
    unfoldable pub process_candidates :
        List JunkMessage → ℕ → State W → Attempt (Progress P) × State W
    process_candidates candidates deletions_remaining s =
        process (take deletions_remaining candidates)
          (record {
            reported = 0;
            deleted_total = 0;
            failed = 0;
            deletions_remaining = deletions_remaining;
            purger = none;
          })
          s

  abbrev pub fresh_result : JunkMailbox → MailboxResult
  fresh_result m = record {
    account = m.provider_account;
    mailbox = m.path;
    qualified = 0;
    reported = 0;
    deleted = 0;
    failed = 0;
    messages_seen = none;
    evidence_recorded = none;
    flags_cleared = none;
    sync_retry = false;
    unconfigured = false;
    deferred = none;
  }

  -- The `except` clause for a message that is gone
  abbrev pub retry : JunkMailbox → MailboxResult → Inventory
  retry m result = record {
    result = record result { sync_retry = true };
    junk_mailbox = m;
    evidence = none;
  }

  module _ (u : Unicode) (parse_address : Text → Text) where
    -- The first loop of `clean_junk`: the `try` block, with the keys that it sets before it raises
    unfoldable pub inventory : JunkMailbox → State W → Attempt Inventory × State W
    inventory m s =
        let (rows, s1) = outside (o.search_messages m.connector_account m.path s.world) s in
        let result : MailboxResult = fresh_result m in
        elim rows [
          | message_not_found ↦ (returned (retry m result), s1)
          | permanent_delete_error e ↦ (permanent_delete_error e, s1)
          | raised ↦ (raised, s1)
          | returned messages ↦
              let (evidence, store') =
                record_messages u parse_address (o.clock s1.world) m.provider_account m.path
                  messages s1.store in
              let s2 : State W = record s1 { store = store' } in
              let seen : MailboxResult = record result {
                messages_seen = some (length messages);
                evidence_recorded = some (length evidence);
              } in
              let (cleared, s3) =
                outside (clear_junk_flags o m.connector_account m.path s2.world) s2 in
              elim cleared [
                | message_not_found ↦ (returned (retry m seen), s3)
                | permanent_delete_error e ↦ (permanent_delete_error e, s3)
                | raised ↦ (raised, s3)
                | returned n ↦ (
                  returned (record {
                    result = record seen { flags_cleared = some n };
                    junk_mailbox = m;
                    evidence = some evidence;
                  }),
                  s3,
                )
              ]
        ]

    unfoldable pub inventories : List JunkMailbox → State W → Attempt (List Inventory) × State W
    inventories [] s = (returned [], s)
    inventories (m ∷ mailboxes) s =
        and_then (inventory m s)
          (λ i s'. and_then (inventories mailboxes s') (λ is s''. (returned (i ∷ is), s'')))

  module _ (k : CharClasses) (config : JunkCleanerConfig) (healthy : Text → Bool) where
    -- The body of the second loop of `clean_junk`, with the deletions that it leaves for the rest
    unfoldable pub clean_mailbox : Inventory → ℕ → State W → Attempt (MailboxResult × ℕ) × State W
    clean_mailbox i remaining s = elim i.evidence [
      | none ↦ (returned (i.result, remaining), s)
      | some evidence ↦
          let candidates = eligible_messages k (o.clock s.world) s.store evidence config in
          let result : MailboxResult = record i.result { qualified = length candidates } in
          let account = i.junk_mailbox.provider_account in
          elim (config.provider_of account) [
            | none ↦ (returned (record result { unconfigured = true }, remaining), s)
            | some provider ↦ elim (healthy account) [
              | false ↦
                  (returned (record result { deferred = some (length candidates) }, remaining), s)
              | true ↦
                  and_then
                    (process_candidates config provider i.junk_mailbox.path candidates remaining s)
                    (λ p s'. (
                      returned (
                        record result {
                          reported = p.reported;
                          deleted = p.deleted_total;
                          failed = p.failed;
                        },
                        p.deletions_remaining,
                      ),
                      s',
                    ))
            ]
          ]
    ]

    unfoldable pub clean_mailboxes :
        List Inventory → ℕ → State W → Attempt (List MailboxResult) × State W
    clean_mailboxes [] remaining s = (returned [], s)
    clean_mailboxes (i ∷ is) remaining s =
        and_then (clean_mailbox i remaining s)
          (λ r s'. and_then (clean_mailboxes is r.1 s') (λ rs s''. (returned (r.0 ∷ rs), s'')))
