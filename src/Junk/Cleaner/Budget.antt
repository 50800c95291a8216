-- ===== src/Junk/Cleaner/Budget.antt =====
-- How much one run of the cleaner deletes.
use apple_mail_fast_mcp.Base.{
  ℕ, ◌+◌, ◌-◌, ◌≤◌, ◌≡◌, refl, ap, inl, inr, Bool, false, Option, none, some, List, [], ◌∷◌, ◌++◌,
  arith, length, take, length-take, str_eq, Bool-cases, Option-cases,
}
use apple_mail_fast_mcp.Text.{Text, codes}
use apple_mail_fast_mcp.Junk.Evidence.{CharClasses, JunkMessage}
use apple_mail_fast_mcp.Junk.Cleaner.{
  ProviderAccount, JunkCleanerConfig, returned, message_not_found, permanent_delete_error, raised,
  and_then, decimal, eligible_messages, Outside,
}
use apple_mail_fast_mcp.Junk.Cleaner.Run.{
  State, Progress, Inventory, outside, recorded, purge_message, process, process_candidates,
  clean_mailbox, clean_mailboxes,
}
use apple_mail_fast_mcp.Junk.Cleaner.Observe.{process-observe}
use apple_mail_fast_mcp.Junk.Cleaner.Spending.{
  CountsDeletions, Call-cases, Grows, Grows-and_then, Grows-map, Spends, Spends-and_then, Spends-le,
  Spends-deletions,
}

abbrev remaining_of : {P : Type 0} → Progress P → ℕ
remaining_of p = p.deletions_remaining

module _ {W P : Type 0} (o : Outside W P) (deletions : W → ℕ)
    (counts : CountsDeletions o deletions) where
  module _ (config : JunkCleanerConfig) (provider : ProviderAccount) (source_mailbox : Text) where
    purge_message-Grows :
        (message : JunkMessage) (purger : Option P) (s : State W)
        → Grows deletions
            (deletions s.world)
            (purge_message o config provider source_mailbox message purger s)
    unfolding purge_message
    purge_message-Grows message (some purger) s =
        Grows-map deletions (deletions s.world)
          (outside o (o.permanently_delete purger message.rfc_message_id s.world) s)
          (λ (n : ℕ). (purger, n)) (counts.purge purger message.rfc_message_id s.world)
    purge_message-Grows message none s =
        Grows-and_then deletions {B = P × ℕ} (deletions s.world)
          (outside o (o.build_purger provider message.account source_mailbox s.world) s)
          (λ purger s'.
            and_then (outside o (o.permanently_delete purger message.rfc_message_id s'.world) s')
              (λ n s''. (returned (purger, n), s'')))
          (counts.build provider message.account source_mailbox s.world)
          (λ purger s' h.
            Grows-map deletions (deletions s.world)
              (outside o (o.permanently_delete purger message.rfc_message_id s'.world) s')
              (λ (n : ℕ). (purger, n))
              (let one = counts.purge purger message.rfc_message_id s'.world in
                omega (arith, one, h)))

    module _ (message : JunkMessage) (messages : List JunkMessage) (p : Progress P)
        (s : State W) where
      module _ (e : str_eq config.mode "observe" ≡ false) where
        process-returned :
            (q : P) (n : ℕ) (s' : State W)
            → purge_message o config provider source_mailbox message p.purger s
              ≡ (returned (q, n), s')
            → process o config provider source_mailbox (message ∷ messages) p s
              ≡ process o config provider source_mailbox messages
                  (record p {
                    purger = some q;
                    deleted_total = p.deleted_total + n;
                    deletions_remaining = p.deletions_remaining - 1;
                  })
                  (recorded o message (codes "deleted") (codes "provider copies: " ++ decimal n) s')
        unfolding process
        process-returned q n s' h = rw (e, ap (λ r. r.0) h, ap (λ r. r.1) h, process) refl

        process-error :
            (t : Text) (s' : State W)
            → purge_message o config provider source_mailbox message p.purger s
              ≡ (permanent_delete_error t, s')
            → process o config provider source_mailbox (message ∷ messages) p s ≡ (
              returned (record p { failed = p.failed + 1 }),
              recorded o message (codes "failed") t s',
            )
        unfolding process
        process-error t s' h = rw (e, ap (λ r. r.0) h, ap (λ r. r.1) h, process) refl

        process-message_not_found :
            (s' : State W)
            → purge_message o config provider source_mailbox message p.purger s
              ≡ (message_not_found, s')
            → process o config provider source_mailbox (message ∷ messages) p s
              ≡ (message_not_found, s')
        unfolding process
        process-message_not_found s' h = rw (e, ap (λ r. r.0) h, ap (λ r. r.1) h, process) refl

        process-raised :
            (s' : State W)
            → purge_message o config provider source_mailbox message p.purger s ≡ (raised, s')
            → process o config provider source_mailbox (message ∷ messages) p s ≡ (raised, s')
        unfolding process
        process-raised s' h = rw (e, ap (λ r. r.0) h, ap (λ r. r.1) h, process) refl

    process-Spends :
        (messages : List JunkMessage) (p : Progress P) (s : State W) (total : ℕ)
        → length messages ≤ p.deletions_remaining
        → deletions s.world + p.deletions_remaining ≤ total
        → Spends deletions remaining_of total
            (process o config provider source_mailbox messages p s)
    process-Spends [] p s total h t = unfold process in t
    process-Spends (message ∷ messages) p s total h t =
        elim (Bool-cases (str_eq config.mode "observe")) [
          | inl e ↦
              rw (process-observe o config provider source_mailbox e message messages p s)
                (process-Spends messages _ _ total (omega arith) t)
          | inr e ↦
              let g = purge_message-Grows message p.purger s in
              elim (Call-cases
                (purge_message o config provider source_mailbox message p.purger s)) [
                  | inl ((q, n), s', r) ↦
                      let one : deletions s'.world ≡ deletions s.world + 1 = rw r at g in
                      rw (process-returned message messages p s e q n s' r)
                        (process-Spends messages _ _ total (omega arith) (omega (arith, one)))
                  | inr (inl (x, s', r)) ↦
                      let same : deletions s'.world ≡ deletions s.world + 0 = rw r at g in
                      rw (process-error message messages p s e x s' r) (omega (arith, same))
                  | inr (inr (inl (s', r))) ↦
                      let same : deletions s'.world ≡ deletions s.world + 0 = rw r at g in
                      rw (process-message_not_found message messages p s e s' r)
                        (omega (arith, same))
                  | inr (inr (inr (s', r))) ↦
                      let same : deletions s'.world ≡ deletions s.world + 0 = rw r at g in
                      rw (process-raised message messages p s e s' r) (omega (arith, same))
                ]
        ]

    process_candidates-Spends :
        (candidates : List JunkMessage) (remaining : ℕ) (s : State W)
        → Spends deletions remaining_of
            (deletions s.world + remaining)
            (process_candidates o config provider source_mailbox candidates remaining s)
    unfolding process_candidates
    process_candidates-Spends candidates remaining s =
        let short = length-take remaining candidates in
        process-Spends (take remaining candidates) _ s _ (omega (arith, short)) (omega arith)

  module _ (k : CharClasses) (config : JunkCleanerConfig) (healthy : Text → Bool) where
    clean_mailbox-Spends :
        (i : Inventory) (remaining : ℕ) (s : State W) (total : ℕ)
        → deletions s.world + remaining ≤ total
        → Spends deletions (λ r. r.1) total (clean_mailbox o k config healthy i remaining s)
    unfolding clean_mailbox
    clean_mailbox-Spends i remaining s total h = elim (Option-cases i.evidence) [
      | inl none_left ↦ rw (none_left, clean_mailbox) h
      | inr (evidence, e) ↦
          elim (Option-cases (config.provider_of i.junk_mailbox.provider_account)) [
            | inl unconfigured ↦ rw (e, unconfigured, clean_mailbox) h
            | inr (provider, known) ↦ elim (Bool-cases (healthy i.junk_mailbox.provider_account)) [
              | inr sick ↦ rw (e, known, sick, clean_mailbox) h
              | inl well ↦
                  let candidates = eligible_messages k (o.clock s.world) s.store evidence config in
                  rw (e, known, well, clean_mailbox)
                    (Spends-and_then deletions remaining_of (λ r. r.1) total
                      (process_candidates o config provider i.junk_mailbox.path candidates remaining
                        s)
                      _
                      (Spends-le deletions remaining_of _ total _ h (
                        process_candidates-Spends config provider i.junk_mailbox.path candidates
                          remaining s))
                      (λ p s' h'. h'))
            ]
          ]
    ]

    clean_mailboxes-Spends :
        (is : List Inventory) (remaining : ℕ) (s : State W) (total : ℕ)
        → deletions s.world + remaining ≤ total
        → Spends deletions (λ rs. 0) total (clean_mailboxes o k config healthy is remaining s)
    unfolding clean_mailboxes
    clean_mailboxes-Spends [] remaining s total h = omega (arith, h)
    clean_mailboxes-Spends (i ∷ is) remaining s total h =
        Spends-and_then deletions (λ r. r.1) (λ rs. 0) total
          (clean_mailbox o k config healthy i remaining s) _
          (clean_mailbox-Spends i remaining s total h)
          (λ r s' h'.
            Spends-and_then deletions (λ rs. 0) (λ rs. 0) total
              (clean_mailboxes o k config healthy is r.1 s') _
              (clean_mailboxes-Spends is r.1 s' total h') (λ rs s'' h''. h''))

    -- A run of the second loop of the cleaner, over all its mailboxes, deletes at most as many messages as
    -- it is given, however it ends: a deletion is a call of `permanently_delete` that returns, and
    -- building a purger is none.
    pub clean_mailboxes_budget :
        (is : List Inventory) (maximum : ℕ) (s : State W)
        → deletions (clean_mailboxes o k config healthy is maximum s).1.world
          ≤ deletions s.world + maximum
    clean_mailboxes_budget is maximum s =
        Spends-deletions deletions (λ rs. 0) _ (clean_mailboxes o k config healthy is maximum s)
          (clean_mailboxes-Spends is maximum s _ (omega arith))
