-- ===== src/Junk/Cleaner/Observe.antt =====
-- What a run in the mode `observe` does: it reports, and touches nothing outside the database.
use Prim.Native.Nat.{min}
use apple_mail_fast_mcp.Base.{
  ℕ, ◌+◌, ◌≡◌, refl, ap, ◌∙◌, true, List, [], ◌∷◌, arith, length, take, length-take, str_eq,
}
use apple_mail_fast_mcp.Text.{Text, codes}
use apple_mail_fast_mcp.Junk.Evidence.{JunkMessage}
use apple_mail_fast_mcp.Junk.Cleaner.{ProviderAccount, JunkCleanerConfig, returned, Outside}
use apple_mail_fast_mcp.Junk.Cleaner.Run.{State, Progress, recorded, process, process_candidates}

module _ {W P : Type 0} (o : Outside W P) (config : JunkCleanerConfig) (provider : ProviderAccount)
    (source_mailbox : Text) (observe : str_eq config.mode "observe" ≡ true) where
  pub process-observe :
      (message : JunkMessage) (messages : List JunkMessage) (p : Progress P) (s : State W)
      → process o config provider source_mailbox (message ∷ messages) p s
        ≡ process o config provider source_mailbox messages
            (record p { reported = p.reported + 1 })
            (recorded o message (codes "observed") [] s)
  unfolding process
  process-observe message messages p s = rw (observe, process) refl

  process_reports :
      (messages : List JunkMessage) (p : Progress P) (s : State W)
      → (s' : State W) × (process o config provider source_mailbox messages p s
          ≡ (returned (record p { reported = p.reported + length messages }), s'))
        × (s'.world ≡ s.world)
  process_reports [] p s =
      let same : p.reported ≡ p.reported + 0 = omega arith in
      (s, unfold process in ap (λ n. (returned (record p { reported = n }), s)) same, refl)
  process_reports (message ∷ messages) p s =
      let (s', r, w) =
        process_reports messages (record p { reported = p.reported + 1 })
          (recorded o message (codes "observed") [] s) in
      let same : p.reported + 1 + length messages ≡ p.reported + length (message ∷ messages) =
        omega arith in
      (
        s',
        process-observe message messages p s
            ∙ r
            ∙ ap (λ n. (returned (record p { reported = n }), s')) same,
        w,
      )

  -- In the mode `observe` nothing outside the database is touched: candidates up to the limit on
  -- deletions are reported, nothing is deleted, nothing fails, and the limit is not used up.
  pub process_candidates-observe :
      (candidates : List JunkMessage) (remaining : ℕ) (s : State W)
      → (p : Progress P) × (s' : State W) × (process_candidates o config provider source_mailbox
            candidates remaining s
          ≡ (returned p, s'))
        × (s'.world ≡ s.world)
        × (p.reported ≡ min remaining (length candidates))
        × (p.deleted_total ≡ 0)
        × (p.failed ≡ 0)
        × (p.deletions_remaining ≡ remaining)
  unfolding process_candidates
  process_candidates-observe candidates remaining s =
      let (s', r, w) = process_reports (take remaining candidates) _ s in
      let short = length-take remaining candidates in
      (_, s', r, w, omega (arith, short), refl, refl, refl)
