-- ===== src/Security/Audit.antt =====
-- `class OperationLogger` and `check_rate_limit` of security.py. The parameters of an operation are
-- any type; the time stamp is what the clock printed.
pub mod Limited
use apple_mail_fast_mcp.Base.{
  ℕ, zero, suc, ◌-◌, String, Bool, true, false, Option, none, some, List, [], ◌∷◌, ◌++◌, length,
  drop, lookup,
}
use apple_mail_fast_mcp.Security.RateLimit.{Windows, tier_limits, check}

pub record Entry (P : Type 0) : Type 0 where
  pub timestamp : String
  pub operation : String
  pub parameters : P
  pub result : String

abbrev pub Log : Type 0 → Type 0
Log P = List (Entry P)

-- A Python integer; `negative n` is -(n + 1).
pub data Count : Type 0 where
  natural negative : ℕ → Count

module _ {P : Type 0} where
  -- `OperationLogger.log_operation`
  unfoldable pub log_operation : String → String → P → String → Log P → Log P
  log_operation now operation parameters result log =
      log
      ++ record { timestamp = now; operation = operation; parameters = parameters; result = result }
        ∷ []

  -- `OperationLogger.get_recent_operations`: the slice `[-limit:]`
  unfoldable pub get_recent_operations : Count → Log P → Log P
  get_recent_operations (Count.natural zero) log = log
  get_recent_operations (Count.natural (suc n)) log = drop (length log - suc n) log
  get_recent_operations (Count.negative n) log = drop (suc n) log

-- `OPERATION_TIERS`
abbrev pub operation_tiers : List (String × String)
operation_tiers =
    ("search_metadata", "metadata_reads")
    ∷ ("list_accounts", "cheap_reads")
    ∷ ("list_rules", "cheap_reads")
    ∷ ("list_mailboxes", "cheap_reads")
    ∷ ("get_messages", "cheap_reads")
    ∷ ("inspect_draft", "cheap_reads")
    ∷ ("get_thread", "cheap_reads")
    ∷ ("save_attachments", "cheap_reads")
    ∷ ("get_attachment_content", "cheap_reads")
    ∷ ("search_messages", "expensive_ops")
    ∷ ("get_statistics", "expensive_ops")
    ∷ ("update_message", "expensive_ops")
    ∷ ("create_mailbox", "expensive_ops")
    ∷ ("update_mailbox", "expensive_ops")
    ∷ ("delete_mailbox", "expensive_ops")
    ∷ ("delete_messages", "expensive_ops")
    ∷ ("delete_rule", "expensive_ops")
    ∷ ("create_rule", "expensive_ops")
    ∷ ("update_rule", "expensive_ops")
    ∷ ("create_draft", "sends")
    ∷ ("update_draft", "sends")
    ∷ ("delete_draft", "expensive_ops")
    ∷ ("list_templates", "cheap_reads")
    ∷ ("get_template", "cheap_reads")
    ∷ ("save_template", "cheap_reads")
    ∷ ("delete_template", "cheap_reads")
    ∷ ("render_template", "cheap_reads")
    ∷ []

-- The process-wide `rate_limiter` and `operation_logger`.
pub record Globals (P : Type 0) : Type 0 where
  pub windows : Windows
  pub log : Log P

-- What `check_rate_limit` returns or raises; `limited` stands for the error dict, by the values
-- that its message shows.
pub data Verdict : Type 0 where
  allowed : Verdict
  limited : ℕ → ℕ → String → Verdict
  key_error : Verdict

module _ {P : Type 0} where
  -- The rest of `check_rate_limit`, once `rate_limiter.check(tier)` has answered.
  answer : String → String → P → String → Option Bool → Globals P → Verdict × Globals P
  unfolding log_operation
  answer now operation params tier none g = (Verdict.key_error, g)
  answer now operation params tier (some true) g = (Verdict.allowed, g)
  answer now operation params tier (some false) g = elim (lookup tier tier_limits) [
    | none ↦ (Verdict.key_error, g)
    | some (max_calls, window) ↦ (
      Verdict.limited max_calls window tier,
      record g { log = log_operation now operation params "rate_limited" g.log },
    )
  ]

  -- `check_rate_limit`, at a reading of the clock and its printed form
  unfoldable pub check_rate_limit : ℕ → String → String → P → Globals P → Verdict × Globals P
  unfolding answer
  check_rate_limit time now operation params g = elim (lookup operation operation_tiers) [
    | none ↦ (Verdict.key_error, g)
    | some tier ↦
        let (allowed?, windows') = check tier time g.windows in
        answer now operation params tier allowed? (record g { windows = windows' })
  ]
