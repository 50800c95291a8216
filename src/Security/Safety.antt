-- ===== src/Security/Safety.antt =====
-- The test-mode gate of security.py: which accounts, rules and recipients a test run may touch.
pub mod Reserved
pub mod Gate
use mathlib.Core.Option.{get_or}
use apple_mail_fast_mcp.Base.{
  ℕ, String, Bool, true, false, not, ◌&&◌, ◌||◌, Option, none, some, List, [], ◌∷◌, ◌++◌, ◌==◌,
  is_empty, keep, any, member, if◌then◌else◌,
}
use apple_mail_fast_mcp.Text.{
  Text, Unicode, codes, text_eq, text_member, starts_with, ends_with, lower, strip, lstrip,
  after_last,
}
use apple_mail_fast_mcp.Security.Audit.{Log, log_operation}

-- `os.environ.get(name)`
abbrev pub Environ : Type 0
Environ = String → Option Text

-- How `osascript` ended: it was not found or timed out, or it left an exit code and its output.
pub data ScriptResult : Type 0 where
  not_run : ScriptResult
  finished : ℕ → Text → ScriptResult

-- The messages of `_safety_error`, by the values that they show.
pub data Violation : Type 0 where
  account_unset : Violation
  wrong_account : Text → Text → Violation
  rule_not_test : Text → Violation
  no_recipients : Option String → Violation
  bad_recipients : List Text → Violation

abbrev pub reserved_test_domains : List Text
reserved_test_domains = codes "example.com" ∷ codes "example.net" ∷ codes "example.org" ∷ []

abbrev pub reserved_test_tlds : List Text
reserved_test_tlds = codes ".example" ∷ codes ".test" ∷ codes ".invalid" ∷ codes ".localhost" ∷ []

abbrev pub account_gated_operations : List String
account_gated_operations =
    "list_mailboxes" ∷ "search_messages" ∷ "update_message" ∷ "create_mailbox" ∷ "delete_messages"
    ∷ []

abbrev pub send_operations : List String
send_operations = "create_draft" ∷ "update_draft" ∷ []

abbrev pub rule_gated_operations : List String
rule_gated_operations = "create_rule" ∷ "update_rule" ∷ "delete_rule" ∷ []

abbrev pub rule_test_prefix : Text
rule_test_prefix = codes "[apple-mail-fast-mcp-test]"

-- The membership tests of `check_test_mode_safety`
unfoldable pub is_account_gated : String → Bool
is_account_gated operation = member operation account_gated_operations

unfoldable pub is_rule_gated : String → Bool
is_rule_gated operation = member operation rule_gated_operations

unfoldable pub is_send : String → Bool
is_send operation = member operation send_operations

unfoldable pub has_test_prefix : Text → Bool
has_test_prefix rule_name = starts_with rule_name rule_test_prefix

-- `_is_test_mode_enabled`
unfoldable pub is_test_mode_enabled : Unicode → Environ → Bool
is_test_mode_enabled u environ = elim (environ "MAIL_TEST_MODE") [
  | none ↦ text_eq (lower u []) (codes "true")
  | some value ↦ text_eq (lower u value) (codes "true")
]

-- `_get_test_account_identifiers`; the script's result is that of the first call, which the cache
-- keeps.
unfoldable pub test_account_identifiers : (Text → ScriptResult) → Text → List Text
test_account_identifiers script name = elim (script name) [
  | not_run ↦ name ∷ []
  | finished exit_code output ↦
      if exit_code == 0
      then (let uuid = strip output in if is_empty uuid then name ∷ [] else name ∷ uuid ∷ [])
      else name ∷ []
]

-- One round of the loop over `RESERVED_TEST_TLDS`
unfoldable pub under_tld : Text → Text → Bool
under_tld domain tld =
    let bare = lstrip (λ c. c == b'.') tld in text_eq domain bare || ends_with domain tld

unfoldable pub is_reserved_domain : Text → Bool
is_reserved_domain domain =
    text_member domain reserved_test_domains || any (under_tld domain) reserved_test_tlds

-- `_is_reserved_test_domain`
unfoldable pub is_reserved_test_domain : Unicode → Text → Bool
unfolding is_reserved_domain
is_reserved_test_domain u email = elim (after_last b'@' email) [
  | none ↦ false
  | some rest ↦ is_reserved_domain (lower u rest)
]

-- The part that the gate and the guard at the transport share: there are recipients, and all are
-- reserved for tests. The gate's message names the operation.
recipients_violation : Unicode → Option String → List Text → Option Violation
recipients_violation u operation recipients =
    if is_empty recipients
    then some (no_recipients operation)
    else let bad = keep (λ r. not (is_reserved_test_domain u r)) recipients in
      if is_empty bad then none else some (bad_recipients bad)

-- `send_recipients_test_violation`
unfoldable pub send_recipients_test_violation : Unicode → Environ → List Text → Option Violation
unfolding recipients_violation
send_recipients_test_violation u environ recipients =
    if is_test_mode_enabled u environ then recipients_violation u none recipients else none

-- The three checks of `check_test_mode_safety`, each with the violation that it returns.
account_violation : Environ → (Text → ScriptResult) → String → Option Text → Option Violation
account_violation environ script operation none = none
account_violation environ script operation (some account) =
    if is_account_gated operation
    then elim (environ "MAIL_TEST_ACCOUNT") [
      | none ↦ some account_unset
      | some test_account ↦
          if text_member account (test_account_identifiers script test_account)
          then none
          else some (wrong_account account test_account)
    ]
    else none

rule_violation : String → Option Text → Option Violation
rule_violation operation none = none
rule_violation operation (some rule_name) =
    if is_rule_gated operation && not (has_test_prefix rule_name)
    then some (rule_not_test rule_name)
    else none

send_violation : Unicode → String → Option (List Text) → Option Violation
unfolding recipients_violation
send_violation u operation recipients =
    if is_send operation
    then recipients_violation u (some operation) (get_or recipients [])
    else none

-- The first of the checks that returns a violation ends the function.
abbrev pub or_else : Option Violation → Option Violation → Option Violation
or_else none w = w
or_else (some v) w = some v

gate_violation :
    Unicode
    → Environ
    → (Text → ScriptResult)
    → String
    → Option Text
    → Option (List Text)
    → Option Text
    → Option Violation
gate_violation u environ script operation account recipients rule_name =
    if is_test_mode_enabled u environ
    then or_else (account_violation environ script operation account)
        (or_else (rule_violation operation rule_name) (send_violation u operation recipients))
    else none

module _ {P : Type 0} (as_parameters : Violation → P) where
  -- `_safety_error`
  unfoldable pub safety_error : String → String → Violation → Log P → Option Violation × Log P
  safety_error now operation message log =
      (some message, log_operation now operation (as_parameters message) "safety_violation" log)

  -- `check_test_mode_safety`
  unfoldable pub check_test_mode_safety :
      Unicode
      → Environ
      → (Text → ScriptResult)
      → String
      → String
      → Option Text
      → Option (List Text)
      → Option Text
      → Log P
      → Option Violation × Log P
  unfolding gate_violation account_violation rule_violation send_violation safety_error
  check_test_mode_safety u environ script now operation account recipients rule_name log =
      elim (gate_violation u environ script operation account recipients rule_name) [
        | none ↦ (none, log)
        | some message ↦ safety_error now operation message log
      ]
