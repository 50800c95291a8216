-- ===== src/Security/Tests.antt =====
-- The theorems on security.py at concrete inputs.
use apple_mail_fast_mcp.Base.{
  ℕ, ◌*◌, ◌≤◌, String, ◌≡◌, ◌↔◌, ◌⊎◌, refl, arith, true, false, lookup, none, some, List, [], ◌∷◌,
  ◌++◌, length,
}
use apple_mail_fast_mcp.Text.{Text, Unicode, codes}
use apple_mail_fast_mcp.Security.RateLimit.{expire, admit, second, tier_limits, init, check}
use apple_mail_fast_mcp.Security.RateLimit.Refinement.{
  times_of, spec_check, run, Monotone, check-refines,
}
use apple_mail_fast_mcp.Security.RateLimit.Bound.{let_through, within, check_window_bound}
use apple_mail_fast_mcp.Security.Audit.{Entry, Globals, check_rate_limit}
use apple_mail_fast_mcp.Security.Audit.Limited.{HasDeques, Answers, check_rate_limit-Answers}
use apple_mail_fast_mcp.Security.Safety.{
  Environ, ScriptResult, Violation, is_test_mode_enabled, send_recipients_test_violation,
  check_test_mode_safety,
}
use apple_mail_fast_mcp.Security.Safety.Gate.{
  AreReserved, IsSafe, send_recipients_iff, check_test_mode_safety_decides,
}

-- Five calls of the `sends` tier within a minute, and one of another tier.
abbrev calls : List (String × ℕ)
calls =
    ("sends", 1 * second)
    ∷ ("sends", 2 * second)
    ∷ ("cheap_reads", 3 * second)
    ∷ ("sends", 4 * second)
    ∷ ("sends", 5 * second)
    ∷ ("sends", 62 * second)
    ∷ []

calls-Monotone : Monotone 0 calls
calls-Monotone =
    (omega arith, (omega arith, (omega arith, (omega arith, (omega arith, (omega arith, tt))))))

calls_answers :
    (run check calls init).0
    ≡ some true ∷ some true ∷ some true ∷ some true ∷ some false ∷ some true ∷ []
unfolding run check init admit expire
calls_answers = refl

sends-tier : lookup "sends" tier_limits ≡ some (3, 60 * second)
unfolding tier_limits
sends-tier = refl

check_window_bound_example :
    length (within 0 (60 * second) (times_of "sends" (let_through calls (run check calls init).0)))
    ≤ 3
check_window_bound_example =
    check_window_bound 0 calls "sends" 3 (60 * second) 0 calls-Monotone sends-tier

check-refines_example : (run check calls init).0 ≡ (run spec_check calls []).0
check-refines_example = check-refines 0 calls calls-Monotone

abbrev ascii : Unicode
ascii = record { lower_at = λ before c after. c ∷ [] }

abbrev test_mode : Environ
test_mode name = some (codes "true")

abbrev no_script : Text → ScriptResult
no_script name = ScriptResult.not_run

abbrev as_message : Violation → String
as_message v = "message"

send_recipients_iff_example :
    (send_recipients_test_violation ascii test_mode (codes "a@example.com" ∷ []) ≡ none) ↔ (
      (is_test_mode_enabled ascii test_mode ≡ true)
      → AreReserved ascii (codes "a@example.com" ∷ []))
send_recipients_iff_example = send_recipients_iff ascii test_mode (codes "a@example.com" ∷ [])

check_test_mode_safety_decides_example :
    let answer =
      check_test_mode_safety as_message ascii test_mode no_script "noon" "create_draft" none
        (some (codes "a@corp.com" ∷ []))
        none
        [] in
    let Safe =
      is_test_mode_enabled ascii test_mode ≡ true
      → IsSafe ascii test_mode no_script "create_draft" none
          (some (codes "a@corp.com" ∷ []))
          none in
    (Safe × (answer ≡ (none, [])))
    ⊎ (¬ Safe
        × ((v : Violation) × (entry : Entry String) × (answer ≡ (some v, [] ++ entry ∷ []))
            × (entry.operation ≡ "create_draft")
            × (entry.result ≡ "safety_violation")))
check_test_mode_safety_decides_example =
    check_test_mode_safety_decides as_message ascii test_mode no_script "noon" "create_draft" none
      (some (codes "a@corp.com" ∷ [])) none []

abbrev fresh_globals : Globals String
fresh_globals = record { windows = init; log = [] }

init-HasDeques : HasDeques init
unfolding init tier_limits
init-HasDeques tier known = ground arith

check_rate_limit-Answers_example :
    let r = check_rate_limit 5 "noon" "create_draft" "parameters" fresh_globals in
    Answers 5 "noon" "create_draft" "parameters" fresh_globals "sends" r
    × (r.1.windows ≡ (check "sends" 5 init).1)
    × HasDeques r.1.windows
check_rate_limit-Answers_example =
    check_rate_limit-Answers 5 "noon" "create_draft" "parameters" fresh_globals "sends"
      init-HasDeques refl
