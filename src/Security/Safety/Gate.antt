-- ===== src/Security/Safety/Gate.antt =====
-- What the gate of `check_test_mode_safety` lets through, and what it records of the rest.
use mathlib.Core.Option.{get_or}
use apple_mail_fast_mcp.Base.{
  String, ◌≡◌, ◌≢◌, refl, ◌↔◌, ◌⊎◌, inl, inr, true, Option, none, some, List, [], ◌∷◌, ◌++◌, arith,
  Bool-cases, Option-cases, is_empty-keep-not, all, All,
}
use apple_mail_fast_mcp.Text.{Text, Unicode, text_member}
use apple_mail_fast_mcp.Text.Search.{starts_with→append, starts_with-append}
use apple_mail_fast_mcp.Security.Audit.{Log, Entry, log_operation}
use apple_mail_fast_mcp.Security.Safety.{
  Environ, ScriptResult, Violation, is_account_gated, is_rule_gated, is_send, has_test_prefix,
  rule_test_prefix, is_test_mode_enabled, test_account_identifiers, is_reserved_test_domain,
  recipients_violation, send_recipients_test_violation, account_violation, rule_violation,
  send_violation, gate_violation, check_test_mode_safety,
}
use apple_mail_fast_mcp.Security.Safety.Reserved.{
  IsReserved, is_reserved_test_domain-IsReserved, IsReserved-is_reserved_test_domain,
}

module _ (u : Unicode) where
  -- There are recipients, and every one is an address reserved for tests.
  pub record AreReserved (recipients : List Text) : Type 0 where
    pub some_recipient : recipients ≢ []
    pub all_reserved : All (IsReserved u) recipients

  All-IsReserved :
      (rs : List Text) → all (is_reserved_test_domain u) rs ≡ true → All (IsReserved u) rs
  All-IsReserved [] h = tt
  All-IsReserved (r ∷ rs) h =
      (is_reserved_test_domain-IsReserved u r (ground arith), All-IsReserved rs (ground arith))

  all-is_reserved_test_domain :
      (rs : List Text) → All (IsReserved u) rs → all (is_reserved_test_domain u) rs ≡ true
  all-is_reserved_test_domain [] h = refl
  all-is_reserved_test_domain (r ∷ rs) h =
      rw (IsReserved-is_reserved_test_domain u r h.0) (all-is_reserved_test_domain rs h.1)

  recipients_violation-AreReserved :
      (o : Option String) (rs : List Text) → recipients_violation u o rs ≡ none → AreReserved rs
  unfolding recipients_violation
  recipients_violation-AreReserved o [] h = cc
  recipients_violation-AreReserved o (r ∷ rs) h = record {
    some_recipient = λ p. cc;
    all_reserved =
        All-IsReserved (r ∷ rs)
          (let e = is_empty-keep-not (is_reserved_test_domain u) (r ∷ rs) in ground (arith, e));
  }

  AreReserved-recipients_violation :
      (o : Option String) (rs : List Text) → AreReserved rs → recipients_violation u o rs ≡ none
  unfolding recipients_violation
  AreReserved-recipients_violation o [] h = absurd (h.some_recipient refl)
  AreReserved-recipients_violation o (r ∷ rs) h =
      let e = is_empty-keep-not (is_reserved_test_domain u) (r ∷ rs) in
      let a = all-is_reserved_test_domain (r ∷ rs) h.all_reserved in ground (arith, e, a)

  -- In test mode the guard at the transport returns no violation exactly if there are recipients
  -- and each is an address whose domain RFC 2606 reserves; outside test mode it never does.
  pub send_recipients_iff :
      (environ : Environ) (rs : List Text)
      → (send_recipients_test_violation u environ rs ≡ none)
        ↔ ((is_test_mode_enabled u environ ≡ true) → AreReserved rs)
  unfolding send_recipients_test_violation
  send_recipients_iff environ rs = (
    λ h on. recipients_violation-AreReserved none rs (rw on at h),
    λ h. elim (Bool-cases (is_test_mode_enabled u environ)) [
      | inl on ↦ rw on (AreReserved-recipients_violation none rs (h on))
      | inr off ↦ rw off refl
    ],
  )

  -- What a call in test mode must meet: a gated operation that names an account names the test
  -- account, a gated rule has the test prefix, and a send has reserved recipients alone.
  pub record IsSafe (environ : Environ) (script : Text → ScriptResult) (operation : String)
      (account : Option Text) (recipients : Option (List Text)) (rule_name : Option Text)
      : Type 0 where
    pub account_safe :
        (a : Text)
        → is_account_gated operation ≡ true
        → account ≡ some a
        → (t : Text) × (environ "MAIL_TEST_ACCOUNT" ≡ some t)
          × (text_member a (test_account_identifiers script t) ≡ true)
    pub rule_safe :
        (r : Text)
        → is_rule_gated operation ≡ true
        → rule_name ≡ some r
        → (rest : Text) × (r ≡ rule_test_prefix ++ rest)
    pub send_safe : is_send operation ≡ true → AreReserved (get_or recipients [])

has_test_prefix-append : (r rest : Text) → r ≡ rule_test_prefix ++ rest → has_test_prefix r ≡ true
unfolding has_test_prefix
has_test_prefix-append r rest e = rw e (starts_with-append rule_test_prefix rest)

module _ (u : Unicode) (environ : Environ) (script : Text → ScriptResult) (operation : String) where
  account_violation-none :
      (account : Option Text) (a : Text)
      → account_violation environ script operation account ≡ none
      → is_account_gated operation ≡ true
      → account ≡ some a
      → (t : Text) × (environ "MAIL_TEST_ACCOUNT" ≡ some t)
        × (text_member a (test_account_identifiers script t) ≡ true)
  unfolding account_violation
  account_violation-none none a h gated p = cc
  account_violation-none (some a') a h gated p = elim (Option-cases (environ "MAIL_TEST_ACCOUNT")) [
    | inl unset ↦ ground arith
    | inr (t, e) ↦ (t, e, ground arith)
  ]

  rule_violation-none :
      (rule_name : Option Text) (r : Text)
      → rule_violation operation rule_name ≡ none
      → is_rule_gated operation ≡ true
      → rule_name ≡ some r
      → (rest : Text) × (r ≡ rule_test_prefix ++ rest)
  unfolding rule_violation
  rule_violation-none none r h gated p = cc
  rule_violation-none (some r') r h gated p =
      let prefixed : has_test_prefix r ≡ true = ground arith in
      starts_with→append r rule_test_prefix (unfold has_test_prefix in prefixed)

  send_violation-none :
      (recipients : Option (List Text))
      → send_violation u operation recipients ≡ none
      → is_send operation ≡ true
      → AreReserved u (get_or recipients [])
  unfolding send_violation
  send_violation-none recipients h sends =
      recipients_violation-AreReserved u (some operation) (get_or recipients []) (rw sends at h)

  account_safe-none :
      (account : Option Text)
      → ((a : Text)
          → is_account_gated operation ≡ true
          → account ≡ some a
          → (t : Text) × (environ "MAIL_TEST_ACCOUNT" ≡ some t)
            × (text_member a (test_account_identifiers script t) ≡ true))
      → account_violation environ script operation account ≡ none
  unfolding account_violation
  account_safe-none none s = refl
  account_safe-none (some a) s = elim (Bool-cases (is_account_gated operation)) [
    | inl gated ↦ let (t, e, m) = s a gated refl in rw (gated, e, m) refl
    | inr free ↦ rw free refl
  ]

  rule_safe-none :
      (rule_name : Option Text)
      → ((r : Text)
          → is_rule_gated operation ≡ true
          → rule_name ≡ some r
          → (rest : Text) × (r ≡ rule_test_prefix ++ rest))
      → rule_violation operation rule_name ≡ none
  unfolding rule_violation
  rule_safe-none none s = refl
  rule_safe-none (some r) s = elim (Bool-cases (is_rule_gated operation)) [
    | inl gated ↦ let (rest, e) = s r gated refl in rw (gated, has_test_prefix-append r rest e) refl
    | inr free ↦ rw free refl
  ]

  send_safe-none :
      (recipients : Option (List Text))
      → (is_send operation ≡ true → AreReserved u (get_or recipients []))
      → send_violation u operation recipients ≡ none
  unfolding send_violation
  send_safe-none recipients s = elim (Bool-cases (is_send operation)) [
    | inl sends ↦ rw sends (AreReserved-recipients_violation u (some operation) _ (s sends))
    | inr free ↦ rw free refl
  ]

  -- Without a violation the call is safe.
  gate_violation-none :
      (account : Option Text) (recipients : Option (List Text)) (rule_name : Option Text)
      → gate_violation u environ script operation account recipients rule_name ≡ none
      → is_test_mode_enabled u environ ≡ true
      → IsSafe u environ script operation account recipients rule_name
  unfolding gate_violation
  gate_violation-none account recipients rule_name h on = record {
    account_safe = λ a. account_violation-none account a (ground arith);
    rule_safe = λ r. rule_violation-none rule_name r (ground arith);
    send_safe = send_violation-none recipients (ground arith);
  }

  -- A safe call has no violation.
  IsSafe-gate_violation :
      (account : Option Text) (recipients : Option (List Text)) (rule_name : Option Text)
      → (is_test_mode_enabled u environ ≡ true
          → IsSafe u environ script operation account recipients rule_name)
      → gate_violation u environ script operation account recipients rule_name ≡ none
  unfolding gate_violation
  IsSafe-gate_violation account recipients rule_name s =
      elim (Bool-cases (is_test_mode_enabled u environ)) [
        | inl on ↦
            let safe = s on in
            rw
              (
                on,
                account_safe-none account safe.account_safe,
                rule_safe-none rule_name safe.rule_safe,
                send_safe-none recipients safe.send_safe,
              )
              refl
        | inr off ↦ rw off refl
      ]

module _ {P : Type 0} (as_parameters : Violation → P) where
  -- The gate decides safety. Outside test mode, or where the call is safe, it returns nothing and
  -- leaves the audit log alone; otherwise it returns a violation, and the log has one entry more,
  -- which is for this operation and has the result `safety_violation`.
  pub check_test_mode_safety_decides :
      (u : Unicode) (environ : Environ) (script : Text → ScriptResult) (now operation : String)
      (account : Option Text) (recipients : Option (List Text)) (rule_name : Option Text)
      (log : Log P)
      → let answer =
          check_test_mode_safety as_parameters u environ script now operation account recipients
            rule_name log in
        let Safe =
          is_test_mode_enabled u environ ≡ true
          → IsSafe u environ script operation account recipients rule_name in
        (Safe × (answer ≡ (none, log)))
        ⊎ (¬ Safe
            × ((v : Violation) × (entry : Entry P) × (answer ≡ (some v, log ++ entry ∷ []))
                × (entry.operation ≡ operation)
                × (entry.result ≡ "safety_violation")))
  unfolding check_test_mode_safety log_operation
  check_test_mode_safety_decides u environ script now operation account recipients rule_name log =
      elim (Option-cases (gate_violation u environ script operation account recipients rule_name)) [
        | inl clear ↦ inl (
          gate_violation-none u environ script operation account recipients rule_name clear,
          rw (clear, check_test_mode_safety) refl,
        )
        | inr (v, e) ↦ inr (
          λ s.
              (let c =
                  IsSafe-gate_violation u environ script operation account recipients rule_name s in
                cc),
          (
            v,
            record {
              timestamp = now;
              operation = operation;
              parameters = as_parameters v;
              result = "safety_violation";
            },
            rw (e, check_test_mode_safety) refl,
            refl,
            refl,
          ),
        )
      ]
