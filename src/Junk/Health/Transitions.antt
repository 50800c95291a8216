-- ===== src/Junk/Health/Transitions.antt =====
-- When a check of the providers notifies.
use apple_mail_fast_mcp.Base.{
  ℕ, ◌≡◌, refl, ap, ◌∙◌, inl, inr, Bool-cases, Bool, true, false, ◌&&◌, ◌||◌, not, Option, none,
  some, List, [], ◌∷◌, arith, All, is_empty, take, if◌then◌else◌,
}
use apple_mail_fast_mcp.Text.{Text, text_eq}
use apple_mail_fast_mcp.Text.Search.{text_eq→eq, text_eq_refl, text_eq-sym}
use apple_mail_fast_mcp.Junk.Campaigns.{ProviderHealth, upsert, health_of, record_provider_health}
use apple_mail_fast_mcp.Junk.Cleaner.{ProviderAccount, returned, and_then}
use apple_mail_fast_mcp.Junk.Cleaner.Run.{State}
use apple_mail_fast_mcp.Junk.Health.{
  HealthCheck, passed, caught, HealthResult, HealthReport, transition_of, record_health, check_one,
  check_all, failed_accounts, recovered_accounts, sorted_items, check_provider_health,
}

module _ (a b : Text) (healthy : Bool) (update : ProviderHealth → ProviderHealth)
    (new : ProviderHealth) where
  health_of-upsert :
      ((r : ProviderHealth) → (update r).account ≡ r.account)
      → ((r : ProviderHealth) → (update r).healthy ≡ healthy)
      → new.account ≡ b
      → new.healthy ≡ healthy
      → (rows : List ProviderHealth)
      → health_of a (upsert (λ r. text_eq r.account b) update new rows)
        ≡ (if text_eq b a then some healthy else health_of a rows)
  unfolding upsert health_of
  health_of-upsert ua uh na nh [] = rw (na, nh) refl
  health_of-upsert ua uh na nh (r ∷ rows) = elim (Bool-cases (text_eq r.account b)) [
    | inl same ↦
        let p = text_eq→eq r.account b same in
        elim (Bool-cases (text_eq b a)) [
          | inl e ↦ rw (same, ua r, uh r, p, e) refl
          | inr e ↦ rw (same, ua r, p, e) refl
        ]
    | inr differs ↦
        let rest = health_of-upsert ua uh na nh rows in
        elim (Bool-cases (text_eq r.account a)) [
          | inl e ↦
              let p = text_eq→eq r.account a e in
              rw (differs, e) (let apart = text_eq-sym b a in ground (arith, apart, differs, p))
          | inr e ↦ rw (differs, e) rest
        ]
  ]

-- No result is a change.
abbrev pub Quiet : List HealthResult → Type 0
Quiet rs = All (λ r. r.transition ≡ none) rs

failed_accounts-Quiet : (rs : List HealthResult) → Quiet rs → failed_accounts rs ≡ []
unfolding failed_accounts
failed_accounts-Quiet [] q = refl
failed_accounts-Quiet (r ∷ rs) q = rw q.0 (failed_accounts-Quiet rs q.1)

recovered_accounts-Quiet : (rs : List HealthResult) → Quiet rs → recovered_accounts rs ≡ []
unfolding recovered_accounts
recovered_accounts-Quiet [] q = refl
recovered_accounts-Quiet (r ∷ rs) q = rw q.0 (recovered_accounts-Quiet rs q.1)

abbrev report : Bool → List HealthResult → HealthReport
report has_notifier results = record {
  results = results;
  notified =
      if has_notifier
        && (not (is_empty (failed_accounts results)) || not (is_empty (recovered_accounts results)))
      then some (failed_accounts results, recovered_accounts results)
      else none;
}

report-Quiet :
    (has_notifier : Bool) (rs : List HealthResult)
    → Quiet rs
    → (report has_notifier rs).notified ≡ none
report-Quiet true rs q = rw (failed_accounts-Quiet rs q, recovered_accounts-Quiet rs q) refl
report-Quiet false rs q = refl

transition_of_same : (h : Bool) → transition_of (some h) h ≡ none
unfolding transition_of
transition_of_same true = refl
transition_of_same false = refl

-- The checks have one outcome per account, whenever they are made, and change nothing outside.
pub record IsSteady {W : Type 0}
    (check : Text → ProviderAccount → Option Text → W → HealthCheck × W) (well : Text → Bool)
    (detail : Text → Text) : Type 0 where
  pub outcome :
      (account : Text) (p : ProviderAccount) (m : Option Text) (w : W)
      → check account p m w ≡ ((if well account then passed else caught (detail account)), w)

module _ {W : Type 0} (check : Text → ProviderAccount → Option Text → W → HealthCheck × W)
    (clock : W → ℕ) (mailbox_of : Text → Option Text) (well : Text → Bool) (detail : Text → Text)
    (steady : IsSteady check well detail) where
  -- The state on record of an account is the one that its checks find.
  abbrev pub Known : State W → Text → Type 0
  Known s account = health_of account s.store.health ≡ some (well account)

  record One (account : Text) (s : State W) : Type 0 where
    result : HealthResult
    after : State W
    transition : result.transition ≡ transition_of (health_of account s.store.health) (well account)
    health :
        (b : Text)
        → health_of b after.store.health
          ≡ (if text_eq account b then some (well account) else health_of b s.store.health)

  record_health-One :
      (account d : Text) (s : State W)
      → (one : One account s) × (record_health check clock mailbox_of account (well account) d s
          ≡ (returned one.result, one.after))
  unfolding record_health record_provider_health
  record_health-One account d s = (
    record {
      result = _;
      after = _;
      transition = refl;
      health = λ b.
          health_of-upsert b account (well account) _ _ (λ r. refl) (λ r. refl) refl refl
            s.store.health;
    },
    refl,
  )

  check_one-up :
      (account : Text) (p : ProviderAccount) (s : State W)
      → well account ≡ true
      → check_one check clock mailbox_of (account, p) s
        ≡ record_health check clock mailbox_of account (well account) [] s
  unfolding check_one
  check_one-up account p s up =
      let out = steady.outcome account p (mailbox_of account) s.world in
      let how : (check account p (mailbox_of account) s.world).0 ≡ passed =
        ap (λ r. r.0) out ∙ rw up refl in
      rw (how, ap (λ r. r.1) out, up, check_one) refl

  check_one-down :
      (account : Text) (p : ProviderAccount) (s : State W)
      → well account ≡ false
      → check_one check clock mailbox_of (account, p) s
        ≡ record_health check clock mailbox_of account (well account) (take 500 (detail account)) s
  unfolding check_one
  check_one-down account p s down =
      let out = steady.outcome account p (mailbox_of account) s.world in
      let how : (check account p (mailbox_of account) s.world).0 ≡ caught (detail account) =
        ap (λ r. r.0) out ∙ rw down refl in
      rw (how, ap (λ r. r.1) out, down, check_one) refl

  check_one-One :
      (e : Text × ProviderAccount) (s : State W)
      → (one : One e.0 s) × (check_one check clock mailbox_of e s
          ≡ (returned one.result, one.after))
  check_one-One (account, p) s = elim (Bool-cases (well account)) [
    | inl up ↦
        let (one, r) = record_health-One account [] s in (one, check_one-up account p s up ∙ r)
    | inr down ↦
        let (one, r) = record_health-One account (take 500 (detail account)) s in
        (one, check_one-down account p s down ∙ r)
  ]

  -- What a round over some accounts leaves: it knows them, it forgets none, and it finds no change
  -- where it knew them all.
  record Round (es : List (Text × ProviderAccount)) (s : State W) : Type 0 where
    results : List HealthResult
    after : State W
    forgets_none : (b : Text) → Known s b → Known after b
    known : All (λ e. Known after e.0) es
    quiet : All (λ e. Known s e.0) es → Quiet results

  One-Known : (a : Text) (s : State W) (one : One a s) → Known one.after a
  One-Known a s one = one.health a ∙ rw (text_eq_refl a) refl

  One-forgets_none : (a b : Text) (s : State W) (one : One a s) → Known s b → Known one.after b
  One-forgets_none a b s one h = elim (Bool-cases (text_eq a b)) [
    | inl same ↦ let p = text_eq→eq a b same in one.health b ∙ rw (same, p) refl
    | inr differs ↦ one.health b ∙ rw differs h
  ]

  All-Known :
      (es : List (Text × ProviderAccount)) (s s' : State W)
      → ((b : Text) → Known s b → Known s' b)
      → All (λ e. Known s e.0) es
      → All (λ e. Known s' e.0) es
  All-Known [] s s' f h = tt
  All-Known (e ∷ es) s s' f h = (f e.0 h.0, All-Known es s s' f h.1)

  check_all-Round :
      (es : List (Text × ProviderAccount)) (s : State W)
      → (round : Round es s) × (check_all check clock mailbox_of es s
          ≡ (returned round.results, round.after))
  unfolding check_all
  check_all-Round [] s = (
    record { results = []; after = s; forgets_none = λ b h. h; known = tt; quiet = λ h. tt },
    refl,
  )
  check_all-Round (e ∷ es) s =
      let (one, r) = check_one-One e s in
      let (round, q) = check_all-Round es one.after in
      let keeps = λ (b : Text) (h : Known s b). One-forgets_none e.0 b s one h in
      (
        record {
          results = one.result ∷ round.results;
          after = round.after;
          forgets_none = λ b h. round.forgets_none b (keeps b h);
          known = (round.forgets_none e.0 (One-Known e.0 s one), round.known);
          quiet = λ h. (
            one.transition ∙ rw h.0 (transition_of_same (well e.0)),
            round.quiet (All-Known es s one.after keeps h.1),
          );
        },
        rw (r, and_then, q) refl,
      )

  check_provider_health-Round :
      (providers : List (Text × ProviderAccount)) (has_notifier : Bool) (s : State W)
      → (round : Round (sorted_items providers) s) × (check_provider_health check clock mailbox_of
            providers has_notifier s
          ≡ (returned (report has_notifier round.results), round.after))
  unfolding check_provider_health
  check_provider_health-Round providers has_notifier s =
      let (round, q) = check_all-Round (sorted_items providers) s in (round, rw (q, and_then) refl)

  -- Where each account's check has one outcome, a check of all providers that follows another one
  -- returns, and notifies nobody, whatever was on record before.
  pub check_provider_health_again :
      (providers : List (Text × ProviderAccount)) (has_notifier : Bool) (s : State W)
      → let (first, s') = check_provider_health check clock mailbox_of providers has_notifier s in
        (again : HealthReport) × ((check_provider_health check clock mailbox_of providers
            has_notifier s').0
          ≡ returned again)
        × (again.notified ≡ none)
  check_provider_health_again providers has_notifier s =
      let (one, p) = check_provider_health-Round providers has_notifier s in
      let (two, q) = check_provider_health-Round providers has_notifier one.after in
      (
        report has_notifier two.results,
        ap (λ r. (check_provider_health check clock mailbox_of providers has_notifier r.1).0) p
            ∙ ap (λ r. r.0) q,
        report-Quiet has_notifier two.results (two.quiet one.known),
      )
