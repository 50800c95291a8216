-- ===== src/Security/Audit/Limited.antt =====
-- What `check_rate_limit` does for the operations of the table, and what it logs.
use apple_mail_fast_mcp.Base.{
  ℕ, String, ◌≡◌, refl, sym, ap, ◌∙◌, ◌⊎◌, inl, inr, Bool, true, false, Option, none, some, List,
  [], ◌∷◌, ◌++◌, arith, all, lookup, lookup-insert, insert, str_eq, Bool-cases,
}
use apple_mail_fast_mcp.Security.RateLimit.{Windows, tier_limits, expire, admit, check}
use apple_mail_fast_mcp.Security.Audit.{
  Entry, log_operation, operation_tiers, Globals, Verdict, allowed, limited, answer,
  check_rate_limit,
}

abbrev is_some : {A : Type 0} → Option A → Bool
is_some none = false
is_some (some a) = true

-- Each tier has its deque, as `RateLimiter.__init__` sets it up.
abbrev pub HasDeques : Windows → Type 0
HasDeques windows =
    (tier : String)
    → is_some (lookup tier tier_limits) ≡ true
    → is_some (lookup tier windows) ≡ true

is_some-lookup :
    (op tier : String) (table : List (String × String))
    → all (λ e. is_some (lookup e.1 tier_limits)) table ≡ true
    → lookup op table ≡ some tier
    → is_some (lookup tier tier_limits) ≡ true
is_some-lookup op tier [] h e = cc
is_some-lookup op tier ((k, t) ∷ table) h e = elim (Bool-cases (str_eq k op)) [
  | inl same ↦
      let p : some t ≡ some tier = rw same at e in
      let head : is_some (lookup t tier_limits) ≡ true = ground arith in cc
  | inr differs ↦ is_some-lookup op tier table (ground arith) (rw differs at e)
]

operation_tiers-limits : all (λ e. is_some (lookup e.1 tier_limits)) operation_tiers ≡ true
unfolding tier_limits
operation_tiers-limits = refl

is_some-some : {A : Type 0} (o : Option A) → is_some o ≡ true → (a : A) × (o ≡ some a)
is_some-some none h = cc
is_some-some (some a) h = (a, refl)

-- A tier keeps its deque when another one's, or its own, is written.
HasDeques-insert :
    (windows : Windows) (tier : String) (q : List ℕ)
    → HasDeques windows
    → HasDeques (insert tier q windows)
HasDeques-insert windows tier q h t known = elim (Bool-cases (str_eq tier t)) [
  | inl same ↦ rw (lookup-insert, same) refl
  | inr differs ↦ rw (lookup-insert, differs) (h t known)
]

module _ {P : Type 0} (time : ℕ) (now operation : String) (params : P) (g : Globals P) where
  -- `check` lets the call through, it is allowed and nothing is logged; or `check` does not, it is
  -- refused with the limits of its tier, and one entry is logged, for the operation and with the result
  -- `rate_limited`.
  abbrev pub Answers : String → Verdict × Globals P → Type 0
  Answers tier r =
      (((check tier time g.windows).0 ≡ some true) × (r.0 ≡ allowed) × (r.1.log ≡ g.log))
      ⊎ ((m : ℕ) × (w : ℕ) × (entry : Entry P) × ((check tier time g.windows).0 ≡ some false)
          × (lookup tier tier_limits ≡ some (m, w))
          × (r.0 ≡ limited m w tier)
          × (r.1.log ≡ g.log ++ entry ∷ [])
          × (entry.operation ≡ operation)
          × (entry.result ≡ "rate_limited"))

  answer-Answers :
      (tier : String) (m w : ℕ) (allows : Bool) (windows' : Windows)
      → lookup tier tier_limits ≡ some (m, w)
      → (check tier time g.windows).0 ≡ some allows
      → Answers tier
          (answer now operation params tier (some allows) (record g { windows = windows' }))
  unfolding answer log_operation
  answer-Answers tier m w true windows' known c = inl (c, refl, refl)
  answer-Answers tier m w false windows' known c = inr (
    m,
    w,
    record { timestamp = now; operation = operation; parameters = params; result = "rate_limited" },
    c,
    known,
    rw (known, answer) refl,
    rw (known, answer) refl,
    refl,
    refl,
  )

  check-known :
      (tier : String) (m w : ℕ) (q : List ℕ)
      → lookup tier tier_limits ≡ some (m, w)
      → lookup tier g.windows ≡ some q
      → (allows : Bool) × (q' : List ℕ) × (check tier time g.windows
          ≡ (some allows, insert tier q' g.windows))
  unfolding check
  check-known tier m w q known found =
      let (allows, q') = admit m time (expire w time q) in
      (allows, q', rw (known, found, check) refl)

  check_rate_limit-tier :
      (tier : String) (allows : Bool) (windows' : Windows)
      → lookup operation operation_tiers ≡ some tier
      → check tier time g.windows ≡ (some allows, windows')
      → check_rate_limit time now operation params g
        ≡ answer now operation params tier (some allows) (record g { windows = windows' })
  unfolding check_rate_limit
  check_rate_limit-tier tier allows windows' listed c =
      rw (listed, ap (λ r. r.0) c, ap (λ r. r.1) c, check_rate_limit) refl

  answer-windows :
      (tier : String) (m w : ℕ) (allows : Bool) (windows' : Windows)
      → lookup tier tier_limits ≡ some (m, w)
      → (answer now operation params tier (some allows) (record g { windows = windows' })).1.windows
        ≡ windows'
  unfolding answer
  answer-windows tier m w true windows' known = refl
  answer-windows tier m w false windows' known = rw (known, answer) refl

  -- While each tier has its deque, the rate-limit gate answers for every operation of the table
  -- without a `KeyError`, and each tier still has its deque afterwards. Where `check` lets the call
  -- through, it allows it and logs nothing; where `check` does not, it refuses it with the limits of the
  -- operation's tier and logs one entry, for the operation and with the result `rate_limited`.
  -- Either way the deques are those that `check` left.
  pub check_rate_limit-Answers :
      (tier : String)
      → HasDeques g.windows
      → lookup operation operation_tiers ≡ some tier
      → let r = check_rate_limit time now operation params g in
        Answers tier r × (r.1.windows ≡ (check tier time g.windows).1) × HasDeques r.1.windows
  check_rate_limit-Answers tier deques listed =
      let has_limits =
        is_some-lookup operation tier operation_tiers operation_tiers-limits listed in
      let ((m, w), known) = is_some-some (lookup tier tier_limits) has_limits in
      let (q, found) = is_some-some (lookup tier g.windows) (deques tier has_limits) in
      let (allows, q', c) = check-known tier m w q known found in
      rw (check_rate_limit-tier tier allows _ listed c) (
        answer-Answers tier m w allows _ known (ap (λ r. r.0) c),
        answer-windows tier m w allows _ known ∙ sym (ap (λ r. r.1) c),
        rw (answer-windows tier m w allows _ known) (HasDeques-insert g.windows tier q' deques),
      )
