-- ===== src/Security/RateLimit/Refinement.antt =====
-- The limiter against a specification that forgets nothing: it keeps every call that it let through,
-- and lets one through exactly if fewer than the limit are less than a window old.
use mathlib.Core.Path.{subst₂, ap₂}
use apple_mail_fast_mcp.Base.{
  ℕ, ◌≤◌, String, ◌≡◌, ◌≢◌, ◌⊎◌, refl, ap, sym, ◌∙◌, inl, inr, Bool-cases, Option-cases, Bool, true,
  false, Option, none, some, List, [], ◌∷◌, ◌++◌, map, arith, leb, length, lookup, insert,
  lookup-insert, str_eq, eq_iff, eq_refl, if◌then◌else◌,
}
use apple_mail_fast_mcp.Security.RateLimit.{Windows, tier_limits, init, expire, admit, check}
use apple_mail_fast_mcp.Security.RateLimit.Window.{
  Follows, recent, Follows-later, Follows-expire, Follows-snoc, expire-Follows,
}

-- Every call that was let through, as tier and time.
abbrev pub History : Type 0
History = List (String × ℕ)

abbrev pub times_of : String → History → List ℕ
times_of tier [] = []
times_of tier ((t, now) ∷ h) = if str_eq t tier then now ∷ times_of tier h else times_of tier h

unfoldable pub spec_check : String → ℕ → History → Option Bool × History
spec_check tier now history = elim (lookup tier tier_limits) [
  | none ↦ (none, history)
  | some (max_calls, window) ↦
      if leb max_calls (length (recent window now (times_of tier history)))
      then (some false, history)
      else (some true, history ++ (tier, now) ∷ [])
]

module _ {S : Type 0} (step : String → ℕ → S → Option Bool × S) where
  -- The answers to a sequence of calls, and the state that they leave.
  unfoldable pub run : List (String × ℕ) → S → List (Option Bool) × S
  run [] s = ([], s)
  run ((tier, now) ∷ calls) s =
      let (answer, s') = step tier now s in
      let (answers, s'') = run calls s' in (answer ∷ answers, s'')

-- The clock never runs backwards.
abbrev pub Monotone : ℕ → List (String × ℕ) → Type 0
Monotone last [] = Unit
Monotone last ((tier, now) ∷ calls) = (last ≤ now) × Monotone now calls

-- Each tier's deque follows the calls of that tier.
pub record Refines (last : ℕ) (windows : Windows) (history : History) : Type 0 where
  pub at :
      (tier : String) (max_calls window : ℕ)
      → lookup tier tier_limits ≡ some (max_calls, window)
      → (q : List ℕ) × (lookup tier windows ≡ some q)
        × Follows window last (times_of tier history) q

pub times_of-snoc :
    (tier t : String) (now : ℕ) (history : History)
    → times_of tier (history ++ (t, now) ∷ [])
      ≡ (if str_eq t tier then times_of tier history ++ now ∷ [] else times_of tier history)
times_of-snoc tier t now [] = ground arith
times_of-snoc tier t now ((u, n) ∷ history) = ground (arith, times_of-snoc tier t now history)

Refines-later :
    (last now : ℕ) (windows : Windows) (history : History)
    → last ≤ now
    → Refines last windows history
    → Refines now windows history
Refines-later last now windows history le r = record {
  at = λ tier m w e.
      let (q, found, f) = r.at tier m w e in
      (q, found, Follows-later w last now (times_of tier history) q le f);
}

abbrev window_of : Option (ℕ × ℕ) → ℕ
window_of none = 0
window_of (some (m, w)) = w

-- Writing one tier's deque back keeps every tier's deque in step, if the new one is.
Refines-insert :
    (now : ℕ) (windows : Windows) (h h' : History) (tier : String) (m w : ℕ) (q : List ℕ)
    → lookup tier tier_limits ≡ some (m, w)
    → Refines now windows h
    → ((t : String) → str_eq tier t ≡ false → times_of t h' ≡ times_of t h)
    → Follows w now (times_of tier h') q
    → Refines now (insert tier q windows) h'
Refines-insert now windows h h' tier m w q known r other f = record {
  at = λ t m' w' e. elim (Bool-cases (str_eq tier t)) [
    | inl same ↦
        let p : tier ≡ t = (eq_iff tier t).0 same in
        let limits : some (m, w) ≡ some (m', w') =
          sym known ∙ ap (λ u. lookup u tier_limits) p ∙ e in
        (
          q,
          rw (lookup-insert, same) refl,
          subst₂ (λ v u. Follows v now (times_of u h') q) (ap window_of limits) p f,
        )
    | inr differs ↦
        let (q', found, g) = r.at t m' w' e in
        (q', rw (lookup-insert, differs) found, rw (other t differs) g)
  ];
}

module _ (now : ℕ) (tier : String) {m w : ℕ} (known : lookup tier tier_limits ≡ some (m, w)) where
  check-eq_known :
      (windows : Windows) (q : List ℕ)
      → lookup tier windows ≡ some q
      → let (allowed, q') = admit m now (expire w now q) in
        check tier now windows ≡ (some allowed, insert tier q' windows)
  unfolding check admit
  check-eq_known windows q found = rw (known, found, check) refl

  spec_check-eq_known :
      (h : History)
      → spec_check tier now h ≡ (
          if leb m (length (recent w now (times_of tier h)))
          then (some false, h)
          else (some true, h ++ (tier, now) ∷ []))
  unfolding spec_check
  spec_check-eq_known h = rw (known, spec_check) refl

-- What the specification answers, with the history that it leaves.
pub spec_check-cases :
    (now : ℕ) (tier : String) (h : History)
    → ((spec_check tier now h).1 ≡ h) × ((spec_check tier now h).0 ≢ some true)
      ⊎ ((m : ℕ) × (w : ℕ) × (lookup tier tier_limits ≡ some (m, w))
          × (leb m (length (recent w now (times_of tier h))) ≡ false)
          × (spec_check tier now h ≡ (some true, h ++ (tier, now) ∷ [])))
unfolding spec_check
spec_check-cases now tier h = elim (Option-cases (lookup tier tier_limits)) [
  | inl unknown ↦ inl (rw (unknown, spec_check) (refl, λ e. cc))
  | inr ((m, w), known) ↦ elim (Bool-cases (leb m (length (recent w now (times_of tier h))))) [
    | inl full ↦ inl (rw (known, full, spec_check) (refl, λ e. cc))
    | inr room ↦ inr (m, w, known, room, rw (known, room, spec_check) refl)
  ]
]

abbrev Step : ℕ → Option Bool × Windows → Option Bool × History → Type 0
Step now r s = (r.0 ≡ s.0) × Refines now r.1 s.1

module _ (now : ℕ) (windows : Windows) (h : History) (tier : String) where
  check-Step_known :
      (m w : ℕ) (q : List ℕ)
      → lookup tier tier_limits ≡ some (m, w)
      → lookup tier windows ≡ some q
      → Follows w now (times_of tier h) q
      → Refines now windows h
      → Step now (check tier now windows) (spec_check tier now h)
  check-Step_known m w q known found f r =
      let g = Follows-expire w now (times_of tier h) q f in
      let same = expire-Follows w now (times_of tier h) q f in
      rw
        (
          check-eq_known now tier known windows q found,
          spec_check-eq_known now tier known h,
          ← same,
        )
        (elim (Bool-cases (leb m (length (expire w now q)))) [
          | inl full ↦
              unfold admit in
              rw full
                (refl, Refines-insert now windows h h tier m w _ known r (λ t differs. refl) g)
          | inr room ↦
              unfold admit in
              rw room (
                refl,
                Refines-insert now windows h _ tier m w _ known r
                    (λ t differs. rw (times_of-snoc, differs) refl)
                    (rw (times_of-snoc, eq_refl) (Follows-snoc w now (times_of tier h) _ g)),
              )
        ])

-- One call keeps the deques in step, and gives the answer of the specification.
check-Step :
    (last now : ℕ) (windows : Windows) (h : History) (tier : String)
    → last ≤ now
    → Refines last windows h
    → Step now (check tier now windows) (spec_check tier now h)
unfolding check spec_check
check-Step last now windows h tier le r = elim (Option-cases (lookup tier tier_limits)) [
  | inl unknown ↦ rw (unknown, check, spec_check) (refl, Refines-later last now windows h le r)
  | inr ((m, w), known) ↦
      let (q, found, f) = r.at tier m w known in
      check-Step_known now windows h tier m w q known found
        (Follows-later w last now (times_of tier h) q le f) (Refines-later last now windows h le r)
]

abbrev last_time : ℕ → List (String × ℕ) → ℕ
last_time last [] = last
last_time last ((tier, now) ∷ calls) = last_time now calls

run-Step :
    (last : ℕ) (calls : List (String × ℕ)) (windows : Windows) (h : History)
    → Monotone last calls
    → Refines last windows h
    → ((run check calls windows).0 ≡ (run spec_check calls h).0)
      × Refines (last_time last calls) (run check calls windows).1 (run spec_check calls h).1
unfolding run
run-Step last [] windows h mono r = (refl, r)
run-Step last ((tier, now) ∷ calls) windows h mono r =
    let (same, r') = check-Step last now windows h tier mono.0 r in
    let (rest, r'') = run-Step now calls _ _ mono.1 r' in (ap₂ ◌∷◌ same rest, r'')

lookup-fresh :
    (k : String) (v : ℕ × ℕ) (d : List (String × (ℕ × ℕ)))
    → lookup k d ≡ some v
    → lookup {V = List ℕ} k (map (λ e. (e.0, [])) d) ≡ some []
lookup-fresh k v [] h = cc
lookup-fresh k v ((j, u) ∷ d) h = ground (arith, lookup-fresh k v d)

pub Refines-init : (now : ℕ) → Refines now init []
unfolding init
Refines-init now = record {
  at = λ tier m w known. (
    [],
    lookup-fresh tier (m, w) tier_limits known,
    record { old = []; parts = refl; expired = tt; ascending = tt; past = tt },
  );
}

-- From a fresh limiter, over calls whose times never run backwards, `check` gives the answers of
-- the specification: a call is let through exactly if fewer than its tier's limit of the calls of
-- that tier that were let through before are less than a window old, whatever the other tiers do.
pub check-refines :
    (start : ℕ) (calls : List (String × ℕ))
    → Monotone start calls
    → (run check calls init).0 ≡ (run spec_check calls []).0
check-refines start calls mono = (run-Step start calls init [] mono (Refines-init start)).0
