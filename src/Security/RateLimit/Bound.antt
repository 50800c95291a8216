-- ===== src/Security/RateLimit/Bound.antt =====
-- The purpose of the limiter: no window of time holds more than a tier's limit of its calls.
use apple_mail_fast_mcp.Base.{
  ℕ, ◌+◌, ◌≤◌, String, ◌≡◌, ◌≢◌, refl, ap, sym, ◌∙◌, inl, inr, Bool-cases, Bool, true, false, ◌&&◌,
  Option, none, some, List, [], ◌∷◌, ◌++◌, arith, ltb, leb, length, keep, keep-append,
  length-append, lookup, str_eq, eq_iff,
}
use mathlib.Core.List.{append_assoc, append-nil}
use apple_mail_fast_mcp.Security.RateLimit.{tier_limits, init, check}
use apple_mail_fast_mcp.Security.RateLimit.Window.{recent}
use apple_mail_fast_mcp.Security.RateLimit.Refinement.{
  History, times_of, times_of-snoc, spec_check, spec_check-cases, run, Monotone, check-refines,
}

-- The calls that were let through, by the answers to them.
abbrev pub let_through : List (String × ℕ) → List (Option Bool) → History
let_through (c ∷ calls) (some true ∷ answers) = c ∷ let_through calls answers
let_through (c ∷ calls) (a ∷ answers) = let_through calls answers
let_through calls answers = []

let_through-blocked :
    (c : String × ℕ) (calls : List (String × ℕ)) (a : Option Bool) (answers : List (Option Bool))
    → a ≢ some true
    → let_through (c ∷ calls) (a ∷ answers) ≡ let_through calls answers
let_through-blocked c calls none answers h = refl
let_through-blocked c calls (some true) answers h = absurd (h refl)
let_through-blocked c calls (some false) answers h = refl

-- The calls of a list whose times lie after `start` and at most `window` later.
abbrev pub within : ℕ → ℕ → List ℕ → List ℕ
within start window = keep (λ t. ltb start t && leb t (start + window))

abbrev IsBounded : History → Type 0
IsBounded h =
    (tier : String) (m w start : ℕ)
    → lookup tier tier_limits ≡ some (m, w)
    → length (within start w (times_of tier h)) ≤ m

within-le-recent :
    (start w now : ℕ) (q : List ℕ)
    → now ≤ start + w
    → length (within start w q) ≤ length (recent w now q)
within-le-recent start w now [] le = omega arith
within-le-recent start w now (t ∷ q) le = ground (arith, within-le-recent start w now q le)

within-snoc :
    (start w now m : ℕ) (q : List ℕ)
    → leb m (length (recent w now q)) ≡ false
    → length (within start w q) ≤ m
    → length (within start w (q ++ now ∷ [])) ≤ m
within-snoc start w now m q room h =
    rw (keep-append, length-append) (ground (arith, within-le-recent start w now q))

spec_check-IsBounded :
    (tier : String) (now : ℕ) (h : History) → IsBounded h → IsBounded (spec_check tier now h).1
spec_check-IsBounded tier now h b t m w start known = elim (spec_check-cases now tier h) [
  | inl same ↦ rw same.0 (b t m w start known)
  | inr (m', w', known', room, e) ↦
      rw (ap (λ r. r.1) e, times_of-snoc)
        (elim (Bool-cases (str_eq tier t)) [
          | inl mine ↦
              let p : tier ≡ t = (eq_iff tier t).0 mine in
              let limits : ◌≡◌ {A = Option (ℕ × ℕ)} (some (m', w')) (some (m, w)) =
                sym known' ∙ ap (λ u. lookup u tier_limits) p ∙ known in
              rw mine (
                within-snoc start w now m (times_of t h) (grant p limits room)
                  (b t m w start known))
          | inr other ↦ rw other (b t m w start known)
        ])
]
  where
    grant :
        {m m' w w' : ℕ} {t : String}
        → tier ≡ t
        → ◌≡◌ {A = Option (ℕ × ℕ)} (some (m', w')) (some (m, w))
        → leb m' (length (recent w' now (times_of tier h))) ≡ false
        → leb m (length (recent w now (times_of t h))) ≡ false
    grant p limits room = cc

run-IsBounded :
    (calls : List (String × ℕ)) (h : History) → IsBounded h → IsBounded (run spec_check calls h).1
unfolding run
run-IsBounded [] h b = b
run-IsBounded ((tier, now) ∷ calls) h b =
    run-IsBounded calls (spec_check tier now h).1 (spec_check-IsBounded tier now h b)

-- The specification's history is what it let through.
run-let_through :
    (calls : List (String × ℕ)) (h : History)
    → (run spec_check calls h).1 ≡ h ++ let_through calls (run spec_check calls h).0
unfolding run
run-let_through [] h = rw append-nil refl
run-let_through ((tier, now) ∷ calls) h = elim (spec_check-cases now tier h) [
  | inl (same, blocked) ↦
      rw
        (run-let_through calls (spec_check tier now h).1, same, let_through-blocked _ _ _ _ blocked)
        refl
  | inr (m, w, known, room, e) ↦
      rw (e, run-let_through calls (h ++ (tier, now) ∷ []), append_assoc) refl
]

-- Over calls whose times never run backwards, of a tier's calls that `check` lets through at most
-- the tier's limit lie in any one window of the tier's length, wherever the window begins.
pub check_window_bound :
    (start : ℕ) (calls : List (String × ℕ)) (tier : String) (max_calls window from : ℕ)
    → Monotone start calls
    → lookup tier tier_limits ≡ some (max_calls, window)
    → length (within from window (times_of tier (let_through calls (run check calls init).0)))
      ≤ max_calls
check_window_bound start calls tier m w from mono known =
    rw (check-refines start calls mono, ← run-let_through calls [])
      (run-IsBounded calls [] (λ t m w s k. omega arith) tier m w from known)
