-- ===== src/Security/RateLimit.antt =====
-- `class RateLimiter` of security.py. A reading of `time.monotonic()` is a number of nanoseconds,
-- and `q[0] <= now - window` is written `q[0] + window <= now`.
pub mod Window
pub mod Refinement
pub mod Bound
use apple_mail_fast_mcp.Base.{
  ℕ, ◌+◌, ◌*◌, ◌^◌, String, Bool, true, false, Option, none, some, List, [], ◌∷◌, ◌++◌, map, leb,
  length, lookup, insert, if◌then◌else◌,
}

abbrev pub second : ℕ
second = 10 ^ 9

unfoldable pub tier_limits : List (String × (ℕ × ℕ))
tier_limits =
    ("metadata_reads", (300, 60 * second))
    ∷ ("cheap_reads", (60, 60 * second))
    ∷ ("expensive_ops", (20, 60 * second))
    ∷ ("sends", (3, 60 * second))
    ∷ []

-- `self._windows`: the times of the calls that were let through, tier by tier, oldest first.
abbrev pub Windows : Type 0
Windows = List (String × List ℕ)

-- `RateLimiter.__init__`
unfoldable pub init : Windows
unfolding tier_limits
init = map (λ (e : String × (ℕ × ℕ)). (e.0, [])) tier_limits

-- `while q and q[0] <= now - window: q.popleft()`
unfoldable pub expire : ℕ → ℕ → List ℕ → List ℕ
expire window now [] = []
expire window now (t ∷ q) = if leb (t + window) now then expire window now q else t ∷ q

-- The rest of `check`, on the deque of one tier.
unfoldable pub admit : ℕ → ℕ → List ℕ → Bool × List ℕ
admit max_calls now q = if leb max_calls (length q) then (false, q) else (true, q ++ now ∷ [])

-- `RateLimiter.check`; `none` is the `KeyError` of a name that is no tier, and changes nothing.
unfoldable pub check : String → ℕ → Windows → Option Bool × Windows
check tier now windows = elim (lookup tier tier_limits) [
  | none ↦ (none, windows)
  | some (max_calls, window) ↦ elim (lookup tier windows) [
    | none ↦ (none, windows)
    | some q ↦
        let (allowed, q') = admit max_calls now (expire window now q) in
        (some allowed, insert tier q' windows)
  ]
]

-- `RateLimiter.reset`
unfoldable pub reset : Windows → Windows
reset [] = []
reset ((tier, q) ∷ windows) = (tier, []) ∷ reset windows
