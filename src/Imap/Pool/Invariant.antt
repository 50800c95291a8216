-- ===== src/Imap/Pool/Invariant.antt =====
-- Whatever the threads do, no client that logged in is lost, none that is cached was logged out, and
-- none is used by two threads at once.
pub mod Steps
use apple_mail_fast_mcp.Base.{
  ℕ, suc, ◌+◌, ◌<◌, ◌≤◌, ◌≡◌, ◌≢◌, refl, sym, ap, ◌∙◌, inl, inr, Bool, true, false, not, ◌&&◌, ◌||◌,
  Option, none, some, List, [], ◌∷◌, ◌++◌, ltb, ◌==◌, ==_iff, arith, All, All-append, Bool-cases,
  Option-cases, if◌then◌else◌,
}
use apple_mail_fast_mcp.Imap.Pool.{
  Key, key_eq, Cache, get_entry, pop, values, client_member, Pool, set_used, is_cached, open_new,
  drop_stale,
}
use apple_mail_fast_mcp.Imap.Pool.Cache.{
  key_eq_refl, key_eq→eq, client_member-append, AreDistinct, pop-missing, pop-AreDistinct,
  get_entry-member, pop-gone, get_entry-pop, HasOneEach,
}

-- What a thread knows of its entry: the client was made, and if it is in the cache then under the
-- thread's key.
unfoldable pub owns : Cache → ℕ → Key × ℕ → Bool
owns cache next (key, c) =
    (not (client_member c (values cache)) || is_cached key c cache) && ltb c next

-- A place for every client that was made, and for no other
abbrev pub has_place : Pool → ℕ → Bool
has_place p c =
    client_member c (values p.cache)
    || client_member c p.logged_out
    || client_member c p.closing
    || client_member c p.abandoned

-- A thread's client is not one that was abandoned.
abbrev pub WasGiven : List ℕ → Key × ℕ → Type 0
WasGiven abandoned (key, c) = client_member c abandoned ≡ false

pub record IsSound (p : Pool) : Type 0 where
  -- A key has one client in the cache, and a client one key.
  pub keys : HasOneEach p.cache
  pub distinct : AreDistinct (values p.cache)
  -- A client in the cache was not logged out, nor is it about to be, nor was it abandoned.
  pub live :
      (c : ℕ)
      → (client_member c (values p.cache)
          && (client_member c p.logged_out
              || client_member c p.closing
              || client_member c p.abandoned))
        ≡ false
  -- A client that was made is in the cache, logged out, about to be, or its login failed.
  pub no_leak : (c : ℕ) → has_place p c ≡ ltb c p.next
  pub waiting_own : All (λ t. owns p.cache p.next t ≡ true) p.waiting
  pub holding_own : All (λ t. owns p.cache p.next t ≡ true) p.holding
  -- No thread has a client whose login failed.
  pub waiting_given : All (λ t. WasGiven p.abandoned t) p.waiting
  pub holding_given : All (λ t. WasGiven p.abandoned t) p.holding
  -- Two threads never hold one client.
  pub exclusive : AreDistinct (values p.holding)

none≢some : (c : ℕ) → none ≢ some c
none≢some c e = cc

owns-get_entry :
    (cache : Cache) (next : ℕ) (k : Key) (c : ℕ)
    → client_member c (values cache) ≡ true
    → owns cache next (k, c) ≡ true
    → get_entry k cache ≡ some c
unfolding owns is_cached
owns-get_entry cache next k c there h = elim (Option-cases (get_entry k cache)) [
  | inl e ↦ ground (arith, there, e)
  | inr (c', e) ↦ ground (arith, there, e)
]

owns-next :
    (cache : Cache) (next : ℕ) (k : Key) (c : ℕ) → owns cache next (k, c) ≡ true → ltb c next ≡ true
unfolding owns
owns-next cache next k c h = ground arith

owns_intro :
    (cache : Cache) (next : ℕ) (k : Key) (c : ℕ)
    → ltb c next ≡ true
    → get_entry k cache ≡ some c
    → owns cache next (k, c) ≡ true
unfolding owns is_cached
owns_intro cache next k c h e = ground (arith, e, h)

owns_missing :
    (cache : Cache) (next : ℕ) (k : Key) (c : ℕ)
    → ltb c next ≡ true
    → client_member c (values cache) ≡ false
    → owns cache next (k, c) ≡ true
unfolding owns
owns_missing cache next k c h gone = ground arith

-- What a thread knows stays true when a key leaves the cache.
owns-pop :
    (key : Key) (cache : Cache) (next : ℕ) (t : Key × ℕ)
    → AreDistinct (values cache)
    → owns cache next t ≡ true
    → owns (pop key cache) next t ≡ true
owns-pop key cache next (k, c) d h =
    let made = owns-next cache next k c h in
    elim (Bool-cases (client_member c (values cache))) [
      | inl there ↦
          let here = owns-get_entry cache next k c there h in
          elim (Bool-cases (key_eq key k)) [
            | inl same ↦
                owns_missing (pop key cache) next k c made (
                  pop-gone key cache c d
                    (ap (λ j. get_entry j cache) (key_eq→eq key k same) ∙ here))
            | inr other ↦
                owns_intro (pop key cache) next k c made (get_entry-pop key k cache ∙ rw other here)
          ]
      | inr gone ↦ owns_missing (pop key cache) next k c made (pop-missing c key cache gone)
    ]

-- What a thread knows stays true when a client was made that is not cached.
pub owns-next_client :
    (cache : Cache) (next : ℕ) (t : Key × ℕ)
    → owns cache next t ≡ true
    → owns cache (suc next) t ≡ true
unfolding owns
owns-next_client cache next (k, c) h = ground arith

-- What a thread knows stays true when a new client is cached under a key that was free.
owns-open :
    (key : Key) (cache : Cache) (next : ℕ) (t : Key × ℕ)
    → get_entry key cache ≡ none
    → owns cache next t ≡ true
    → owns ((key, next) ∷ cache) (suc next) t ≡ true
unfolding get_entry
owns-open key cache next (k, c) free h =
    let made = owns-next cache next k c h in
    let made' : ltb c (suc next) ≡ true = ground arith in
    elim (Bool-cases (client_member c (values cache))) [
      | inl there ↦
          let here = owns-get_entry cache next k c there h in
          elim (Bool-cases (key_eq key k)) [
            | inl same ↦
                absurd (
                  none≢some c
                    (sym free ∙ ap (λ j. get_entry j cache) (key_eq→eq key k same) ∙ here))
            | inr other ↦ owns_intro ((key, next) ∷ cache) (suc next) k c made' (rw other here)
          ]
      | inr gone ↦ owns_missing ((key, next) ∷ cache) (suc next) k c made' (ground arith)
    ]

All-owns :
    (cache cache' : Cache) (next next' : ℕ) (ts : List (Key × ℕ))
    → ((t : Key × ℕ) → owns cache next t ≡ true → owns cache' next' t ≡ true)
    → All (λ t. owns cache next t ≡ true) ts
    → All (λ t. owns cache' next' t ≡ true) ts
All-owns cache cache' next next' [] f h = tt
All-owns cache cache' next next' (t ∷ ts) f h = (f t h.0, All-owns cache cache' next next' ts f h.1)

-- The clients of threads are older than the next one, which is abandoned.
pub All-WasGiven :
    (cache : Cache) (next : ℕ) (abandoned : List ℕ) (ts : List (Key × ℕ))
    → All (λ t. owns cache next t ≡ true) ts
    → All (λ t. WasGiven abandoned t) ts
    → All (λ t. WasGiven (next ∷ abandoned) t) ts
All-WasGiven cache next abandoned [] h k = tt
All-WasGiven cache next abandoned ((key, c) ∷ ts) h k =
    let old = owns-next cache next key c h.0 in
    (ground (arith, old, k.0), All-WasGiven cache next abandoned ts h.1 k.1)
