-- ===== src/Imap/Pool/Invariant/Steps.antt =====
-- Every step keeps the pool sound, and so every pool that the threads reach is.
use apple_mail_fast_mcp.Base.{
  ℕ, suc, ◌≡◌, refl, ap, ◌∙◌, inl, inr, true, false, ◌||◌, none, some, List, [], ◌∷◌, ◌++◌, ltb,
  ◌==◌, ==_iff, arith, All, All-append, Bool-cases, Option-cases,
}
use apple_mail_fast_mcp.Imap.Pool.{
  Key, Cache, get_entry, pop, values, client_member, Pool, Connecting, not_connected, login_failed,
  connected, is_cached, is_stale, open_new, drop_stale, begin, invalidate, close, Step, begins,
  acquires, ends, fails, raises, closes, logs_out, new_pool, Reach, start, after_step,
}
use apple_mail_fast_mcp.Imap.Pool.Cache.{
  key_eq_refl, client_member-append, AreDistinct, pop-missing, pop-AreDistinct, get_entry-member,
  pop-gone, get_entry-pop, pop-HasOneEach, pop-member,
}
use apple_mail_fast_mcp.Imap.Pool.Invariant.{
  WasGiven, All-WasGiven, owns, IsSound, owns_intro, owns-pop, owns-open, owns-next, All-owns,
  owns_missing, owns-next_client,
}

-- Lists of threads taken apart and put together
module _ {A : Type 0} (P : A → Type 0) where
  All-before : (xs ys : List A) → All P (xs ++ ys) → All P xs
  All-before [] ys h = tt
  All-before (x ∷ xs) ys h = (h.0, All-before xs ys h.1)

  All-after : (xs ys : List A) → All P (xs ++ ys) → All P ys
  All-after [] ys h = h
  All-after (x ∷ xs) ys h = All-after xs ys h.1

  All-remove : (xs ys : List A) (x : A) → All P (xs ++ x ∷ ys) → P x × All P (xs ++ ys)
  All-remove xs ys x h =
      let rest = All-after xs (x ∷ ys) h in
      (rest.0, All-append P xs ys (All-before xs (x ∷ ys) h) rest.1)

values_remove :
    (c : ℕ) (xs ys : Cache) (t : Key × ℕ)
    → client_member c (values (xs ++ t ∷ ys)) ≡ false
    → client_member c (values (xs ++ ys)) ≡ false
values_remove c [] ys (k, d) h = ground arith
values_remove c ((j, e) ∷ xs) ys t h = ground (arith, values_remove c xs ys t)

distinct_remove :
    (xs ys : Cache) (t : Key × ℕ)
    → AreDistinct (values (xs ++ t ∷ ys))
    → AreDistinct (values (xs ++ ys))
distinct_remove [] ys (k, d) h = h.1
distinct_remove ((j, e) ∷ xs) ys t h = (values_remove e xs ys t h.0, distinct_remove xs ys t h.1)

get_first : (key : Key) (c : ℕ) (cache : Cache) → get_entry key ((key, c) ∷ cache) ≡ some c
unfolding get_entry
get_first key c cache = rw (key_eq_refl key) refl

get_popped : (key : Key) (cache : Cache) → get_entry key (pop key cache) ≡ none
get_popped key cache = get_entry-pop key key cache ∙ rw (key_eq_refl key) refl

-- A client that was not made is nowhere.
not_made : (p : Pool) → IsSound p → client_member p.next (values p.cache) ≡ false
not_made p s = ground (arith, s.no_leak p.next)

open_new-IsSound :
    (key : Key) (opening : Connecting) (p : Pool)
    → get_entry key p.cache ≡ none
    → IsSound p
    → IsSound (open_new key opening p)
unfolding open_new
open_new-IsSound key not_connected p free s = s
open_new-IsSound key login_failed p free s = record {
  keys = s.keys;
  distinct = s.distinct;
  live = λ c. ground (arith, s.live c, not_made p s, ==_iff p.next c);
  no_leak = λ c. ground (arith, s.no_leak c);
  waiting_own = All-owns _ _ _ _ p.waiting (owns-next_client p.cache p.next) s.waiting_own;
  holding_own = All-owns _ _ _ _ p.holding (owns-next_client p.cache p.next) s.holding_own;
  waiting_given = All-WasGiven p.cache p.next p.abandoned p.waiting s.waiting_own s.waiting_given;
  holding_given = All-WasGiven p.cache p.next p.abandoned p.holding s.holding_own s.holding_given;
  exclusive = s.exclusive;
}
open_new-IsSound key (connected time) p free s = record {
  keys = (free, s.keys);
  distinct = (not_made p s, s.distinct);
  live = λ c. ground (arith, s.live c, s.no_leak c);
  no_leak = λ c. ground (arith, s.no_leak c);
  waiting_own = (
    owns_intro ((key, p.next) ∷ p.cache) (suc p.next) key p.next (ground arith)
        (get_first key p.next p.cache),
    All-owns _ _ _ _ p.waiting (λ t. owns-open key p.cache p.next t free) s.waiting_own,
  );
  holding_own = All-owns _ _ _ _ p.holding (λ t. owns-open key p.cache p.next t free) s.holding_own;
  waiting_given = (ground (arith, s.no_leak p.next), s.waiting_given);
  holding_given = s.holding_given;
  exclusive = s.exclusive;
}

-- A cached client leaves the cache and is logged out.
dropped-IsSound :
    (key : Key) (c : ℕ) (p : Pool)
    → get_entry key p.cache ≡ some c
    → IsSound p
    → IsSound (record p { cache = pop key p.cache; logged_out = c ∷ p.logged_out })
dropped-IsSound key c p e s = record {
  keys = pop-HasOneEach key p.cache s.keys;
  distinct = pop-AreDistinct key p.cache s.distinct;
  live = λ x.
      ground (
        arith,
        s.live x,
        pop-missing x key p.cache,
        pop-gone key p.cache c s.distinct e,
        ==_iff c x,
      );
  no_leak = λ x. ground (arith, s.no_leak x, pop-member key p.cache c x s.keys e);
  waiting_own =
      All-owns _ _ _ _ p.waiting (λ t. owns-pop key p.cache p.next t s.distinct) s.waiting_own;
  holding_own =
      All-owns _ _ _ _ p.holding (λ t. owns-pop key p.cache p.next t s.distinct) s.holding_own;
  waiting_given = s.waiting_given;
  holding_given = s.holding_given;
  exclusive = s.exclusive;
}

-- A thread takes the entry that it found.
joined :
    (key : Key) (c : ℕ) (p : Pool)
    → get_entry key p.cache ≡ some c
    → IsSound p
    → IsSound (record p { waiting = (key, c) ∷ p.waiting })
joined key c p e s = record {
  keys = s.keys;
  distinct = s.distinct;
  live = s.live;
  no_leak = s.no_leak;
  waiting_own = (
    owns_intro p.cache p.next key c (ground (arith, s.no_leak c, get_entry-member key p.cache c e))
        e,
    s.waiting_own,
  );
  holding_own = s.holding_own;
  waiting_given = (ground (arith, s.live c, get_entry-member key p.cache c e), s.waiting_given);
  holding_given = s.holding_given;
  exclusive = s.exclusive;
}

begin-IsSound :
    (timeout : ℕ) (key : Key) (now : ℕ) (opening : Connecting) (p : Pool)
    → IsSound p
    → IsSound (begin timeout key now opening p)
unfolding begin drop_stale
begin-IsSound timeout key now opening p s = elim (Option-cases (get_entry key p.cache)) [
  | inl free ↦ rw (free, begin) (open_new-IsSound key opening p free s)
  | inr (c, e) ↦ elim (Bool-cases (is_stale timeout now (p.last_used c))) [
    | inl stale ↦
        rw (e, begin, stale)
          (open_new-IsSound key opening _ (get_popped key p.cache) (dropped-IsSound key c p e s))
    | inr usable ↦ rw (e, begin, usable) (joined key c p e s)
  ]
]

-- A client that stays where it is, or that is in the cache no more, is logged out once more.
logged-IsSound :
    (c : ℕ) (p : Pool)
    → client_member c (values p.cache) ≡ false
    → ltb c p.next ≡ true
    → IsSound p
    → IsSound (record p { logged_out = c ∷ p.logged_out })
logged-IsSound c p gone made s = record {
  keys = s.keys;
  distinct = s.distinct;
  live = λ x. ground (arith, s.live x, gone, ==_iff c x);
  no_leak = λ x. ground (arith, s.no_leak x, made, ==_iff c x);
  waiting_own = s.waiting_own;
  holding_own = s.holding_own;
  waiting_given = s.waiting_given;
  holding_given = s.holding_given;
  exclusive = s.exclusive;
}

-- The entry of a thread is under the thread's key, or in the cache no more.
cached-get_entry :
    (key : Key) (c : ℕ) (cache : Cache)
    → is_cached key c cache ≡ true
    → get_entry key cache ≡ some c
unfolding is_cached
cached-get_entry key c cache h = elim (Option-cases (get_entry key cache)) [
  | inl e ↦ ground (arith, e)
  | inr (d, e) ↦ ground (arith, e)
]

uncached-missing :
    (key : Key) (c next : ℕ) (cache : Cache)
    → is_cached key c cache ≡ false
    → owns cache next (key, c) ≡ true
    → client_member c (values cache) ≡ false
unfolding owns
uncached-missing key c next cache h o = ground arith

invalidate-IsSound :
    (key : Key) (c : ℕ) (p : Pool)
    → owns p.cache p.next (key, c) ≡ true
    → IsSound p
    → IsSound (invalidate key c p)
unfolding invalidate
invalidate-IsSound key c p o s = elim (Bool-cases (is_cached key c p.cache)) [
  | inl same ↦ rw same (dropped-IsSound key c p (cached-get_entry key c p.cache same) s)
  | inr other ↦ rw other (
      logged-IsSound c p (uncached-missing key c p.next p.cache other o)
        (owns-next p.cache p.next key c o) s)
]

-- A thread lets go of its entry.
released :
    (p : Pool) (key : Key) (c : ℕ) (xs ys : List (Key × ℕ))
    → p.holding ≡ xs ++ (key, c) ∷ ys
    → IsSound p
    → (owns p.cache p.next (key, c) ≡ true) × IsSound (record p { holding = xs ++ ys })
released p key c xs ys e s =
    let (own, rest) =
      All-remove (λ t. owns p.cache p.next t ≡ true) xs ys (key, c) (rw e at s.holding_own) in
    (
      own,
      record {
        keys = s.keys;
        distinct = s.distinct;
        live = s.live;
        no_leak = s.no_leak;
        waiting_own = s.waiting_own;
        holding_own = rest;
        waiting_given = s.waiting_given;
        holding_given =
            (All-remove (λ t. WasGiven p.abandoned t) xs ys (key, c) (rw e at s.holding_given)).1;
        exclusive = distinct_remove xs ys (key, c) (rw e at s.exclusive);
      },
    )

own_nothing :
    (cache : Cache) (next : ℕ) (t : Key × ℕ) → owns cache next t ≡ true → owns [] next t ≡ true
own_nothing cache next (key, c) h = owns_missing [] next key c (owns-next cache next key c h) refl

close-IsSound : (p : Pool) → IsSound p → IsSound (close p)
unfolding close
close-IsSound p s = record {
  keys = tt;
  distinct = tt;
  live = λ c. refl;
  no_leak = λ c. ground (arith, s.no_leak c, client_member-append c (values p.cache) p.closing);
  waiting_own = All-owns _ _ _ _ p.waiting (own_nothing p.cache p.next) s.waiting_own;
  holding_own = All-owns _ _ _ _ p.holding (own_nothing p.cache p.next) s.holding_own;
  waiting_given = s.waiting_given;
  holding_given = s.holding_given;
  exclusive = s.exclusive;
}

client_member_remove :
    (x c : ℕ) (cs ds : List ℕ)
    → client_member x (cs ++ c ∷ ds) ≡ (client_member x (cs ++ ds) || c == x)
client_member_remove x c [] ds = ground arith
client_member_remove x c (d ∷ cs) ds = ground (arith, client_member_remove x c cs ds)

Step-IsSound : (timeout : ℕ) {p q : Pool} → Step timeout p q → IsSound p → IsSound q
Step-IsSound timeout (begins p key now opening) s = begin-IsSound timeout key now opening p s
Step-IsSound timeout (acquires p key c xs ys e free) s =
    let (own, rest) =
      All-remove (λ t. owns p.cache p.next t ≡ true) xs ys (key, c) (rw e at s.waiting_own) in
    let (given, waiting) =
      All-remove (λ t. WasGiven p.abandoned t) xs ys (key, c) (rw e at s.waiting_given) in
    record {
      keys = s.keys;
      distinct = s.distinct;
      live = s.live;
      no_leak = s.no_leak;
      waiting_own = rest;
      holding_own = (own, s.holding_own);
      waiting_given = waiting;
      holding_given = (given, s.holding_given);
      exclusive = (free, s.exclusive);
    }
Step-IsSound timeout (ends p key c time xs ys e) s =
    let t = (released p key c xs ys e s).1 in
    record {
      keys = t.keys;
      distinct = t.distinct;
      live = t.live;
      no_leak = t.no_leak;
      waiting_own = t.waiting_own;
      holding_own = t.holding_own;
      waiting_given = t.waiting_given;
      holding_given = t.holding_given;
      exclusive = t.exclusive;
    }
Step-IsSound timeout (fails p key c xs ys e) s =
    let (own, t) = released p key c xs ys e s in invalidate-IsSound key c _ own t
Step-IsSound timeout (raises p key c xs ys e) s = (released p key c xs ys e s).1
Step-IsSound timeout (closes p) s = close-IsSound p s
Step-IsSound timeout (logs_out p c cs ds e free) s = record {
  keys = s.keys;
  distinct = s.distinct;
  live = λ x. ground (arith, s.live x, ap (client_member x) e, client_member_remove x c cs ds);
  no_leak =
      λ x. ground (arith, s.no_leak x, ap (client_member x) e, client_member_remove x c cs ds);
  waiting_own = s.waiting_own;
  holding_own = s.holding_own;
  waiting_given = s.waiting_given;
  holding_given = s.holding_given;
  exclusive = s.exclusive;
}

new_pool-IsSound : IsSound new_pool
new_pool-IsSound = record {
  keys = tt;
  distinct = tt;
  live = λ c. refl;
  no_leak = λ c. ground arith;
  waiting_own = tt;
  holding_own = tt;
  waiting_given = tt;
  holding_given = tt;
  exclusive = tt;
}

-- In every pool that threads can bring about, by sessions that begin, wait, end or fail in any order,
-- and by closing: a key has at most one client and a client at most one key; no client in the cache was
-- logged out or is about to be, or failed to log in; every client that connected is in the cache,
-- logged out, or about to be, or its login or the setting of its timeout failed; no thread waits for or
-- holds one of the last kind; and no two threads hold one client.
pub Reach-IsSound : (timeout : ℕ) {p : Pool} → Reach timeout p → IsSound p
Reach-IsSound timeout start = new_pool-IsSound
Reach-IsSound timeout (after_step r step) = Step-IsSound timeout step (Reach-IsSound timeout r)
