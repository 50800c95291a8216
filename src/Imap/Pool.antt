-- ===== src/Imap/Pool.antt =====
-- imap_connector.py: ImapConnectionPool, as the steps that threads take in it. A client is a number,
-- and stands for its `_PooledClient` too; each step is what happens under one hold of a lock.
pub mod Cache
pub mod Invariant
use apple_mail_fast_mcp.Base.{
  ℕ, suc, ◌+◌, ◌-◌, ◌≡◌, Bool, true, false, not, ◌&&◌, ◌||◌, Option, none, some, List, [], ◌∷◌,
  ◌++◌, ltb, ◌==◌, if◌then◌else◌,
}
use apple_mail_fast_mcp.Text.{Text, text_eq}

-- `(host, email)`
pub record Key : Type 0 where
  pub host : Text
  pub email : Text

abbrev pub key_eq : Key → Key → Bool
key_eq a b = text_eq a.host b.host && text_eq a.email b.email

-- The dict of the cache
abbrev pub Cache : Type 0
Cache = List (Key × ℕ)

unfoldable pub get_entry : Key → Cache → Option ℕ
get_entry key [] = none
get_entry key ((k, c) ∷ cache) = if key_eq k key then some c else get_entry key cache

unfoldable pub pop : Key → Cache → Cache
pop key [] = []
pop key ((k, c) ∷ cache) = let rest = pop key cache in if key_eq k key then rest else (k, c) ∷ rest

abbrev pub values : Cache → List ℕ
values [] = []
values ((k, c) ∷ cache) = c ∷ values cache

abbrev pub client_member : ℕ → List ℕ → Bool
client_member c [] = false
client_member c (d ∷ ds) = d == c || client_member c ds

-- The pool, with what its threads are doing: those that have an entry and wait for its lock, those in
-- the block of a session, which hold the lock, and the entries that `close` has still to log out.
-- `logged_out` lists the clients whose `logout` was called, `abandoned` those that connected and were
-- then let go without one, and `next` is the next new client.
pub record Pool : Type 0 where
  pub cache : Cache
  pub last_used : ℕ → ℕ
  pub waiting : List (Key × ℕ)
  pub holding : List (Key × ℕ)
  pub closing : List ℕ
  pub logged_out : List ℕ
  pub abandoned : List ℕ
  pub next : ℕ

abbrev pub set_used : (ℕ → ℕ) → ℕ → ℕ → ℕ → ℕ
set_used used c time d = if d == c then time else used d

-- `time.monotonic() - entry.last_used > self._idle_timeout_s`
unfoldable pub is_stale : ℕ → ℕ → ℕ → Bool
is_stale timeout now used = ltb timeout (now - used)

-- How opening a connection ends: the constructor of the client raises, `login` or the setting of the
-- timeout raises once it has connected, or the client is there at a time.
pub data Connecting : Type 0 where
  not_connected login_failed : Connecting
  connected : ℕ → Connecting

-- The key is not in the cache here. A client whose login fails is neither cached nor logged out.
unfoldable pub open_new : Key → Connecting → Pool → Pool
open_new key not_connected p = p
open_new key login_failed p = record p { abandoned = p.next ∷ p.abandoned; next = suc p.next }
open_new key (connected time) p = record p {
  cache = (key, p.next) ∷ p.cache;
  last_used = set_used p.last_used p.next time;
  waiting = (key, p.next) ∷ p.waiting;
  next = suc p.next;
}

-- The entry that is stale leaves the cache and is logged out.
unfoldable pub drop_stale : Key → ℕ → Pool → Pool
unfolding pop
drop_stale key c p = record p { cache = pop key p.cache; logged_out = c ∷ p.logged_out }

-- The part of `session` under the lock of the cache
unfoldable pub begin : ℕ → Key → ℕ → Connecting → Pool → Pool
unfolding get_entry is_stale open_new drop_stale
begin timeout key now opening p = elim (get_entry key p.cache) [
  | none ↦ open_new key opening p
  | some c ↦
      if is_stale timeout now (p.last_used c)
      then open_new key opening (drop_stale key c p)
      else record p { waiting = (key, c) ∷ p.waiting }
]

-- `self._cache.get(key) is entry`
unfoldable pub is_cached : Key → ℕ → Cache → Bool
unfolding get_entry
is_cached key c cache = elim (get_entry key cache) [ none ↦ false | some d ↦ d == c ]

-- The handler of `_POOL_INVALIDATE_EXCS`
unfoldable pub invalidate : Key → ℕ → Pool → Pool
unfolding is_cached pop
invalidate key c p = record p {
  cache = if is_cached key c p.cache then pop key p.cache else p.cache;
  logged_out = c ∷ p.logged_out;
}

-- The first part of `close`
unfoldable pub close : Pool → Pool
close p = record p { cache = []; closing = values p.cache ++ p.closing }

-- What threads do. A block ends well, with an exception of the connection, or with another one, which
-- leaves the entry as it is. `timeout` is the pool's.
pub data Step (timeout : ℕ) : Pool → Pool → Type 0 where
  begins :
      (p : Pool) (key : Key) (now : ℕ) (opening : Connecting)
      → Step timeout p (begin timeout key now opening p)
  acquires :
      (p : Pool) (key : Key) (c : ℕ) (xs ys : List (Key × ℕ))
      → p.waiting ≡ xs ++ (key, c) ∷ ys
      → client_member c (values p.holding) ≡ false
      → Step timeout p (record p { waiting = xs ++ ys; holding = (key, c) ∷ p.holding })
  ends :
      (p : Pool) (key : Key) (c time : ℕ) (xs ys : List (Key × ℕ))
      → p.holding ≡ xs ++ (key, c) ∷ ys
      → Step timeout p (record p { last_used = set_used p.last_used c time; holding = xs ++ ys })
  fails :
      (p : Pool) (key : Key) (c : ℕ) (xs ys : List (Key × ℕ))
      → p.holding ≡ xs ++ (key, c) ∷ ys
      → Step timeout p (invalidate key c (record p { holding = xs ++ ys }))
  raises :
      (p : Pool) (key : Key) (c : ℕ) (xs ys : List (Key × ℕ))
      → p.holding ≡ xs ++ (key, c) ∷ ys
      → Step timeout p (record p { holding = xs ++ ys })
  closes : (p : Pool) → Step timeout p (close p)
  logs_out :
      (p : Pool) (c : ℕ) (cs ds : List ℕ)
      → p.closing ≡ cs ++ c ∷ ds
      → client_member c (values p.holding) ≡ false
      → Step timeout p (record p { closing = cs ++ ds; logged_out = c ∷ p.logged_out })

-- `__init__`
abbrev pub new_pool : Pool
new_pool = record {
  cache = [];
  last_used = λ c. 0;
  waiting = [];
  holding = [];
  closing = [];
  logged_out = [];
  abandoned = [];
  next = 0;
}

pub data Reach (timeout : ℕ) : Pool → Type 0 where
  start : Reach timeout new_pool
  after_step : {p q : Pool} → Reach timeout p → Step timeout p q → Reach timeout q
