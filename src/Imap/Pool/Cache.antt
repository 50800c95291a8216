-- ===== src/Imap/Pool/Cache.antt =====
-- The cache of the pool as a map from keys to clients.
use apple_mail_fast_mcp.Base.{
  ℕ, ◌≡◌, refl, sym, ap, ◌∙◌, inl, inr, true, false, ◌||◌, none, some, List, [], ◌∷◌, ◌++◌, ◌==◌,
  arith, Bool-cases, if◌then◌else◌,
}
use apple_mail_fast_mcp.Text.Search.{text_eq_refl, text_eq→eq}
use apple_mail_fast_mcp.Imap.Pool.{Key, key_eq, Cache, get_entry, pop, values, client_member}

pub key_eq_refl : (k : Key) → key_eq k k ≡ true
key_eq_refl k = ground (arith, text_eq_refl k.host, text_eq_refl k.email)

pub key_eq→eq : (j k : Key) → key_eq j k ≡ true → j ≡ k
key_eq→eq j k h = ground (arith, text_eq→eq j.host k.host, text_eq→eq j.email k.email)

pub client_member-append :
    (c : ℕ) (xs ys : List ℕ)
    → client_member c (xs ++ ys) ≡ (client_member c xs || client_member c ys)
client_member-append c [] ys = refl
client_member-append c (x ∷ xs) ys = ground (arith, client_member-append c xs ys)

-- No client stands twice.
abbrev pub AreDistinct : List ℕ → Type 0
AreDistinct [] = Unit
AreDistinct (c ∷ cs) = (client_member c cs ≡ false) × AreDistinct cs

pub pop-missing :
    (c : ℕ) (key : Key) (cache : Cache)
    → client_member c (values cache) ≡ false
    → client_member c (values (pop key cache)) ≡ false
unfolding pop
pop-missing c key [] h = refl
pop-missing c key ((k, d) ∷ cache) h = ground (arith, pop-missing c key cache)

pub pop-AreDistinct :
    (key : Key) (cache : Cache) → AreDistinct (values cache) → AreDistinct (values (pop key cache))
unfolding pop
pop-AreDistinct key [] h = tt
pop-AreDistinct key ((k, d) ∷ cache) h = elim (Bool-cases (key_eq k key)) [
  | inl same ↦ rw same (pop-AreDistinct key cache h.1)
  | inr other ↦ rw other (pop-missing d key cache h.0, pop-AreDistinct key cache h.1)
]

-- The client of a key is not left when the key is gone.
pub get_entry-member :
    (key : Key) (cache : Cache) (c : ℕ)
    → get_entry key cache ≡ some c
    → client_member c (values cache) ≡ true
unfolding get_entry
get_entry-member key [] c h = cc
get_entry-member key ((k, d) ∷ cache) c h = ground (arith, get_entry-member key cache c)

pub pop-gone :
    (key : Key) (cache : Cache) (c : ℕ)
    → AreDistinct (values cache)
    → get_entry key cache ≡ some c
    → client_member c (values (pop key cache)) ≡ false
unfolding get_entry pop
pop-gone key [] c h e = refl
pop-gone key ((k, d) ∷ cache) c h e = elim (Bool-cases (key_eq k key)) [
  | inl same ↦ ground (arith, same, h.0, pop-missing c key cache)
  | inr other ↦ ground (arith, other, h.0, pop-gone key cache c h.1, get_entry-member key cache c)
]

pub get_entry-pop :
    (key j : Key) (cache : Cache)
    → get_entry j (pop key cache) ≡ (if key_eq key j then none else get_entry j cache)
unfolding get_entry pop
get_entry-pop key j [] = ground arith
get_entry-pop key j ((k, d) ∷ cache) = elim (Bool-cases (key_eq k key)) [
  | inl same ↦
      rw (key_eq→eq k key same) (rw (key_eq_refl key) (ground (arith, get_entry-pop key j cache)))
  | inr other ↦ elim (Bool-cases (key_eq key j)) [
    | inl found ↦ ground (arith, other, found, key_eq→eq key j found, get_entry-pop key j cache)
    | inr missing ↦ ground (arith, other, missing, get_entry-pop key j cache)
  ]
]

-- No key stands twice, as in a dict.
abbrev pub HasOneEach : Cache → Type 0
HasOneEach [] = Unit
HasOneEach ((k, c) ∷ cache) = (get_entry k cache ≡ none) × HasOneEach cache

pub pop-free : (key : Key) (cache : Cache) → get_entry key cache ≡ none → pop key cache ≡ cache
unfolding get_entry pop
pop-free key [] h = refl
pop-free key ((k, d) ∷ cache) h = ground (arith, pop-free key cache)

pub pop-HasOneEach : (key : Key) (cache : Cache) → HasOneEach cache → HasOneEach (pop key cache)
unfolding pop
pop-HasOneEach key [] h = tt
pop-HasOneEach key ((k, d) ∷ cache) h = elim (Bool-cases (key_eq k key)) [
  | inl same ↦ rw same (pop-HasOneEach key cache h.1)
  | inr other ↦
      rw other (ground (arith, get_entry-pop key k cache, h.0), pop-HasOneEach key cache h.1)
]

-- The clients of a cache are those left without a key, and the client of the key.
pub pop-member :
    (key : Key) (cache : Cache) (c x : ℕ)
    → HasOneEach cache
    → get_entry key cache ≡ some c
    → (client_member x (values (pop key cache)) || c == x) ≡ client_member x (values cache)
unfolding get_entry pop
pop-member key [] c x h e = cc
pop-member key ((k, d) ∷ cache) c x h e = elim (Bool-cases (key_eq k key)) [
  | inl same ↦ ground (
    arith,
    same,
    pop-free key cache (ap (λ j. get_entry j cache) (sym (key_eq→eq k key same)) ∙ h.0),
  )
  | inr other ↦ ground (arith, other, pop-member key cache c x h.1)
]
