-- ===== src/Utils/Senders.antt =====
-- `extract_address`, `address_domain` and `rank_senders` of utils.py.
pub mod Ranking
use mathlib.Core.List.{foldl}
use apple_mail_fast_mcp.Base.{
  ℕ, zero, suc, ◌+◌, ◌-◌, Bool, true, false, not, ◌&&◌, ◌||◌, Option, none, some, List, [], ◌∷◌,
  ltb, ◌==◌, is_empty, length, take, drop, if◌then◌else◌,
}
use apple_mail_fast_mcp.Text.{Text, Unicode, has_char, lower, strip, after_last, text_eq, text_lt}
use apple_mail_fast_mcp.Security.Audit.{Count, natural, negative}

-- `s.index(chr(c))` of a text that has the character
unfoldable pub index_of : ℕ → Text → ℕ
index_of c [] = 0
index_of c (d ∷ s) = if d == c then 0 else index_of c s + 1

unfoldable pub extract_address : Unicode → Text → Text
unfolding index_of
extract_address u sender =
    let whole = strip sender in
    let s =
      if has_char b'<' whole && has_char b'>' whole
      then strip (drop (index_of b'<' whole + 1) (take (index_of b'>' whole) whole))
      else whole in
    if has_char b'@' s then lower u s else []

unfoldable pub address_domain : Unicode → Text → Text
address_domain u address = elim (after_last b'@' address) [
  | none ↦ []
  | some domain ↦ lower u domain
]

-- What `by` groups by: the whole address, or with "domain" the domain.
unfoldable pub sender_key : Unicode → Bool → Text → Text
sender_key u by_domain sender =
    let addr = extract_address u sender in
    if is_empty addr then [] else if by_domain then address_domain u addr else addr

-- `counts[key] = counts.get(key, 0) + 1`
unfoldable pub bump : Text → List (Text × ℕ) → List (Text × ℕ)
bump key [] = (key, 1) ∷ []
bump key ((k, n) ∷ counts) = if text_eq k key then (k, n + 1) ∷ counts else (k, n) ∷ bump key counts

-- The body of the loop: a sender without a key is skipped.
unfoldable pub count_sender : Unicode → Bool → List (Text × ℕ) → Text → List (Text × ℕ)
count_sender u by_domain counts sender =
    let key = sender_key u by_domain sender in if is_empty key then counts else bump key counts

-- `(-kv[1], kv[0])` of one item comes before that of another.
abbrev pub ranks_before : Text × ℕ → Text × ℕ → Bool
ranks_before (k, n) (j, m) = ltb m n || (n == m && text_lt k j)

unfoldable pub insert_ranked : Text × ℕ → List (Text × ℕ) → List (Text × ℕ)
insert_ranked e [] = e ∷ []
insert_ranked e (f ∷ es) = if ranks_before f e then f ∷ insert_ranked e es else e ∷ f ∷ es

-- `sorted(counts.items(), ...)`
unfoldable pub sort_ranked : List (Text × ℕ) → List (Text × ℕ)
sort_ranked [] = []
sort_ranked (e ∷ es) = insert_ranked e (sort_ranked es)

unfoldable pub ranked : Unicode → Bool → List Text → List (Text × ℕ)
ranked u by_domain senders = sort_ranked (foldl (count_sender u by_domain) [] senders)

-- `rank_senders`, of the rows' senders; the slice `[:limit]`
unfoldable pub rank_senders : Unicode → Bool → Count → List Text → List (Text × ℕ)
rank_senders u by_domain (natural n) senders = take n (ranked u by_domain senders)
rank_senders u by_domain (negative n) senders =
    let all_ranked = ranked u by_domain senders in take (length all_ranked - suc n) all_ranked
