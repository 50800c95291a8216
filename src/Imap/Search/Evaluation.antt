-- ===== src/Imap/Search/Evaluation.antt =====
-- A server's reading of a search program, word by word, and its agreement with the meaning.
use mathlib.Core.Path.{subst}
use apple_mail_fast_mcp.Base.{
  ◌≡◌, refl, sym, ap, ◌∙◌, inl, inr, Bool, true, false, not, ◌&&◌, ◌||◌, List, [], ◌∷◌, All,
  Bool-cases, if◌then◌else◌,
}
use apple_mail_fast_mcp.Text.{Text, codes, text_eq, text_member}
use apple_mail_fast_mcp.Text.Search.{text_eq→eq}
use apple_mail_fast_mcp.Imap.{Criterion, Criteria, word, group, finish, also}
use apple_mail_fast_mcp.Imap.Search.Meaning.{
  Facts, text_keys, Means, ended, all_key, seen_key, unseen_key, flagged_key, unflagged_key,
  text_key, header_key, or_key,
}

-- What the reader waits for
pub data Awaits : Type 0 where
  a_key header_name or_first : Awaits
  argument header_value : Text → Awaits
  or_second : Bool → Awaits

-- A key's first word: what it already says, and what comes next
abbrev pub read_word : Facts → Text → Bool × Awaits
read_word m w =
    if text_eq w (codes "HEADER")
    then (true, header_name)
    else if text_eq w (codes "OR")
    then (true, or_first)
    else if text_eq w (codes "ALL")
    then (true, a_key)
    else if text_eq w (codes "SEEN")
    then (m.is_seen, a_key)
    else if text_eq w (codes "UNSEEN")
    then (not m.is_seen, a_key)
    else if text_eq w (codes "FLAGGED")
    then (m.is_flagged, a_key)
    else if text_eq w (codes "UNFLAGGED")
    then (not m.is_flagged, a_key)
    else (true, argument w)

unfoldable mutual
  pub evaluate : Facts → Awaits → Criteria → Bool
  evaluate m a_key finish = true
  evaluate m (argument key) finish = false
  evaluate m header_name finish = false
  evaluate m (header_value name) finish = false
  evaluate m or_first finish = false
  evaluate m (or_second b) finish = false
  evaluate m a (also x k) = let (b, next) = evaluate_one m a x in b && evaluate m next k

  pub evaluate_one : Facts → Awaits → Criterion → Bool × Awaits
  evaluate_one m a_key (word w) = read_word m w
  evaluate_one m (argument key) (word s) = (m.has_text key s, a_key)
  evaluate_one m header_name (word name) = (true, header_value name)
  evaluate_one m (header_value name) (word s) = (m.has_header name s, a_key)
  evaluate_one m or_first (word s) = (false, a_key)
  evaluate_one m (or_second b) (word s) = (false, a_key)
  evaluate_one m or_first (group k) = (true, or_second (evaluate m a_key k))
  evaluate_one m (or_second b) (group k) = (b || evaluate m a_key k, a_key)
  evaluate_one m a (group k) = (evaluate m a_key k, a_key)

read_member :
    (m : Facts) (key : Text) (ts : List Text)
    → All (λ t. read_word m t ≡ (true, argument t)) ts
    → text_member key ts ≡ true
    → read_word m key ≡ (true, argument key)
read_member m key [] h e = cc
read_member m key (t ∷ ts) h e = elim (Bool-cases (text_eq t key)) [
  | inl same ↦ subst (λ w. read_word m w ≡ (true, argument w)) (text_eq→eq t key same) h.0
  | inr other ↦ read_member m key ts h.1 (sym (rw other refl) ∙ e)
]

-- The reader decides the meaning of every program that has one.
pub evaluate-Means : (m : Facts) (k : Criteria) (b : Bool) → Means m k b → evaluate m a_key k ≡ b
unfolding evaluate evaluate_one
evaluate-Means m _ _ ended = refl
evaluate-Means m _ _ (all_key d) = evaluate-Means m _ _ d
evaluate-Means m _ _ (seen_key d) = ap (λ b. m.is_seen && b) (evaluate-Means m _ _ d)
evaluate-Means m _ _ (unseen_key d) = ap (λ b. not m.is_seen && b) (evaluate-Means m _ _ d)
evaluate-Means m _ _ (flagged_key d) = ap (λ b. m.is_flagged && b) (evaluate-Means m _ _ d)
evaluate-Means m _ _ (unflagged_key d) = ap (λ b. not m.is_flagged && b) (evaluate-Means m _ _ d)
evaluate-Means m _ _ (text_key key s h d) =
    rw (read_member m key text_keys (refl, (refl, (refl, (refl, (refl, (refl, tt)))))) h)
      (ap (λ b. m.has_text key s && b) (evaluate-Means m _ _ d))
evaluate-Means m _ _ (header_key name s d) =
    ap (λ b. m.has_header name s && b) (evaluate-Means m _ _ d)
evaluate-Means m _ _ (or_key {k} {l} {rest} {a} {b} {d} p q r) =
    rw (evaluate-Means m k a p, evaluate-Means m l b q, evaluate-Means m rest d r) refl
