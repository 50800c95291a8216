-- ===== src/Junk/Cleaner/Spending.antt =====
-- Counting the deletions of a call, against what it may spend.
use apple_mail_fast_mcp.Base.{ℕ, ◌+◌, ◌≤◌, ◌≡◌, refl, inl, inr, ◌⊎◌, arith}
use apple_mail_fast_mcp.Text.{Text}
use apple_mail_fast_mcp.Junk.Cleaner.{
  ProviderAccount, Attempt, returned, message_not_found, permanent_delete_error, raised, and_then,
  Outside,
}
use apple_mail_fast_mcp.Junk.Cleaner.Run.{State}

-- Whether a call returned, as a number.
abbrev pub successes : {A : Type 0} → Attempt A → ℕ
successes (returned a) = 1
successes message_not_found = 0
successes (permanent_delete_error e) = 0
successes raised = 0

-- The deletions that the world has seen: a call of `permanently_delete` that returns is one, and
-- nothing else that the deleting part of the cleaner calls is any.
pub record CountsDeletions {W P : Type 0} (o : Outside W P) (deletions : W → ℕ) : Type 0 where
  pub build :
      (a : ProviderAccount) (e m : Text) (w : W)
      → deletions (o.build_purger a e m w).1 ≡ deletions w
  pub purge :
      (p : P) (id : Text) (w : W)
      → deletions (o.permanently_delete p id w).1
        ≡ deletions w + successes (o.permanently_delete p id w).0

-- How a call ended, and the state that it left.
pub Call-cases :
    {A S : Type 0} (r : Attempt A × S)
    → ((x : A) × (s : S) × (r ≡ (returned x, s)))
      ⊎ ((e : Text) × (s : S) × (r ≡ (permanent_delete_error e, s)))
      ⊎ ((s : S) × (r ≡ (message_not_found, s)))
      ⊎ ((s : S) × (r ≡ (raised, s)))
Call-cases (returned x, s) = inl (x, s, refl)
Call-cases (permanent_delete_error e, s) = inr (inl (e, s, refl))
Call-cases (message_not_found, s) = inr (inr (inl (s, refl)))
Call-cases (raised, s) = inr (inr (inr (s, refl)))

module _ {W : Type 0} (deletions : W → ℕ) where
  abbrev pub Grows : {A : Type 0} → ℕ → Attempt A × State W → Type 0
  Grows n r = deletions r.1.world ≡ n + successes r.0

  pub Grows-and_then :
      {A B : Type 0} (n : ℕ) (r : Attempt A × State W) (f : A → State W → Attempt B × State W)
      → deletions r.1.world ≡ n
      → ((a : A) (s : State W) → deletions s.world ≡ n → Grows n (f a s))
      → Grows n (and_then r f)
  Grows-and_then n (returned a, s) f h k = k a s h
  Grows-and_then n (permanent_delete_error e, s) f h k = omega (arith, h)
  Grows-and_then n (message_not_found, s) f h k = omega (arith, h)
  Grows-and_then n (raised, s) f h k = omega (arith, h)

  pub Grows-map :
      {A B : Type 0} (n : ℕ) (r : Attempt A × State W) (g : A → B)
      → Grows n r
      → Grows n (and_then r (λ a s. (returned (g a), s)))
  Grows-map n (returned a, s) g h = h
  Grows-map n (permanent_delete_error e, s) g h = h
  Grows-map n (message_not_found, s) g h = h
  Grows-map n (raised, s) g h = h

  -- What was deleted, and what may still be after a call that returned, stay within a total.
  abbrev pub Spends : {A : Type 0} → (A → ℕ) → ℕ → Attempt A × State W → Type 0
  Spends left total (returned a, s) = deletions s.world + left a ≤ total
  Spends left total (message_not_found, s) = deletions s.world ≤ total
  Spends left total (permanent_delete_error e, s) = deletions s.world ≤ total
  Spends left total (raised, s) = deletions s.world ≤ total

  pub Spends-and_then :
      {A B : Type 0} (left : A → ℕ) (left' : B → ℕ) (total : ℕ) (r : Attempt A × State W)
      (f : A → State W → Attempt B × State W)
      → Spends left total r
      → ((a : A) (s : State W) → deletions s.world + left a ≤ total → Spends left' total (f a s))
      → Spends left' total (and_then r f)
  Spends-and_then left left' total (returned a, s) f h k = k a s h
  Spends-and_then left left' total (permanent_delete_error e, s) f h k = h
  Spends-and_then left left' total (message_not_found, s) f h k = h
  Spends-and_then left left' total (raised, s) f h k = h

  pub Spends-le :
      {A : Type 0} (left : A → ℕ) (total total' : ℕ) (r : Attempt A × State W)
      → total ≤ total'
      → Spends left total r
      → Spends left total' r
  Spends-le left total total' (returned a, s) le h = omega (arith, le, h)
  Spends-le left total total' (permanent_delete_error e, s) le h = omega (arith, le, h)
  Spends-le left total total' (message_not_found, s) le h = omega (arith, le, h)
  Spends-le left total total' (raised, s) le h = omega (arith, le, h)

  pub Spends-deletions :
      {A : Type 0} (left : A → ℕ) (total : ℕ) (r : Attempt A × State W)
      → Spends left total r
      → deletions r.1.world ≤ total
  Spends-deletions left total (returned a, s) h = omega (arith, h)
  Spends-deletions left total (permanent_delete_error e, s) h = h
  Spends-deletions left total (message_not_found, s) h = h
  Spends-deletions left total (raised, s) h = h
