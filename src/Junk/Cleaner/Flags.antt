-- ===== src/Junk/Cleaner/Flags.antt =====
-- How `clear_junk_flags` ends, over a connector that finds and clears flags.
use apple_mail_fast_mcp.Base.{
  ℕ, zero, suc, ◌+◌, ◌-◌, ◌*◌, ◌≤◌, ◌<◌, ◌≡◌, refl, ap, ◌∙◌, inl, inr, ◌⊎◌, List, [], ◌∷◌, arith,
  length,
}
use Prim.Native.Nat.{min}
use apple_mail_fast_mcp.Text.{Text}
use apple_mail_fast_mcp.Junk.Evidence.{MessageRow}
use apple_mail_fast_mcp.Junk.Cleaner.{
  returned, raised, and_then, Outside, message_ids, clear_batches, clear_junk_flags,
}

-- What the connector's two calls do to the number of flagged messages of one mailbox: the search
-- finds all of them, up to 100, and an update unflags as many as it is given.
pub record Unflags {W P : Type 0} (o : Outside W P) (account mailbox : Text) (flagged : W → ℕ)
    : Type 0 where
  pub search :
      (w : W)
      → (rows : List MessageRow) × (o.search_flagged account mailbox w ≡ (returned rows, w))
        × (length (message_ids rows) ≡ min 100 (flagged w))
  pub update :
      (ids : List Text) (w : W)
      → (w' : W) × (o.unflag ids account mailbox w ≡ (returned (length ids), w'))
        × (flagged w' ≡ flagged w - length ids)

module _ {W P : Type 0} (o : Outside W P) (account mailbox : Text) (flagged : W → ℕ)
    (calls : Unflags o account mailbox flagged) where
  clear_batches_step :
      (n total : ℕ) (w w' : W) (rows : List MessageRow) (id : Text) (ids : List Text)
      → o.search_flagged account mailbox w ≡ (returned rows, w)
      → message_ids rows ≡ id ∷ ids
      → o.unflag (id ∷ ids) account mailbox w ≡ (returned (length (id ∷ ids)), w')
      → clear_batches o (suc n) account mailbox total w
        ≡ clear_batches o n account mailbox (total + length (id ∷ ids)) w'
  unfolding clear_batches
  clear_batches_step n total w w' rows id ids s m v = rw (s, and_then, m, v) refl

  clear_batches_end :
      (n total : ℕ) (w : W) (rows : List MessageRow)
      → o.search_flagged account mailbox w ≡ (returned rows, w)
      → message_ids rows ≡ []
      → clear_batches o (suc n) account mailbox total w ≡ (returned total, w)
  unfolding clear_batches
  clear_batches_end n total w rows s m = rw (s, and_then, m) refl

  List-cases : (ts : List Text) → (ts ≡ []) ⊎ ((t : Text) × (us : List Text) × (ts ≡ t ∷ us))
  List-cases [] = inl refl
  List-cases (t ∷ us) = inr (t, us, refl)

  clear_batches_clears :
      (n total : ℕ) (w : W)
      → flagged w + 100 ≤ 100 * n
      → (w' : W) × (clear_batches o n account mailbox total w ≡ (returned (total + flagged w), w'))
        × (flagged w' ≡ 0)
  clear_batches_clears zero total w h = absurd (omega (arith, h))
  clear_batches_clears (suc n) total w h =
      let (rows, s, e) = calls.search w in
      elim (List-cases (message_ids rows)) [
        | inl done ↦
            let k : 0 ≡ min 100 (flagged w) = rw done at e in
            let same : total ≡ total + flagged w = omega (arith, k) in
            (
              w,
              clear_batches_end n total w rows s done ∙ ap (λ t. (returned t, w)) same,
              omega (arith, k),
            )
        | inr (id, ids, more) ↦
            let (w', v, f) = calls.update (id ∷ ids) w in
            let k : length (id ∷ ids) ≡ min 100 (flagged w) = rw more at e in
            let (w'', r, z) =
              clear_batches_clears n (total + length (id ∷ ids)) w' (omega (arith, k, f, h)) in
            let same : total + length (id ∷ ids) + flagged w' ≡ total + flagged w =
              omega (arith, k, f) in
            (
              w'',
              clear_batches_step n total w w' rows id ids s more v
                  ∙ r
                  ∙ ap (λ t. (returned t, w'')) same,
              z,
            )
      ]

  -- Where the search finds the flagged messages of the mailbox, a hundred at most at a time, and the
  -- update unflags those it is given, clearing up to 9900 flags ends within the hundred batches that
  -- it has: it returns their number, and no flag is left.
  pub clear_junk_flags_clears :
      (w : W)
      → flagged w ≤ 9900
      → (w' : W) × (clear_junk_flags o account mailbox w ≡ (returned (flagged w), w'))
        × (flagged w' ≡ 0)
  unfolding clear_junk_flags
  clear_junk_flags_clears w h =
      let (w', r, z) = clear_batches_clears 100 0 w (omega (arith, h)) in
      let same : 0 + flagged w ≡ flagged w = omega arith in
      (w', r ∙ ap (λ t. (returned t, w')) same, z)

  clear_batches_out :
      (total : ℕ) (w : W) → clear_batches o zero account mailbox total w ≡ (raised, w)
  unfolding clear_batches
  clear_batches_out total w = refl

  clear_batches_raises :
      (n total : ℕ) (w : W)
      → 100 * n < flagged w + 100
      → (w' : W) × (clear_batches o n account mailbox total w ≡ (raised, w'))
        × (flagged w' ≡ flagged w - 100 * n)
  clear_batches_raises zero total w h = (w, clear_batches_out total w, omega arith)
  clear_batches_raises (suc n) total w h =
      let (rows, s, e) = calls.search w in
      elim (List-cases (message_ids rows)) [
        | inl done ↦ let k : 0 ≡ min 100 (flagged w) = rw done at e in absurd (omega (arith, k, h))
        | inr (id, ids, more) ↦
            let (w', v, f) = calls.update (id ∷ ids) w in
            let k : length (id ∷ ids) ≡ min 100 (flagged w) = rw more at e in
            let (w'', r, z) =
              clear_batches_raises n (total + length (id ∷ ids)) w' (omega (arith, k, f, h)) in
            (
              w'',
              clear_batches_step n total w w' rows id ids s more v ∙ r,
              omega (arith, k, f, h, z),
            )
      ]

  -- With the same search and update, clearing more than 9900 flags raises after ten thousand of them
  -- were cleared, or all of them if there were no more than that.
  pub clear_junk_flags_raises :
      (w : W)
      → 9900 < flagged w
      → (w' : W) × (clear_junk_flags o account mailbox w ≡ (raised, w'))
        × (flagged w' ≡ flagged w - 10000)
  unfolding clear_junk_flags
  clear_junk_flags_raises w h = clear_batches_raises 100 0 w (omega (arith, h))
