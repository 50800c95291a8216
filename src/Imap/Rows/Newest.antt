-- ===== src/Imap/Rows/Newest.antt =====
-- The scan in chunks finds the newest rows, as many as the limit says, and gives them oldest first.
use mathlib.Core.List.{reverse, reverse-append, append_assoc, append-nil}
use apple_mail_fast_mcp.Base.{
  ℕ, zero, suc, ◌+◌, ◌-◌, ◌≤◌, ◌<◌, ◌≡◌, refl, sym, ap, ◌∙◌, inl, inr, Bool, true, false, Option,
  none, some, List, [], ◌∷◌, ◌++◌, ◌==◌, arith, Bool-cases, Option-cases, length, take, drop,
  length-append, if◌then◌else◌,
}
use apple_mail_fast_mcp.Imap.{Reply, value}
use apple_mail_fast_mcp.Imap.Rows.{reached, take_rows, scan, chunk_size, collect_rows}

-- A limit that a number of rows has not reached
abbrev pub IsBelow : Option ℕ → ℕ → Type 0
IsBelow none n = Unit
IsBelow (some limit) n = n < limit

reached-IsBelow : (limit : Option ℕ) (n : ℕ) → reached limit n ≡ false → IsBelow limit n
reached-IsBelow none n h = tt
reached-IsBelow (some l) n h = ground arith

not_reached : (limit : Option ℕ) (n : ℕ) → IsBelow limit n → reached limit n ≡ false
not_reached none n h = refl
not_reached (some l) n h = ground arith

module _ {R : Type 0} where
  -- The rows of a list of UIDs, and as many of them as a limit allows
  unfoldable pub rows_in : (ℕ → Option R) → List ℕ → List R
  rows_in look [] = []
  rows_in look (u ∷ us) = elim (look u) [
    | none ↦ rows_in look us
    | some row ↦ row ∷ rows_in look us
  ]

  abbrev pub newest : Option ℕ → List R → List R
  newest none rows = rows
  newest (some limit) rows = take limit rows

  rows_in-append :
      (look : ℕ → Option R) (us vs : List ℕ)
      → rows_in look (us ++ vs) ≡ rows_in look us ++ rows_in look vs
  unfolding rows_in
  rows_in-append look [] vs = refl
  rows_in-append look (u ∷ us) vs = ground (arith, rows_in-append look us vs)

  take_all : (n : ℕ) (xs : List R) → length xs ≤ n → take n xs ≡ xs
  take_all zero [] h = refl
  take_all zero (x ∷ xs) h = absurd (omega arith)
  take_all (suc n) [] h = refl
  take_all (suc n) (x ∷ xs) h = ap (λ ys. x ∷ ys) (take_all n xs (omega arith))

  take_of_append : (n : ℕ) (xs ys : List R) → n ≤ length xs → take n (xs ++ ys) ≡ take n xs
  take_of_append zero xs ys h = refl
  take_of_append (suc n) [] ys h = absurd (omega arith)
  take_of_append (suc n) (x ∷ xs) ys h = ap (λ zs. x ∷ zs) (take_of_append n xs ys (omega arith))

  newest_below : (limit : Option ℕ) (xs : List R) → IsBelow limit (length xs) → newest limit xs ≡ xs
  newest_below none xs h = refl
  newest_below (some n) xs h = take_all n xs (omega arith)

  newest_reached :
      (limit : Option ℕ) (xs ys : List R)
      → reached limit (length xs) ≡ true
      → newest limit (xs ++ ys) ≡ newest limit xs
  newest_reached none xs ys h = cc
  newest_reached (some n) xs ys h = take_of_append n xs ys (ground arith)

  length-snoc : (xs : List R) (x : R) → length (xs ++ x ∷ []) ≡ length xs + 1
  length-snoc xs x = length-append xs (x ∷ [])

  -- The row that reaches the limit is the last that counts.
  last_row :
      (limit : Option ℕ) (rows : List R) (row : R) (rest : List R)
      → IsBelow limit (length rows)
      → reached limit (length rows + 1) ≡ true
      → (newest limit (rows ++ row ∷ rest) ≡ rows ++ row ∷ [])
        × (reached limit (length (rows ++ row ∷ rest)) ≡ true)
  last_row none rows row rest h k = cc
  last_row (some l) rows row rest h k = (
    ap (take l) (sym (append_assoc rows (row ∷ []) rest))
        ∙ take_of_append l (rows ++ row ∷ []) rest (ground (arith, length-snoc rows row))
        ∙ take_all l (rows ++ row ∷ []) (ground (arith, length-snoc rows row)),
    ground (arith, length-append rows (row ∷ rest)),
  )

  append-IsBelow :
      (limit : Option ℕ) (rows : List R) (row : R)
      → reached limit (length rows + 1) ≡ false
      → IsBelow limit (length (rows ++ row ∷ []))
  append-IsBelow limit rows row h =
      reached-IsBelow limit _ (ap (reached limit) (length-snoc rows row) ∙ h)

  rows_in-some :
      (look : ℕ → Option R) (u : ℕ) (us : List ℕ) (row : R)
      → look u ≡ some row
      → rows_in look (u ∷ us) ≡ row ∷ rows_in look us
  unfolding rows_in
  rows_in-some look u us row e = rw (e, rows_in) refl

  take_rows-some :
      (limit : Option ℕ) (u : ℕ) (us : List ℕ) (look : ℕ → Option R) (rows : List R) (row : R)
      → look u ≡ some row
      → take_rows limit (u ∷ us) look rows ≡ (
          if reached limit (length rows + 1)
          then (rows ++ row ∷ [], true)
          else take_rows limit us look (rows ++ row ∷ []))
  unfolding take_rows
  take_rows-some limit u us look rows row e = rw (e, take_rows) refl

  -- What the inner loop returns for a list of rows behind those so far
  abbrev outcome : Option ℕ → List R → List R × Bool
  outcome limit rows = (newest limit rows, reached limit (length rows))

  take_rows_lem :
      (limit : Option ℕ) (us : List ℕ) (look : ℕ → Option R) (rows : List R)
      → IsBelow limit (length rows)
      → take_rows limit us look rows ≡ outcome limit (rows ++ rows_in look us)
  unfolding take_rows rows_in
  take_rows_lem limit [] look rows h =
      rw (append-nil, newest_below limit rows h, not_reached limit (length rows) h) refl
  take_rows_lem limit (u ∷ us) look rows h = elim (Option-cases (look u)) [
    | inl skipped ↦ ground (arith, skipped, take_rows_lem limit us look rows h)
    | inr (row, e) ↦
        take_rows-some limit u us look rows row e
        ∙ elim (Bool-cases (reached limit (length rows + 1))) [
          | inl full ↦
              let (cut, met) = last_row limit rows row (rows_in look us) h full in
              rw (full, rows_in-some look u us row e, cut, met) refl
          | inr space ↦
              rw (space, rows_in-some look u us row e)
                (take_rows_lem limit us look (rows ++ row ∷ [])
                    (append-IsBelow limit rows row space)
                  ∙ ap (outcome limit) (append_assoc rows (row ∷ []) (rows_in look us)))
        ]
  ]

take-drop : (n : ℕ) (us : List ℕ) → us ≡ take n us ++ drop n us
take-drop zero us = refl
take-drop (suc n) [] = refl
take-drop (suc n) (u ∷ us) = ap (λ vs. u ∷ vs) (take-drop n us)

take-take : (n m : ℕ) (us : List ℕ) → n ≤ m → take n (take m us) ≡ take n us
take-take zero m us h = refl
take-take (suc n) zero us h = absurd (omega arith)
take-take (suc n) (suc m) [] h = refl
take-take (suc n) (suc m) (u ∷ us) h = ap (λ vs. u ∷ vs) (take-take n m us (omega arith))

-- The UIDs below a position are those below the chunk, and the chunk.
slice :
    (end size : ℕ) (us : List ℕ)
    → take end us ≡ take (end - size) us ++ drop (end - size) (take end us)
slice end size us =
    take-drop (end - size) (take end us)
    ∙ ap (λ vs. vs ++ drop (end - size) (take end us)) (take-take (end - size) end us (omega arith))

zero_test : (n : ℕ) → 0 < n → (n == 0) ≡ false
zero_test n h = ground arith

take-length : (us : List ℕ) → take (length us) us ≡ us
take-length [] = refl
take-length (u ∷ us) = ap (λ vs. u ∷ vs) (take-length us)

module _ {W R : Type 0} (fetch : List ℕ → W → Reply (ℕ → Option R) × W) (look : ℕ → Option R)
    (answers : (chunk : List ℕ) (w : W) → fetch chunk w ≡ (value look, w)) where
  -- The rows below a position, newest first
  abbrev rows_below : ℕ → List ℕ → List R
  rows_below end us = rows_in look (reverse (take end us))

  rows_below_slice :
      (end size : ℕ) (us : List ℕ)
      → rows_below end us
        ≡ rows_in look (reverse (drop (end - size) (take end us))) ++ rows_below (end - size) us
  rows_below_slice end size us =
      ap (λ vs. rows_in look (reverse vs)) (slice end size us)
      ∙ ap (rows_in look) (reverse-append (take (end - size) us) (drop (end - size) (take end us)))
      ∙ rows_in-append look _ _

  no_more :
      (limit : Option ℕ) (rows : List R)
      → IsBelow limit (length rows)
      → rows ≡ newest limit (rows ++ [])
  no_more limit rows h = rw (append-nil, newest_below limit rows h) refl

  scan_lem :
      (fuel : ℕ) (limit : Option ℕ) (size : ℕ) (us : List ℕ) (end : ℕ) (rows : List R) (w : W)
      → end ≤ fuel
      → 0 < size
      → IsBelow limit (length rows)
      → scan fetch fuel limit size us end rows w
        ≡ (value (newest limit (rows ++ rows_below end us)), w)
  unfolding scan rows_in
  scan_lem zero limit size us zero rows w h k b = ap (λ r. (value r, w)) (no_more limit rows b)
  scan_lem zero limit size us (suc e) rows w h k b = absurd (omega arith)
  scan_lem (suc fuel) limit size us zero rows w h k b =
      ap (λ r. (value r, w)) (no_more limit rows b)
  scan_lem (suc fuel) limit size us (suc e) rows w h k b =
      let chunk = drop (suc e - size) (take (suc e) us) in
      let all_rows = rows ++ rows_in look (reverse chunk) in
      rw
        (
          answers chunk w,
          take_rows_lem limit (reverse chunk) look rows b,
          rows_below_slice (suc e) size us,
          sym (append_assoc rows (rows_in look (reverse chunk)) (rows_below (suc e - size) us)),
        )
        (elim (Bool-cases (reached limit (length all_rows))) [
          | inl full ↦
              rw (full, newest_reached limit all_rows (rows_below (suc e - size) us) full) refl
          | inr space ↦
              let b' = reached-IsBelow limit (length all_rows) space in
              rw (space, newest_below limit all_rows b')
                (scan_lem fuel limit size us (suc e - size) all_rows w (omega arith) k b')
        ])

  chunk_size-pos : (limit : Option ℕ) (us : List ℕ) → 0 < length us → 0 < chunk_size fetch limit us
  chunk_size-pos none us h = h
  chunk_size-pos (some n) us h = omega arith

  -- On a server that answers every FETCH from the same messages, with some UIDs, and with a limit
  -- that is positive or absent: the rows are those of the newest messages that have one, as many as
  -- the limit allows, oldest first. Messages that vanished or that the filter refuses do not count.
  pub collect_rows-newest :
      (limit : Option ℕ) (uids : List ℕ) (w : W)
      → 0 < length uids
      → IsBelow limit 0
      → collect_rows fetch limit uids w
        ≡ (value (reverse (newest limit (rows_in look (reverse uids)))), w)
  unfolding collect_rows
  collect_rows-newest limit uids w some_uids b =
      rw
        (
          zero_test (chunk_size fetch limit uids) (chunk_size-pos limit uids some_uids),
          scan_lem (length uids) limit (chunk_size fetch limit uids) uids (length uids) [] w
              (omega arith) (chunk_size-pos limit uids some_uids) b,
          take-length uids,
        )
        refl
