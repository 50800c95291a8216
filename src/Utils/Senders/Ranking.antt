-- ===== src/Utils/Senders/Ranking.antt =====
-- The ranking of senders: its order, and its counts.
use mathlib.Core.List.{foldl}
use apple_mail_fast_mcp.Base.{
  ℕ, zero, suc, ◌+◌, ◌≡◌, refl, ap, ◌∙◌, inl, inr, Bool-cases, Bool, true, false, ◌&&◌, List, [],
  ◌∷◌, arith, ltb, ◌==◌, is_empty, length, keep, if◌then◌else◌,
}
use apple_mail_fast_mcp.Text.{Text, Unicode, text_eq}
use apple_mail_fast_mcp.Text.Search.{text_eq→eq, text_eq_refl, text_lt-asym}
use apple_mail_fast_mcp.Utils.Senders.{
  sender_key, bump, count_sender, ranks_before, insert_ranked, sort_ranked, ranked,
}

-- No item comes before the one in front of it.
abbrev pub IsRanked : List (Text × ℕ) → Type 0
IsRanked [] = Unit
IsRanked (e ∷ []) = Unit
IsRanked (e ∷ f ∷ es) = (ranks_before f e ≡ false) × IsRanked (f ∷ es)

ranks_before-asym : (e f : Text × ℕ) → ranks_before f e ≡ true → ranks_before e f ≡ false
ranks_before-asym (k, n) (j, m) h = ground (arith, text_lt-asym j k)

insert_ranked-IsRanked :
    (e : Text × ℕ) (es : List (Text × ℕ)) → IsRanked es → IsRanked (insert_ranked e es)
unfolding insert_ranked
insert_ranked-IsRanked e [] r = tt
insert_ranked-IsRanked e (f ∷ []) r = elim (Bool-cases (ranks_before f e)) [
  | inl b ↦ rw b (ranks_before-asym e f b, tt)
  | inr b ↦ rw b (b, tt)
]
insert_ranked-IsRanked e (f ∷ g ∷ es) r =
    let rest = insert_ranked-IsRanked e (g ∷ es) r.1 in
    elim (Bool-cases (ranks_before f e)) [
      | inr b ↦ rw b (b, r)
      | inl b ↦ rw b (elim (Bool-cases (ranks_before g e)) [
        | inl c ↦ rw c (r.0, rw c at rest)
        | inr c ↦ rw c (ranks_before-asym e f b, rw c at rest)
      ])
    ]

sort_ranked-IsRanked : (es : List (Text × ℕ)) → IsRanked (sort_ranked es)
unfolding sort_ranked
sort_ranked-IsRanked [] = tt
sort_ranked-IsRanked (e ∷ es) = insert_ranked-IsRanked e _ (sort_ranked-IsRanked es)

module _ (p : Text × ℕ → Bool) where
  length-keep-insert :
      (e : Text × ℕ) (es : List (Text × ℕ))
      → length (keep p (insert_ranked e es)) ≡ length (keep p (e ∷ es))
  unfolding insert_ranked
  length-keep-insert e [] = refl
  length-keep-insert e (f ∷ es) = ground (arith, length-keep-insert e es)

  length-keep-sort : (es : List (Text × ℕ)) → length (keep p (sort_ranked es)) ≡ length (keep p es)
  unfolding sort_ranked
  length-keep-sort [] = refl
  length-keep-sort (e ∷ es) =
      let one = length-keep-insert e (sort_ranked es) in
      let rest = length-keep-sort es in ground (arith, one, rest)

text_eq-empty : (s t : Text) → is_empty s ≡ true → is_empty t ≡ false → text_eq s t ≡ false
text_eq-empty [] [] h full = cc
text_eq-empty [] (d ∷ t) h full = refl
text_eq-empty (c ∷ s) t h full = cc

module _ (k : Text) where
  abbrev pub of_key : List (Text × ℕ) → List (Text × ℕ)
  of_key = keep (λ e. text_eq e.0 k)

  -- The items of a key, for a number of its occurrences.
  abbrev pub entry : ℕ → List (Text × ℕ)
  entry zero = []
  entry (suc n) = (k, suc n) ∷ []

  of_key-other :
      (j : Text) (counts : List (Text × ℕ))
      → text_eq j k ≡ false
      → of_key (bump j counts) ≡ of_key counts
  unfolding bump
  of_key-other j [] h = rw h refl
  of_key-other j ((i, n) ∷ counts) h = elim (Bool-cases (text_eq i j)) [
    | inl same ↦ let p = text_eq→eq i j same in rw (same, p, h) refl
    | inr differs ↦ rw (differs, of_key-other j counts h) refl
  ]

  -- How many of the senders have the key.
  abbrev pub occurrences : Unicode → Bool → List Text → ℕ
  occurrences u by_domain senders =
      length (keep (λ sender. text_eq (sender_key u by_domain sender) k) senders)

  of_key-found :
      (n : ℕ) (i : Text) (m : ℕ) (counts : List (Text × ℕ))
      → i ≡ k
      → (i, m) ∷ of_key counts ≡ entry n
      → (i, m + 1) ∷ of_key counts ≡ entry (suc n)
  of_key-found zero i m counts p h = cc
  of_key-found (suc n) i m counts p h =
      let e : m ≡ suc n = cc in let f : m + 1 ≡ suc (suc n) = omega (arith, e) in cc

  of_key-same :
      (n : ℕ) (counts : List (Text × ℕ))
      → of_key counts ≡ entry n
      → of_key (bump k counts) ≡ entry (suc n)
  unfolding bump
  of_key-same zero [] h = rw text_eq_refl refl
  of_key-same (suc n) [] h = cc
  of_key-same n ((i, m) ∷ counts) h = elim (Bool-cases (text_eq i k)) [
    | inl same ↦ rw (same, same) (of_key-found n i m counts (text_eq→eq i k same) (rw same at h))
    | inr differs ↦ rw (differs, differs) (of_key-same n counts (rw differs at h))
  ]

  of_key-count :
      (u : Unicode) (by_domain : Bool) (senders : List Text) (n : ℕ) (counts : List (Text × ℕ))
      → is_empty k ≡ false
      → of_key counts ≡ entry n
      → of_key (foldl (count_sender u by_domain) counts senders)
        ≡ entry (n + occurrences u by_domain senders)
  unfolding count_sender
  of_key-count u by_domain [] n counts full h =
      let same : n ≡ n + 0 = omega arith in h ∙ ap entry same
  of_key-count u by_domain (sender ∷ senders) n counts full h =
      elim (Bool-cases (is_empty (sender_key u by_domain sender))) [
        | inl skipped ↦
            let apart = text_eq-empty (sender_key u by_domain sender) k skipped full in
            rw (skipped, apart) (of_key-count u by_domain senders n counts full h)
        | inr kept ↦ elim (Bool-cases (text_eq (sender_key u by_domain sender) k)) [
          | inl same ↦
              let p = text_eq→eq (sender_key u by_domain sender) k same in
              let more : suc n + occurrences u by_domain senders
                  ≡ n + suc (occurrences u by_domain senders) =
                omega arith in
              rw (kept, p, text_eq_refl k)
                (of_key-count u by_domain senders (suc n) (bump k counts) full
                    (of_key-same n counts h)
                  ∙ ap entry more)
          | inr other ↦
              rw (kept, other)
                (of_key-count u by_domain senders n (bump (sender_key u by_domain sender) counts)
                  full (of_key-other (sender_key u by_domain sender) counts other ∙ h))
        ]
      ]

keep-keep :
    (p q : Text × ℕ → Bool) (es : List (Text × ℕ)) → keep (λ e. p e && q e) es ≡ keep q (keep p es)
keep-keep p q [] = refl
keep-keep p q (e ∷ es) = elim (Bool-cases (p e)) [
  | inl passes ↦ elim (Bool-cases (q e)) [
    | inl also ↦ rw (passes, also) (ap (λ r. e ∷ r) (keep-keep p q es))
    | inr fails ↦ rw (passes, fails) (keep-keep p q es)
  ]
  | inr fails ↦ rw fails (keep-keep p q es)
]

length-entry :
    (k : Text) (n m : ℕ)
    → length (keep (λ e. e.1 == n) (entry k m)) ≡ (if n == m && ltb 0 n then 1 else 0)
length-entry k n zero = ground arith
length-entry k n (suc m) = ground arith

length-keep-entry :
    (k : Text) (n m : ℕ) (es : List (Text × ℕ))
    → of_key k es ≡ entry k m
    → length (keep (λ e. text_eq e.0 k && e.1 == n) es) ≡ (if n == m && ltb 0 n then 1 else 0)
length-keep-entry k n m es h =
    ap length (keep-keep (λ e. text_eq e.0 k) (λ e. e.1 == n) es) ∙ rw h (length-entry k n m)

module _ (u : Unicode) (by_domain : Bool) (senders : List Text) where
  -- The ranking is in order: no item has a greater count than the one in front of it, or the same count
  -- and a key that sorts before its key. It has each key with the number of its senders and with no
  -- other number, once, unless that number is 0.
  pub ranked-IsRanked :
      IsRanked (ranked u by_domain senders)
      × ((k : Text) (n : ℕ)
          → is_empty k ≡ false
          → length (keep (λ e. text_eq e.0 k && e.1 == n) (ranked u by_domain senders))
            ≡ (if n == occurrences k u by_domain senders && ltb 0 n then 1 else 0))
  unfolding ranked
  ranked-IsRanked = (
    sort_ranked-IsRanked _,
    λ k n full.
        length-keep-sort (λ e. text_eq e.0 k && e.1 == n) _
        ∙ length-keep-entry k n (occurrences k u by_domain senders) _
            (of_key-count k u by_domain senders 0 [] full refl ∙ ap (entry k) (omega arith)),
  )
