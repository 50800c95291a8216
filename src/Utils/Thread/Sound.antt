-- ===== src/Utils/Thread/Sound.antt =====
-- Every accepted candidate hangs together with the known ids.
use mathlib.Core.List.{foldl}
use apple_mail_fast_mcp.Base.{
  ℕ, zero, suc, String, ◌≡◌, refl, ◌⊎◌, inl, inr, true, false, List, [], ◌∷◌, arith, member,
  member-append, All, All-append, Bool-cases, eq_refl,
}
use apple_mail_fast_mcp.Utils.Thread.{
  Candidate, refs, overlaps, Walk, visit, pass, walk_from, start, walk_thread_graph,
}

-- Membership in a list of candidates.
abbrev pub In : Candidate → List Candidate → Type 0
In c [] = ⊥
In c (d ∷ ds) = (c ≡ d) ⊎ In c ds

-- The ids of the thread: the known ones, and all that a candidate mentions that mentions one.
pub data Linked (known : List String) (candidates : List Candidate) : String → Type 0 where
  seed : (m : String) → member m known ≡ true → Linked known candidates m
  via :
      (c : Candidate) (r m : String)
      → In c candidates
      → member r (refs c) ≡ true
      → Linked known candidates r
      → member m (refs c) ≡ true
      → Linked known candidates m

-- A candidate that mentions an id of the thread.
pub record BelongsTo (known : List String) (candidates : List Candidate) (c : Candidate)
    : Type 0 where
  pub among : In c candidates
  pub mentioned : String
  pub mentions : member mentioned (refs c) ≡ true
  pub linked : Linked known candidates mentioned

pub overlaps-member :
    (xs ys : List String)
    → overlaps xs ys ≡ true
    → (x : String) × (member x xs ≡ true) × (member x ys ≡ true)
overlaps-member [] ys h = cc
overlaps-member (x ∷ xs) ys h = elim (Bool-cases (member x ys)) [
  | inl found ↦ (x, rw (eq_refl x) refl, found)
  | inr missed ↦ let (z, a, b) = overlaps-member xs ys (ground arith) in (z, ground arith, b)
]

module _ (known : List String) (candidates : List Candidate) where
  record IsSound (w : Walk) : Type 0 where
    members : All (BelongsTo known candidates) w.accepted
    reached : (m : String) → member m w.frontier ≡ true → Linked known candidates m

  visit-IsSound : (w : Walk) (c : Candidate) → In c candidates → IsSound w → IsSound (visit w c)
  unfolding visit
  visit-IsSound w c among s = elim (Bool-cases (member c.id w.accepted_ids)) [
    | inl old ↦ rw old s
    | inr new ↦ elim (Bool-cases (overlaps (refs c) w.frontier)) [
      | inr apart ↦ rw (new, apart) s
      | inl meets ↦
          let (r, mine, known_r) = overlaps-member (refs c) w.frontier meets in
          let link = s.reached r known_r in
          rw (new, meets)
            (record {
              members =
                  All-append _ w.accepted (c ∷ []) s.members
                    (record { among = among; mentioned = r; mentions = mine; linked = link }, tt);
              reached = λ m e. elim (Bool-cases (member m (refs c))) [
                | inl own ↦ via c r m among mine link own
                | inr other ↦
                    s.reached m
                      (let split = member-append m (refs c) w.frontier in ground (arith, split))
              ];
            })
    ]
  ]

  foldl-IsSound :
      (w : Walk) (cs : List Candidate)
      → ((c : Candidate) → In c cs → In c candidates)
      → IsSound w
      → IsSound (foldl visit w cs)
  foldl-IsSound w [] sub s = s
  foldl-IsSound w (c ∷ cs) sub s =
      foldl-IsSound (visit w c) cs (λ d i. sub d (inr i)) (visit-IsSound w c (sub c (inl refl)) s)

  walk_from-IsSound : (n : ℕ) (w : Walk) → IsSound w → IsSound (walk_from n candidates w)
  unfolding walk_from pass
  walk_from-IsSound zero w s = s
  walk_from-IsSound (suc n) w s =
      let s' =
        foldl-IsSound (record w { changed = false }) candidates (λ c i. i)
          (record { members = s.members; reached = s.reached }) in
      elim (Bool-cases (pass candidates w).changed) [
        | inl more ↦ rw more (walk_from-IsSound n _ s')
        | inr done ↦ rw done s'
      ]

  -- Whatever the cap on the rounds, each accepted candidate is one of the candidates and mentions an
  -- id that a chain of candidates, each mentioning an id of the one before, ties to the known ids.
  pub walk_thread_graph-BelongsTo :
      (max_iterations : ℕ)
      → All (BelongsTo known candidates) (walk_thread_graph known candidates max_iterations)
  unfolding walk_thread_graph
  walk_thread_graph-BelongsTo n =
      (walk_from-IsSound n (start known) (record { members = tt; reached = seed })).members
