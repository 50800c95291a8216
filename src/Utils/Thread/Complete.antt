-- ===== src/Utils/Thread/Complete.antt =====
-- With enough rounds no candidate of the thread is missed.
use mathlib.Core.List.{foldl}
use mathlib.Core.Path.{subst}
use apple_mail_fast_mcp.Base.{
  ℕ, zero, suc, ◌<◌, String, ◌≡◌, refl, sym, inl, inr, true, false, not, List, [], ◌∷◌, ◌++◌, arith,
  length, length-keep, member, member-append, Bool-cases, eq_iff, str_eq,
}
use apple_mail_fast_mcp.Utils.Thread.{
  Candidate, refs, overlaps, Walk, visit, pass, walk_from, start, walk_thread_graph,
}
use apple_mail_fast_mcp.Utils.Thread.Rounds.{
  pending, Within, IsClosed, absurd-changed, foldl-pending, foldl-IsClosed,
}
use apple_mail_fast_mcp.Utils.Thread.Sound.{In, Linked, BelongsTo}

In-last : (c d : Candidate) (cs : List Candidate) → c ≡ d → In c (cs ++ d ∷ [])
In-last c d [] p = inl p
In-last c d (e ∷ cs) p = inr (In-last c d cs p)

In-before : (c : Candidate) (cs : List Candidate) (d : Candidate) → In c cs → In c (cs ++ d ∷ [])
In-before c [] d i = elim i [ ]
In-before c (e ∷ cs) d (inl p) = inl p
In-before c (e ∷ cs) d (inr i) = inr (In-before c cs d i)

member-overlaps :
    (x : String) (xs ys : List String)
    → member x xs ≡ true
    → member x ys ≡ true
    → overlaps xs ys ≡ true
member-overlaps x [] ys h k = cc
member-overlaps x (z ∷ xs) ys h k = elim (Bool-cases (str_eq z x)) [
  | inl p ↦ let q : z ≡ x = (eq_iff z x).0 p in rw (q, k) refl
  | inr n ↦ let rest = member-overlaps x xs ys (ground arith) k in ground (arith, rest)
]

module _ (known : List String) (candidates : List Candidate) where
  -- No two candidates have one id.
  abbrev pub HasDistinctIds : Type 0
  HasDistinctIds = (c d : Candidate) → In c candidates → In d candidates → c.id ≡ d.id → c ≡ d

  -- The frontier has the known ids, and all that an accepted candidate mentions.
  record IsFull (w : Walk) : Type 0 where
    knows : Within known w.frontier
    covers :
        (c : Candidate)
        → In c candidates
        → member c.id w.accepted_ids ≡ true
        → Within (refs c) w.frontier
    lists : (c : Candidate) → In c candidates → member c.id w.accepted_ids ≡ true → In c w.accepted

  visit-IsFull :
      HasDistinctIds → (w : Walk) (d : Candidate) → In d candidates → IsFull w → IsFull (visit w d)
  unfolding visit
  visit-IsFull distinct w d among f = elim (Bool-cases (member d.id w.accepted_ids)) [
    | inl old ↦ rw old f
    | inr new ↦ elim (Bool-cases (overlaps (refs d) w.frontier)) [
      | inr apart ↦ rw (new, apart) f
      | inl meets ↦
          rw (new, meets)
            (record {
              knows = λ x m.
                  let both = member-append x (refs d) w.frontier in
                  let old = f.knows x m in ground (arith, both, old);
              covers = λ c i m x r. elim (Bool-cases (str_eq d.id c.id)) [
                | inl p ↦
                    let q = distinct c d i among (sym ((eq_iff d.id c.id).0 p)) in
                    rw (member-append x (refs d) w.frontier, ← q, r) refl
                | inr n ↦
                    let both = member-append x (refs d) w.frontier in
                    let old = f.covers c i (ground arith) x r in ground (arith, both, old)
              ];
              lists = λ c i m. elim (Bool-cases (str_eq d.id c.id)) [
                | inl p ↦
                    let q = distinct c d i among (sym ((eq_iff d.id c.id).0 p)) in
                    In-last c d w.accepted q
                | inr n ↦ In-before c w.accepted d (f.lists c i (ground arith))
              ];
            })
    ]
  ]

  foldl-IsFull :
      HasDistinctIds
      → (w : Walk) (cs : List Candidate) → ((c : Candidate) → In c cs → In c candidates)
      → IsFull w
      → IsFull (foldl visit w cs)
  foldl-IsFull distinct w [] sub f = f
  foldl-IsFull distinct w (c ∷ cs) sub f =
      foldl-IsFull distinct (visit w c) cs (λ d i. sub d (inr i))
        (visit-IsFull distinct w c (sub c (inl refl)) f)

  abbrev reset : Walk → Walk
  reset w = record w { changed = false }

  -- The loop ends full and closed.
  record IsFinal (w : Walk) : Type 0 where
    full : IsFull w
    closed : (c : Candidate) → In c candidates → IsClosed w c

  walk_from-IsFinal :
      HasDistinctIds
      → (n : ℕ) (w : Walk) → length (pending w.accepted_ids candidates) < n
      → IsFull w
      → IsFinal (walk_from n candidates w)
  unfolding walk_from pass
  walk_from-IsFinal distinct zero w h f = elim h [ ]
  walk_from-IsFinal distinct (suc n) w h f =
      let f' =
        foldl-IsFull distinct (reset w) candidates (λ c i. i)
          (record { knows = f.knows; covers = f.covers; lists = f.lists }) in
      elim (Bool-cases (pass candidates w).changed) [
        | inl more ↦ rw more (
            walk_from-IsFinal distinct n (pass candidates w)
              (let fewer = foldl-pending (reset w) candidates refl more in omega (arith, fewer)) f')
        | inr done ↦
            let (same, closed) = foldl-IsClosed (reset w) candidates done in
            rw done (record {
              full = f';
              closed = λ c i. subst (λ v. IsClosed v c) (sym same) (closed c i);
            })
      ]

  -- At the end the frontier has every id of the thread.
  Linked-frontier :
      (w : Walk) → IsFinal w → {m : String} → Linked known candidates m → member m w.frontier ≡ true
  Linked-frontier w f (Linked.seed m k) = f.full.knows m k
  Linked-frontier w f (Linked.via c r m i mr l mm) =
      let reached = Linked-frontier w f l in
      let meets = member-overlaps r (refs c) w.frontier mr reached in
      elim (f.closed c i) [
        | inl accepted ↦ f.full.covers c i accepted m mm
        | inr apart ↦ absurd-changed meets apart
      ]

  BelongsTo-accepted :
      (w : Walk) → IsFinal w → (c : Candidate) → BelongsTo known candidates c → In c w.accepted
  BelongsTo-accepted w f c b =
      let reached = Linked-frontier w f b.linked in
      let meets = member-overlaps b.mentioned (refs c) w.frontier b.mentions reached in
      elim (f.closed c b.among) [
        | inl accepted ↦ f.full.lists c b.among accepted
        | inr apart ↦ absurd-changed meets apart
      ]

  -- Where no two candidates have one id, a cap above the number of candidates is enough rounds: the
  -- walk accepts every candidate that a chain of candidates ties to the known ids.
  pub walk_thread_graph_complete :
      (max_iterations : ℕ)
      → HasDistinctIds
      → length candidates < max_iterations
      → (c : Candidate) → BelongsTo known candidates c
      → In c (walk_thread_graph known candidates max_iterations)
  unfolding walk_thread_graph
  walk_thread_graph_complete n distinct enough =
      let few = length-keep (λ c. not (member c.id [])) candidates in
      BelongsTo-accepted (walk_from n candidates (start known)) (
        walk_from-IsFinal distinct n (start known) (omega (arith, few))
          (record { knows = λ x m. m; covers = λ c i m. cc; lists = λ c i m. cc }))
