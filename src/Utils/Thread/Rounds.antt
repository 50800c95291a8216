-- ===== src/Utils/Thread/Rounds.antt =====
-- One round of the walk: what it leaves pending, and what it means that it changed nothing.
use mathlib.Core.List.{foldl}
use mathlib.Core.Path.{subst}
use apple_mail_fast_mcp.Base.{
  ◌≤◌, ◌<◌, String, ◌≡◌, refl, sym, ◌⊎◌, inl, inr, Bool, true, false, not, List, [], ◌∷◌, arith,
  length, keep, member, Bool-cases, eq_refl,
}
use apple_mail_fast_mcp.Utils.Thread.{Candidate, refs, overlaps, Walk, visit}
use apple_mail_fast_mcp.Utils.Thread.Sound.{In}

-- The candidates whose id has not been accepted.
abbrev pub pending : List String → List Candidate → List Candidate
pending ids = keep (λ c. not (member c.id ids))

abbrev pub Within : List String → List String → Type 0
Within xs ys = (x : String) → member x xs ≡ true → member x ys ≡ true

visit-Within : (w : Walk) (c : Candidate) → Within w.accepted_ids (visit w c).accepted_ids
unfolding visit
visit-Within w c x h = ground arith

foldl-Within :
    (w : Walk) (cs : List Candidate) → Within w.accepted_ids (foldl visit w cs).accepted_ids
foldl-Within w [] x h = h
foldl-Within w (c ∷ cs) x h = foldl-Within (visit w c) cs x (visit-Within w c x h)

pending_mono :
    (xs ys : List String) (cs : List Candidate)
    → Within xs ys
    → length (pending ys cs) ≤ length (pending xs cs)
pending_mono xs ys [] sub = omega arith
pending_mono xs ys (c ∷ cs) sub =
    let rest = pending_mono xs ys cs sub in
    elim (Bool-cases (member c.id xs)) [
      | inl old ↦ rw (old, sub c.id old) rest
      | inr new ↦ rw new (ground (arith, rest))
    ]

-- What a visit does: nothing, to a candidate that is accepted or mentions nothing of the thread,
-- or it accepts the candidate.
visit-cases :
    (w : Walk) (c : Candidate)
    → (visit w c ≡ w)
        × ((member c.id w.accepted_ids ≡ true) ⊎ (overlaps (refs c) w.frontier ≡ false))
      ⊎ ((member c.id w.accepted_ids ≡ false)
          × (member c.id (visit w c).accepted_ids ≡ true)
          × ((visit w c).changed ≡ true))
unfolding visit
visit-cases w c = elim (Bool-cases (member c.id w.accepted_ids)) [
  | inl old ↦ inl (rw old refl, inl old)
  | inr new ↦ elim (Bool-cases (overlaps (refs c) w.frontier)) [
    | inl meets ↦ inr (new, rw (new, meets) (rw (eq_refl c.id) refl), rw (new, meets) refl)
    | inr apart ↦ inl (rw (new, apart) refl, inr apart)
  ]
]

foldl-changed :
    (w : Walk) (cs : List Candidate) → w.changed ≡ true → (foldl visit w cs).changed ≡ true
unfolding visit
foldl-changed w [] h = h
foldl-changed w (c ∷ cs) h = foldl-changed (visit w c) cs (ground arith)

-- A round that accepts something leaves fewer candidates.
pub foldl-pending :
    (w : Walk) (cs : List Candidate)
    → w.changed ≡ false
    → (foldl visit w cs).changed ≡ true
    → length (pending (foldl visit w cs).accepted_ids cs) < length (pending w.accepted_ids cs)
foldl-pending w [] h k = cc
foldl-pending w (c ∷ cs) h k = elim (visit-cases w c) [
  | inl (same, _) ↦
      let ih = foldl-pending w cs h (subst (λ v. (foldl visit v cs).changed ≡ true) same k) in
      subst
        (λ v.
          length (pending (foldl visit v cs).accepted_ids (c ∷ cs))
          < length (pending w.accepted_ids (c ∷ cs)))
        (sym same)
        (elim (Bool-cases (member c.id w.accepted_ids)) [
          | inl old ↦ rw (old, foldl-Within w cs c.id old) ih
          | inr new ↦ rw new (ground (arith, ih))
        ])
  | inr (new, now, changed) ↦
      rw (new, foldl-Within (visit w c) cs c.id now)
        (let mono =
            pending_mono w.accepted_ids (foldl visit (visit w c) cs).accepted_ids cs
              (λ x m. foldl-Within (visit w c) cs x (visit-Within w c x m)) in
          omega (arith, mono))
]

pub absurd-changed : {A : Type 0} {b : Bool} → b ≡ true → b ≡ false → A
absurd-changed h k = cc

-- Nothing more to accept.
abbrev pub IsClosed : Walk → Candidate → Type 0
IsClosed w c = (member c.id w.accepted_ids ≡ true) ⊎ (overlaps (refs c) w.frontier ≡ false)

-- A round that accepts nothing changes nothing, and finds every candidate accepted or apart.
pub foldl-IsClosed :
    (w : Walk) (cs : List Candidate)
    → (foldl visit w cs).changed ≡ false
    → (foldl visit w cs ≡ w) × ((c : Candidate) → In c cs → IsClosed w c)
foldl-IsClosed w [] h = (refl, λ c i. elim i [ ])
foldl-IsClosed w (c ∷ cs) h = elim (visit-cases w c) [
  | inl (same, closed) ↦
      let ih = foldl-IsClosed w cs (subst (λ v. (foldl visit v cs).changed ≡ false) same h) in
      (rw same ih.0, λ d i. elim i [ inl p ↦ subst (IsClosed w) (sym p) closed | inr j ↦ ih.1 d j ])
  | inr (new, now, changed) ↦ absurd-changed (foldl-changed (visit w c) cs changed) h
]
