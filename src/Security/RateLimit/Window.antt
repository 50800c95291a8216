-- ===== src/Security/RateLimit/Window.antt =====
-- One deque against the full history of the calls that it let through.
use mathlib.Core.List.{append_assoc}
use apple_mail_fast_mcp.Base.{
  ℕ, ◌+◌, ◌≤◌, ◌≡◌, refl, ap, sym, ◌∙◌, true, List, [], ◌∷◌, ◌++◌, arith, ltb, leb, keep, All,
  All-append, keep-append, if◌then◌else◌,
}
use apple_mail_fast_mcp.Security.RateLimit.{expire}

-- The calls of a history that are less than `window` old at `now`.
abbrev pub recent : ℕ → ℕ → List ℕ → List ℕ
recent window now = keep (λ t. ltb now (t + window))

abbrev pub Ascending : List ℕ → Type 0
Ascending [] = Unit
Ascending (t ∷ q) = All (λ u. t ≤ u) q × Ascending q

-- `q` is what is left of `history` once some calls that had expired at `last` were taken off.
pub record Follows (window last : ℕ) (history q : List ℕ) : Type 0 where
  pub old : List ℕ
  pub parts : history ≡ old ++ q
  pub expired : All (λ t. t + window ≤ last) old
  pub ascending : Ascending q
  pub past : All (λ t. t ≤ last) q

recent-old :
    (window last now : ℕ) (old : List ℕ)
    → All (λ t. t + window ≤ last) old
    → last ≤ now
    → recent window now old ≡ []
recent-old window last now [] h le = refl
recent-old window last now (t ∷ old) h le = ground (arith, recent-old window last now old h.1 le)

recent-All :
    (window now t : ℕ) (q : List ℕ)
    → All (λ u. t ≤ u) q
    → ltb now (t + window) ≡ true
    → recent window now q ≡ q
recent-All window now t [] h f = refl
recent-All window now t (u ∷ q) h f = ground (arith, recent-All window now t q h.1 f)

expire-eq-recent :
    (window now : ℕ) (q : List ℕ) → Ascending q → expire window now q ≡ recent window now q
unfolding expire
expire-eq-recent window now [] h = refl
expire-eq-recent window now (t ∷ q) h =
    ground (arith, expire-eq-recent window now q h.1, recent-All window now t q h.0)

-- What `expire` takes off.
popped : ℕ → ℕ → List ℕ → List ℕ
popped window now [] = []
popped window now (t ∷ q) = if leb (t + window) now then t ∷ popped window now q else []

popped-append-expire :
    (window now : ℕ) (q : List ℕ) → q ≡ popped window now q ++ expire window now q
unfolding popped expire
popped-append-expire window now [] = refl
popped-append-expire window now (t ∷ q) = ground (arith, popped-append-expire window now q)

popped_expired : (window now : ℕ) (q : List ℕ) → All (λ t. t + window ≤ now) (popped window now q)
unfolding popped
popped_expired window now [] = tt
popped_expired window now (t ∷ q) = ground (arith, popped_expired window now q)

module _ (P : ℕ → Type 0) where
  All-expire : (window now : ℕ) (q : List ℕ) → All P q → All P (expire window now q)
  unfolding expire
  All-expire window now [] h = tt
  All-expire window now (t ∷ q) h = ground (arith, All-expire window now q h.1)

expire-Ascending : (window now : ℕ) (q : List ℕ) → Ascending q → Ascending (expire window now q)
unfolding expire
expire-Ascending window now [] h = tt
expire-Ascending window now (t ∷ q) h = ground (arith, expire-Ascending window now q h.1)

All-le_trans :
    (last now k : ℕ) (q : List ℕ)
    → last ≤ now
    → All (λ t. t + k ≤ last) q
    → All (λ t. t + k ≤ now) q
All-le_trans last now k [] le h = tt
All-le_trans last now k (t ∷ q) le h = (omega arith, All-le_trans last now k q le h.1)

All-le_later :
    (last now : ℕ) (q : List ℕ) → last ≤ now → All (λ t. t ≤ last) q → All (λ t. t ≤ now) q
All-le_later last now [] le h = tt
All-le_later last now (t ∷ q) le h = (omega arith, All-le_later last now q le h.1)

Ascending-snoc :
    (now : ℕ) (q : List ℕ) → Ascending q → All (λ t. t ≤ now) q → Ascending (q ++ now ∷ [])
Ascending-snoc now [] h k = (tt, tt)
Ascending-snoc now (t ∷ q) h k =
    (All-append _ q (now ∷ []) h.0 (k.0, tt), Ascending-snoc now q h.1 k.1)

pub Follows-later :
    (window last now : ℕ) (history q : List ℕ)
    → last ≤ now
    → Follows window last history q
    → Follows window now history q
Follows-later window last now history q le f = record {
  old = f.old;
  parts = f.parts;
  expired = All-le_trans last now window f.old le f.expired;
  ascending = f.ascending;
  past = All-le_later last now q le f.past;
}

-- Expiry forgets only calls that are out of the window.
pub Follows-expire :
    (window now : ℕ) (history q : List ℕ)
    → Follows window now history q
    → Follows window now history (expire window now q)
Follows-expire window now history q f = record {
  old = f.old ++ popped window now q;
  parts =
      f.parts
      ∙ ap (λ r. f.old ++ r) (popped-append-expire window now q)
      ∙ sym (append_assoc f.old (popped window now q) (expire window now q));
  expired = All-append _ f.old (popped window now q) f.expired (popped_expired window now q);
  ascending = expire-Ascending window now q f.ascending;
  past = All-expire _ window now q f.past;
}

pub Follows-snoc :
    (window now : ℕ) (history q : List ℕ)
    → Follows window now history q
    → Follows window now (history ++ now ∷ []) (q ++ now ∷ [])
Follows-snoc window now history q f = record {
  old = f.old;
  parts = ap (λ r. r ++ now ∷ []) f.parts ∙ append_assoc f.old q (now ∷ []);
  expired = f.expired;
  ascending = Ascending-snoc now q f.ascending f.past;
  past = All-append _ q (now ∷ []) f.past (omega arith, tt);
}

-- After expiry the deque is the window of the full history.
pub expire-Follows :
    (window now : ℕ) (history q : List ℕ)
    → Follows window now history q
    → expire window now q ≡ recent window now history
expire-Follows window now history q f =
    expire-eq-recent window now q f.ascending
    ∙ rw (f.parts, keep-append, recent-old window now now f.old f.expired (omega arith)) refl
