-- ===== src/Imap/Uids.antt =====
-- The UIDs that a batch of ids is resolved to.
pub mod Matching
use apple_mail_fast_mcp.Base.{
  ℕ, zero, suc, ◌+◌, ◌-◌, ◌≤◌, ◌≡◌, refl, sym, ap, ◌∙◌, inl, inr, Bool, true, false, not, ◌&&◌,
  ◌||◌, List, [], ◌∷◌, ◌++◌, ◌==◌, ==_iff, arith, All, Bool-cases, any, keep, take, drop, length,
  if◌then◌else◌,
}
use apple_mail_fast_mcp.Text.{Text}
use apple_mail_fast_mcp.Imap.Messages.{search_chunk, chunks, uid_member, add_new}
use apple_mail_fast_mcp.Imap.Server.{Mail, uids_of, has_one_of}

-- No UID stands twice.
abbrev pub AreDistinct : List ℕ → Type 0
AreDistinct [] = Unit
AreDistinct (u ∷ us) = (uid_member u us ≡ false) × AreDistinct us

pub uid_member-append :
    (v : ℕ) (us vs : List ℕ) → uid_member v (us ++ vs) ≡ (uid_member v us || uid_member v vs)
uid_member-append v [] vs = refl
uid_member-append v (u ∷ us) vs = ground (arith, uid_member-append v us vs)

pub uid_member-add_new :
    (v : ℕ) (uids us : List ℕ)
    → uid_member v (add_new uids us) ≡ (uid_member v uids || uid_member v us)
unfolding add_new
uid_member-add_new v uids [] = ground arith
uid_member-add_new v uids (u ∷ us) = elim (Bool-cases (uid_member u uids)) [
  | inl old ↦ rw old (ground (arith, old, uid_member-add_new v uids us))
  | inr new ↦ rw new (
      ground
        (arith, new, uid_member-add_new v (uids ++ u ∷ []) us, uid_member-append v uids (u ∷ [])))
]

append_one-AreDistinct :
    (us : List ℕ) (u : ℕ) → AreDistinct us → uid_member u us ≡ false → AreDistinct (us ++ u ∷ [])
append_one-AreDistinct [] u h k = (refl, tt)
append_one-AreDistinct (v ∷ us) u h k = (
  ground (arith, uid_member-append v us (u ∷ []), h.0, k),
  append_one-AreDistinct us u h.1 (ground (arith, k)),
)

pub add_new-AreDistinct : (uids us : List ℕ) → AreDistinct uids → AreDistinct (add_new uids us)
unfolding add_new
add_new-AreDistinct uids [] h = h
add_new-AreDistinct uids (u ∷ us) h = elim (Bool-cases (uid_member u uids)) [
  | inl old ↦ rw old (add_new-AreDistinct uids us h)
  | inr new ↦ rw new (add_new-AreDistinct (uids ++ u ∷ []) us (append_one-AreDistinct uids u h new))
]

-- The same members, as often, whatever the order
without : ℕ → List ℕ → List ℕ
without v [] = []
without v (u ∷ us) = if u == v then us else u ∷ without v us

length-without :
    (v : ℕ) (us : List ℕ) → uid_member v us ≡ true → suc (length (without v us)) ≡ length us
unfolding without
length-without v [] h = cc
length-without v (u ∷ us) h = ground (arith, length-without v us)

uid_member-without :
    (v w : ℕ) (us : List ℕ)
    → AreDistinct us
    → uid_member w (without v us) ≡ (uid_member w us && not (w == v))
unfolding without
uid_member-without v w [] h = refl
uid_member-without v w (u ∷ us) h = ground (arith, h.0, uid_member-without v w us h.1)

without-AreDistinct : (v : ℕ) (us : List ℕ) → AreDistinct us → AreDistinct (without v us)
unfolding without
without-AreDistinct v [] h = tt
without-AreDistinct v (u ∷ us) h = elim (Bool-cases (u == v)) [
  | inl same ↦ rw same h.1
  | inr other ↦
      rw other (ground (arith, h.0, uid_member-without v u us h.1), without-AreDistinct v us h.1)
]

pub length_of_members :
    (us vs : List ℕ)
    → AreDistinct us
    → AreDistinct vs
    → ((v : ℕ) → uid_member v us ≡ uid_member v vs)
    → length us ≡ length vs
length_of_members [] [] h k e = refl
length_of_members [] (v ∷ vs) h k e = ground (arith, e v)
length_of_members (u ∷ us) vs h k e = omega (
  arith,
  length-without u vs (ground (arith, e u)),
  length_of_members us (without u vs) h.1 (without-AreDistinct u vs k)
      (λ v. ground (arith, h.0, e v, uid_member-without u v vs k)),
)

-- The fold over the chunks that a server's answers make
unfoldable pub resolved : List Mail → List (List Text) → List ℕ → List ℕ
resolved ms [] uids = uids
resolved ms (part ∷ parts) uids =
    resolved ms parts (add_new uids (uids_of (keep (has_one_of part) ms)))

pub resolved-AreDistinct :
    (ms : List Mail) (parts : List (List Text)) (uids : List ℕ)
    → AreDistinct uids
    → AreDistinct (resolved ms parts uids)
unfolding resolved
resolved-AreDistinct ms [] uids h = h
resolved-AreDistinct ms (part ∷ parts) uids h =
    resolved-AreDistinct ms parts _ (add_new-AreDistinct uids _ h)

pub uid_member-resolved :
    (v : ℕ) (ms : List Mail) (parts : List (List Text)) (uids : List ℕ)
    → uid_member v (resolved ms parts uids) ≡ (
        uid_member v uids || any (λ part. uid_member v (uids_of (keep (has_one_of part) ms))) parts)
unfolding resolved
uid_member-resolved v ms [] uids = ground arith
uid_member-resolved v ms (part ∷ parts) uids = ground (
  arith,
  uid_member-resolved v ms parts (add_new uids (uids_of (keep (has_one_of part) ms))),
  uid_member-add_new v uids (uids_of (keep (has_one_of part) ms)),
)
