-- ===== src/Imap/Uids/Matching.antt =====
-- The UIDs found for the chunks of a batch are those of the messages that have one of its ids.
use apple_mail_fast_mcp.Base.{
  ℕ, zero, suc, ◌≤◌, ◌≡◌, refl, sym, ap, ◌∙◌, inl, inr, Bool, false, ◌||◌, List, [], ◌∷◌, arith,
  All, Bool-cases, any, keep, take, drop, length, length-drop,
}
use apple_mail_fast_mcp.Text.{Text}
use apple_mail_fast_mcp.Imap.Messages.{search_chunk, chunks, uid_member}
use apple_mail_fast_mcp.Imap.Server.{Mail, uids_of, has_one_of}
use apple_mail_fast_mcp.Imap.Uids.{
  AreDistinct, resolved, resolved-AreDistinct, uid_member-resolved, length_of_members,
}

uid_member-keep :
    (v : ℕ) (f : Mail → Bool) (ms : List Mail)
    → uid_member v (uids_of ms) ≡ false
    → uid_member v (uids_of (keep f ms)) ≡ false
uid_member-keep v f [] h = refl
uid_member-keep v f (m ∷ ms) h = ground (arith, uid_member-keep v f ms)

pub uids_of_keep-AreDistinct :
    (f : Mail → Bool) (ms : List Mail)
    → AreDistinct (uids_of ms)
    → AreDistinct (uids_of (keep f ms))
uids_of_keep-AreDistinct f [] h = tt
uids_of_keep-AreDistinct f (m ∷ ms) h = elim (Bool-cases (f m)) [
  | inl kept ↦ rw kept (uid_member-keep m.uid f ms h.0, uids_of_keep-AreDistinct f ms h.1)
  | inr dropped ↦ rw dropped (uids_of_keep-AreDistinct f ms h.1)
]

-- The messages of a mailbox, with the UID of another put before them
Agrees : (Mail → Bool) → List Mail → Mail → Type 0
Agrees f ms m = uid_member m.uid (uids_of (keep f ms)) ≡ f m

keep-Agrees-cons :
    (f : Mail → Bool) (n : Mail) (ms part : List Mail)
    → uid_member n.uid (uids_of part) ≡ false
    → All (Agrees f ms) part
    → All (Agrees f (n ∷ ms)) part
unfolding Agrees
keep-Agrees-cons f n ms [] h k = tt
keep-Agrees-cons f n ms (m ∷ part) h k =
    (ground (arith, k.0), keep-Agrees-cons f n ms part (ground arith) k.1)

-- Where no UID stands twice, a message's UID is found exactly if the message is asked for.
keep-Agrees : (f : Mail → Bool) (ms : List Mail) → AreDistinct (uids_of ms) → All (Agrees f ms) ms
unfolding Agrees
keep-Agrees f [] h = tt
keep-Agrees f (m ∷ ms) h = (
  ground (arith, uid_member-keep m.uid f ms h.0),
  keep-Agrees-cons f m ms ms h.0 (keep-Agrees f ms h.1),
)

any-take-drop :
    (p : Text → Bool) (n : ℕ) (ids : List Text)
    → (any p (take n ids) || any p (drop n ids)) ≡ any p ids
any-take-drop p zero ids = refl
any-take-drop p (suc n) [] = refl
any-take-drop p (suc n) (id ∷ ids) = ground (arith, any-take-drop p n ids)

-- The fuel of the chunks suffices: every id is in one of them.
pub any-chunks :
    (p : Text → Bool) (fuel : ℕ) (ids : List Text)
    → length ids ≤ fuel
    → any (any p) (chunks fuel ids) ≡ any p ids
unfolding chunks
any-chunks p zero [] h = refl
any-chunks p zero (id ∷ ids) h = absurd (omega arith)
any-chunks p (suc fuel) [] h = refl
any-chunks p (suc fuel) (id ∷ ids) h =
    ap (λ b. any p (take search_chunk (id ∷ ids)) || b)
      (any-chunks p fuel (drop search_chunk (id ∷ ids))
        (omega (arith, length-drop search_chunk (id ∷ ids))))
    ∙ any-take-drop p search_chunk (id ∷ ids)

uid_member-keep_or :
    (v : ℕ) (f g : Mail → Bool) (ms : List Mail)
    → uid_member v (uids_of (keep (λ m. f m || g m) ms))
      ≡ (uid_member v (uids_of (keep f ms)) || uid_member v (uids_of (keep g ms)))
uid_member-keep_or v f g [] = refl
uid_member-keep_or v f g (m ∷ ms) = ground (arith, uid_member-keep_or v f g ms)

uid_member-keep_none :
    (v : ℕ) (ms : List Mail) → uid_member v (uids_of (keep (λ m. false) ms)) ≡ false
uid_member-keep_none v [] = refl
uid_member-keep_none v (m ∷ ms) = uid_member-keep_none v ms

uid_member-any :
    (v : ℕ) (parts : List (List Text)) (ms : List Mail)
    → any (λ part. uid_member v (uids_of (keep (has_one_of part) ms))) parts
      ≡ uid_member v (uids_of (keep (λ m. any (λ part. has_one_of part m) parts) ms))
uid_member-any v [] ms = sym (uid_member-keep_none v ms)
uid_member-any v (part ∷ parts) ms =
    ap (λ b. uid_member v (uids_of (keep (has_one_of part) ms)) || b) (uid_member-any v parts ms)
    ∙ sym (uid_member-keep_or v (has_one_of part) (λ m. any (λ rest. has_one_of rest m) parts) ms)

keep_cong : (f g : Mail → Bool) (ms : List Mail) → ((m : Mail) → f m ≡ g m) → keep f ms ≡ keep g ms
keep_cong f g [] e = refl
keep_cong f g (m ∷ ms) e = ground (arith, e m, keep_cong f g ms e)

module _ (ids : List Text) (ms : List Mail) where
  -- The UIDs of a batch of ids
  unfoldable pub batch : List ℕ
  batch = resolved ms (chunks (length ids) ids) []

  uid_member-batch :
      (v : ℕ) → uid_member v batch ≡ uid_member v (uids_of (keep (has_one_of ids) ms))
  unfolding batch
  uid_member-batch v =
      uid_member-resolved v ms (chunks (length ids) ids) []
      ∙ uid_member-any v (chunks (length ids) ids) ms
      ∙ ap (λ kept. uid_member v (uids_of kept))
          (keep_cong _ _ ms (λ m. any-chunks _ (length ids) ids (omega arith)))

  batch-AreDistinct : AreDistinct batch
  unfolding batch
  batch-AreDistinct = resolved-AreDistinct ms _ [] tt

  module _ (distinct : AreDistinct (uids_of ms)) where
    pub length-batch : length batch ≡ length (uids_of (keep (has_one_of ids) ms))
    length-batch =
        length_of_members batch _ batch-AreDistinct (uids_of_keep-AreDistinct _ ms distinct)
          uid_member-batch

    batch_found :
        (part : List Mail)
        → All (Agrees (has_one_of ids) ms) part
        → All (λ m. uid_member m.uid batch ≡ has_one_of ids m) part
    unfolding Agrees
    batch_found [] h = tt
    batch_found (m ∷ part) h = (uid_member-batch m.uid ∙ h.0, batch_found part h.1)

    pub batch-Agrees : All (λ m. uid_member m.uid batch ≡ has_one_of ids m) ms
    batch-Agrees = batch_found ms (keep-Agrees (has_one_of ids) ms distinct)
