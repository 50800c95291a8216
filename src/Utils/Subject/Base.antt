-- ===== src/Utils/Subject/Base.antt =====
-- The loop ends, with the base of the subject.
use mathlib.Core.Path.{subst}
use apple_mail_fast_mcp.Base.{
  ℕ, zero, suc, ◌<◌, ◌≡◌, refl, inl, inr, Bool, true, false, none, some, List, [], ◌∷◌, arith, All,
  length, length-drop, drop, Bool-cases, Option-cases,
}
use apple_mail_fast_mcp.Text.{Text, Unicode, starts_with, lower, strip, lstrip, is_space}
use apple_mail_fast_mcp.Text.Strip.{
  begins_in, ends_in, lstrip-begins_in, strip_by-begins_in, strip_by-ends_in, strip_by-id,
  ends_in-lstrip, ends_in-drop, length-lstrip,
}
use apple_mail_fast_mcp.Utils.Subject.{
  reply_prefixes, strip_reply, strip_replies, normalize_subject,
}

-- No white space at either end.
pub record IsStripped (s : Text) : Type 0 where
  pub no_leading : begins_in is_space s ≡ false
  pub no_trailing : ends_in is_space s ≡ false

true≢false : {b : Bool} → b ≡ true → b ≡ false → ⊥
true≢false h k = cc

lower-nil :
    (u : Unicode) (prefix : Text) → 0 < length prefix → starts_with (lower u []) prefix ≡ false
unfolding lower
lower-nil u [] h = elim h [ ]
lower-nil u (c ∷ prefix) h = refl

drop-shorter :
    (u : Unicode) (p : ℕ) (prefix s : Text)
    → starts_with (lower u s) (p ∷ prefix) ≡ true
    → length (lstrip is_space (drop (suc (length prefix)) s)) < length s
drop-shorter u p prefix [] h = absurd (true≢false h (lower-nil u (p ∷ prefix) (omega arith)))
drop-shorter u p prefix (c ∷ s) h =
    let cut = length-lstrip is_space (drop (suc (length prefix)) (c ∷ s)) in
    let less = length-drop (suc (length prefix)) (c ∷ s) in omega (arith, cut, less)

-- A round that takes a prefix off leaves a shorter text that begins with no white space.
record Shortens (s t : Text) : Type 0 where
  shorter : length t < length s
  leading : begins_in is_space t ≡ false
  trailing : ends_in is_space s ≡ false → ends_in is_space t ≡ false

strip_reply-Shortens :
    (u : Unicode) (p : ℕ) (prefix : Text) (s : Text)
    → starts_with (lower u s) (p ∷ prefix) ≡ true
    → Shortens s (lstrip is_space (drop (suc (length prefix)) s))
strip_reply-Shortens u p prefix s h = record {
  shorter = drop-shorter u p prefix s h;
  leading = lstrip-begins_in is_space (drop (suc (length prefix)) s);
  trailing = λ e.
      ends_in-lstrip is_space (drop (suc (length prefix)) s)
        (ends_in-drop is_space (suc (length prefix)) s e);
}

reply_prefixes-Shorten :
    (u : Unicode) (prefixes : List Text) (s t : Text)
    → All (λ p. 0 < length p) prefixes
    → strip_reply u prefixes s ≡ some t
    → Shortens s t
unfolding strip_reply
reply_prefixes-Shorten u [] s t full h = cc
reply_prefixes-Shorten u ([] ∷ prefixes) s t full h = absurd (omega arith)
reply_prefixes-Shorten u ((p ∷ prefix) ∷ prefixes) s t full h =
    elim (Bool-cases (starts_with (lower u s) (p ∷ prefix))) [
      | inl a ↦
          let e : lstrip is_space (drop (suc (length prefix)) s) ≡ t = ground arith in
          subst (Shortens s) e (strip_reply-Shortens u p prefix s a)
      | inr a ↦ reply_prefixes-Shorten u prefixes s t full.1 (rw a at h)
    ]

-- What the loop returns.
record Ends (u : Unicode) (s t : Text) : Type 0 where
  no_prefix : strip_reply u reply_prefixes t ≡ none
  leading : begins_in is_space s ≡ false → begins_in is_space t ≡ false
  trailing : ends_in is_space s ≡ false → ends_in is_space t ≡ false

strip_replies-Ends :
    (n : ℕ) (u : Unicode) (s : Text)
    → length s < n
    → (t : Text) × (strip_replies n u s ≡ some t) × Ends u s t
unfolding strip_replies
strip_replies-Ends zero u s h = elim h [ ]
strip_replies-Ends (suc n) u s h = elim (Option-cases (strip_reply u reply_prefixes s)) [
  | inl done ↦ (
    s,
    rw (done, strip_replies) refl,
    record { no_prefix = done; leading = λ e. e; trailing = λ e. e },
  )
  | inr (t, e) ↦
      let r = reply_prefixes-Shorten u reply_prefixes s t (omega arith) e in
      let short = r.shorter in
      let (v, runs, ends) = strip_replies-Ends n u t (omega (arith, short)) in
      (
        v,
        rw (e, strip_replies) runs,
        record {
          no_prefix = ends.no_prefix;
          leading = λ _. ends.leading r.leading;
          trailing = λ k. ends.trailing (r.trailing k);
        },
      )
]

-- Normalizing ends for every subject: one round more than the characters of the stripped subject is
-- enough. The result neither begins nor ends with white space, begins with none of the reply and
-- forward prefixes in any case, and is left alone by a second normalizing.
pub normalize_subject_total :
    (u : Unicode) (subject : Text)
    → (base : Text) × (normalize_subject u subject ≡ some base)
      × IsStripped base
      × (strip_reply u reply_prefixes base ≡ none)
      × (normalize_subject u base ≡ some base)
unfolding normalize_subject
normalize_subject_total u subject =
    let (t, runs, ends) =
      strip_replies-Ends (suc (length (strip subject))) u (strip subject) (omega arith) in
    let first = ends.leading (unfold strip in strip_by-begins_in is_space subject) in
    let last = ends.trailing (unfold strip in strip_by-ends_in is_space subject) in
    let same : strip t ≡ t = unfold strip in strip_by-id is_space t first last in
    (
      t,
      runs,
      record { no_leading = first; no_trailing = last },
      ends.no_prefix,
      rw same (unfold strip_replies in rw (ends.no_prefix, strip_replies) refl),
    )
