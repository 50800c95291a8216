-- ===== src/Drafts/Builder/Subjects.antt =====
-- Prefixing a subject twice is prefixing it once.
use mathlib.Core.List.{append-nil}
use apple_mail_fast_mcp.Base.{
  ℕ, ◌≡◌, refl, sym, ap, ◌∙◌, inl, inr, Bool, true, false, [], ◌∷◌, ◌++◌, Bool-cases, is_empty,
}
use apple_mail_fast_mcp.Text.{Text, codes, is_space, lstrip, strip_by, strip}
use apple_mail_fast_mcp.Text.Strip.{
  begins_in, ends_in, strip_by-begins_in, strip_by-ends_in, strip_by-id,
}
use apple_mail_fast_mcp.Drafts.Builder.{
  starts_with_any_case, has_re_prefix, has_fwd_prefix, prefixed, reply_subject, forward_subject,
}

strip_id : (s : Text) → begins_in is_space s ≡ false → ends_in is_space s ≡ false → strip s ≡ s
unfolding strip
strip_id s h k = strip_by-id is_space s h k

strip-strip : (s : Text) → strip (strip s) ≡ strip s
unfolding strip
strip-strip s =
    strip_by-id is_space (strip_by is_space s) (strip_by-begins_in is_space s)
      (strip_by-ends_in is_space s)

ends_in-append :
    (c : ℕ) (s t : Text) → ends_in is_space (c ∷ t) ≡ false → ends_in is_space (s ++ c ∷ t) ≡ false
ends_in-append c [] t h = h
ends_in-append c (d ∷ []) t h = h
ends_in-append c (d ∷ e ∷ s) t h = ends_in-append c (e ∷ s) t h

begins_in-append :
    (s t : Text)
    → is_empty s ≡ false
    → begins_in is_space s ≡ false
    → begins_in is_space (s ++ t) ≡ false
begins_in-append [] t e h = cc
begins_in-append (c ∷ s) t e h = h

strip-ends_in : (s : Text) → ends_in is_space (strip s) ≡ false
unfolding strip
strip-ends_in s = strip_by-ends_in is_space s

-- The three branches
module _ (has_prefix : Text → Bool) (prefix s : Text) where
  stays : has_prefix (strip s) ≡ true → prefixed has_prefix prefix s ≡ strip s
  unfolding prefixed
  stays h = rw h refl

  becomes_prefix :
      has_prefix (strip s) ≡ false
      → is_empty (strip s) ≡ true
      → prefixed has_prefix prefix s ≡ prefix
  unfolding prefixed
  becomes_prefix h k = rw (h, k) refl

  gets_prefix :
      has_prefix (strip s) ≡ false
      → is_empty (strip s) ≡ false
      → prefixed has_prefix prefix s ≡ prefix ++ b' ' ∷ strip s
  unfolding prefixed
  gets_prefix h k = rw (h, k) refl

module _ (has_prefix : Text → Bool) (prefix : Text) (full : is_empty prefix ≡ false)
    (begins : begins_in is_space prefix ≡ false) (ends : ends_in is_space prefix ≡ false)
    (has : (t : Text) → has_prefix (prefix ++ t) ≡ true) where
  prefixed_known : (t : Text) → strip t ≡ t → has_prefix t ≡ true → prefixed has_prefix prefix t ≡ t
  unfolding prefixed
  prefixed_known t e h = rw (e, h) refl

  with_prefix :
      (t : Text)
      → is_empty t ≡ false
      → ends_in is_space t ≡ false
      → prefixed has_prefix prefix (prefix ++ b' ' ∷ t) ≡ prefix ++ b' ' ∷ t
  with_prefix [] e h = cc
  with_prefix (c ∷ t) e h =
      prefixed_known (prefix ++ b' ' ∷ c ∷ t)
        (strip_id (prefix ++ b' ' ∷ c ∷ t) (begins_in-append prefix _ full begins)
          (ends_in-append b' ' prefix (c ∷ t) h))
        (has (b' ' ∷ c ∷ t))

  bare_prefix : prefixed has_prefix prefix prefix ≡ prefix
  bare_prefix =
      prefixed_known prefix (strip_id prefix begins ends)
        (ap has_prefix (sym (append-nil prefix)) ∙ has [])

  prefixed-prefixed :
      (s : Text)
      → prefixed has_prefix prefix (prefixed has_prefix prefix s) ≡ prefixed has_prefix prefix s
  prefixed-prefixed s = elim (Bool-cases (has_prefix (strip s))) [
    | inl already ↦
        rw (stays has_prefix prefix s already) (prefixed_known (strip s) (strip-strip s) already)
    | inr lacks ↦ elim (Bool-cases (is_empty (strip s))) [
      | inl blank ↦ rw (becomes_prefix has_prefix prefix s lacks blank) bare_prefix
      | inr some_text ↦
          rw (gets_prefix has_prefix prefix s lacks some_text)
            (with_prefix (strip s) some_text (strip-ends_in s))
    ]
  ]

-- A reply to a reply, and a forward of a forward, keep the subject: the prefix is not put twice, and
-- what follows it does not change.
pub reply_subject-reply_subject :
    (s : Text)
    → (reply_subject (reply_subject s) ≡ reply_subject s)
      × (forward_subject (forward_subject s) ≡ forward_subject s)
unfolding reply_subject forward_subject has_re_prefix has_fwd_prefix starts_with_any_case lstrip
    is_space
reply_subject-reply_subject s = (
  prefixed-prefixed has_re_prefix (codes "Re:") refl refl refl (λ t. refl) s,
  prefixed-prefixed has_fwd_prefix (codes "Fwd:") refl refl refl (λ t. refl) s,
)
