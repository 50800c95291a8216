-- ===== src/Threads/Answers.antt =====
-- What holds of every answer of `get_scoped_thread`: of the anchor alone, and of a read of candidates.
use mathlib.Core.Path.{subst}
use apple_mail_fast_mcp.Base.{
  ℕ, ◌≡◌, refl, ◌∙◌, sym, inl, inr, Bool, true, false, none, some, List, Option-cases, is_empty,
  if◌then◌else◌,
}
use apple_mail_fast_mcp.Text.{Text, Unicode}
use apple_mail_fast_mcp.Utils.Escape.{sanitize_input}
use apple_mail_fast_mcp.Utils.Subject.{normalize_subject}
use apple_mail_fast_mcp.Threads.{
  MailApp, AnchorRead, anchor_row, anchor_no_object, anchor_raised, Thread, answer, type_error,
  value_error, no_base_subject, candidates_failed, scope_folders, scope_error, anchor_only,
  thread_of, read_candidates, inspect_subject, inspect_anchor, read_anchor, get_scoped_thread,
}
use apple_mail_fast_mcp.Utils.Thread.{Candidate}

answer-injective : (s t : Thread) → answer s ≡ answer t → s ≡ t
answer-injective s t h = cc

subject-answers :
    (P : Thread → Type 0) (b c d : Bool) (x y z t : Thread)
    → P x
    → P y
    → P z
    → (if b then answer x else if c then answer y else if d then type_error else answer z)
      ≡ answer t
    → P t
subject-answers P true c d x y z t px py pz h = subst P (answer-injective x t h) px
subject-answers P false true d x y z t px py pz h = subst P (answer-injective y t h) py
subject-answers P false false true x y z t px py pz h = cc
subject-answers P false false false x y z t px py pz h = subst P (answer-injective z t h) pz

module _ (u : Unicode) (mail : MailApp) (account : Text) (folders : List Text) (limit : ℕ)
    (P : Thread → Type 0) where
  -- `P` of the answers that have the anchor alone.
  abbrev HasAlone : Candidate → Type 0
  HasAlone a =
      P (anchor_only folders a no_base_subject) × P (anchor_only folders a candidates_failed)

  anchor-answers :
      (a : Candidate) (t : Thread)
      → HasAlone a
      → ((base : Text)
          → normalize_subject u a.subject ≡ some base
          → P (thread_of folders a (read_candidates u mail account folders limit base)))
      → inspect_anchor u mail account folders limit a ≡ answer t
      → P t
  unfolding inspect_anchor inspect_subject
  anchor-answers a t (no_subject, failed) k h =
      let inspect = inspect_anchor u mail account folders limit a in
      elim (Option-cases (normalize_subject u a.subject)) [
        | inl n ↦
            let same : inspect ≡ answer (anchor_only folders a no_base_subject) =
              rw (n, inspect_anchor) refl in
            subst P (answer-injective _ t (sym same ∙ h)) no_subject
        | inr (base, n) ↦
            let same : inspect ≡ inspect_subject u mail account folders limit a base =
              rw (n, inspect_anchor) refl in
            subject-answers P (is_empty base) mail.candidates_raise mail.candidates_no_object _ _ _
              t no_subject failed (k base n) (sym same ∙ h)
      ]

  read-answers :
      (read : AnchorRead) (t : Thread)
      → ((a : Candidate) → read ≡ anchor_row a → HasAlone a)
      → ((a : Candidate) (base : Text)
          → read ≡ anchor_row a
          → normalize_subject u a.subject ≡ some base
          → P (thread_of folders a (read_candidates u mail account folders limit base)))
      → read_anchor u mail account folders limit read ≡ answer t
      → P t
  unfolding read_anchor
  read-answers (anchor_row a) t alone k h =
      anchor-answers a t (alone a refl) (λ base. k a base refl) h
  read-answers anchor_no_object t alone k h = cc
  read-answers anchor_raised t alone k h = cc

module _ (u : Unicode) (mail : MailApp) (message_id account mailbox : Text)
    (search_mailboxes : List Text) (limit : ℕ) where
  -- An answer has `P` where no check fails and both kinds of answers have it.
  pub get_scoped_thread-answers :
      (P : Thread → Type 0) (t : Thread)
      → (scope_error account mailbox (scope_folders mailbox search_mailboxes) limit ≡ none
          → (a : Candidate)
          → mail.anchor account (sanitize_input (some mailbox)) message_id ≡ anchor_row a
          → P (anchor_only (scope_folders mailbox search_mailboxes) a no_base_subject)
            × P (anchor_only (scope_folders mailbox search_mailboxes) a candidates_failed))
      → (scope_error account mailbox (scope_folders mailbox search_mailboxes) limit ≡ none
          → (a : Candidate) (base : Text)
          → mail.anchor account (sanitize_input (some mailbox)) message_id ≡ anchor_row a
          → normalize_subject u a.subject ≡ some base
          → P (
              thread_of (scope_folders mailbox search_mailboxes) a (
                read_candidates u mail account
                  (scope_folders mailbox search_mailboxes)
                  limit
                  base)))
      → get_scoped_thread u mail message_id account mailbox search_mailboxes limit ≡ answer t
      → P t
  unfolding get_scoped_thread
  get_scoped_thread-answers P t alone full h =
      let folders = scope_folders mailbox search_mailboxes in
      let read = mail.anchor account (sanitize_input (some mailbox)) message_id in
      let all = get_scoped_thread u mail message_id account mailbox search_mailboxes limit in
      elim (Option-cases (scope_error account mailbox folders limit)) [
        | inr (e, p) ↦ let same : all ≡ value_error e = rw (p, get_scoped_thread) refl in cc
        | inl p ↦
            let same : all ≡ read_anchor u mail account folders limit read =
              rw (p, get_scoped_thread) refl in
            read-answers u mail account folders limit P read t (alone p) (full p) (sym same ∙ h)
      ]
