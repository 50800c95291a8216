-- ===== src/Security/Validators/Attachments.antt =====
-- Which attachments and which batches the validators let through.
use apple_mail_fast_mcp.Base.{
  ℕ, ◌≤◌, ◌<◌, ◌≡◌, refl, ◌↔◌, inl, inr, Bool-cases, Bool, true, false, none, List, [], ◌∷◌, ◌++◌,
  arith,
}
use apple_mail_fast_mcp.Text.{Text, Unicode, text_eq, text_member, ends_with, lower}
use apple_mail_fast_mcp.Text.Search.{text_eq→eq, text_eq_refl, ends_with→append, ends_with-append}
use apple_mail_fast_mcp.Security.Validators.{
  dangerous_extensions, has_extension, validate_attachment_type, validate_bulk_operation,
}

-- A text that ends with one of some extensions, in its own words.
pub record EndsWithOne (exts : List Text) (s : Text) : Type 0 where
  pub stem : Text
  pub ext : Text
  pub listed : text_member ext exts ≡ true
  pub parts : s ≡ stem ++ ext

has_extension-EndsWithOne :
    (exts : List Text) (s : Text) → has_extension exts s ≡ true → EndsWithOne exts s
unfolding has_extension
has_extension-EndsWithOne [] s h = cc
has_extension-EndsWithOne (e ∷ exts) s h = elim (Bool-cases (ends_with s e)) [
  | inl ends ↦
      let (stem, p) = ends_with→append s e ends in
      record { stem = stem; ext = e; listed = rw text_eq_refl refl; parts = p }
  | inr other ↦
      let r = has_extension-EndsWithOne exts s (rw other at h) in
      record {
        stem = r.stem;
        ext = r.ext;
        listed = (let l = r.listed in ground (arith, l));
        parts = r.parts;
      }
]

EndsWithOne-has_extension :
    (exts : List Text) (s : Text) → EndsWithOne exts s → has_extension exts s ≡ true
unfolding has_extension
EndsWithOne-has_extension [] s r = let l = r.listed in cc
EndsWithOne-has_extension (e ∷ exts) s r = elim (Bool-cases (ends_with s e)) [
  | inl ends ↦ rw ends refl
  | inr other ↦ elim (Bool-cases (text_eq e r.ext)) [
    | inl same ↦
        let p : e ≡ r.ext = text_eq→eq e r.ext same in
        let ends : ends_with s e ≡ true = rw (r.parts, p) (ends_with-append r.stem r.ext) in cc
    | inr differs ↦ rw other (
        EndsWithOne-has_extension exts s (record {
          stem = r.stem;
          ext = r.ext;
          listed = (let l = r.listed in rw differs at l);
          parts = r.parts;
        }))
  ]
]

-- A file name is refused as an attachment exactly if executables are not allowed and the name, in
-- lower case, is a text followed by one of the dangerous extensions.
pub validate_attachment_type_iff :
    (u : Unicode) (filename : Text) (allow_executables : Bool)
    → (validate_attachment_type u filename allow_executables ≡ false)
      ↔ ((allow_executables ≡ false) × EndsWithOne dangerous_extensions (lower u filename))
unfolding validate_attachment_type
validate_attachment_type_iff u filename allow = (
  λ h. elim (Bool-cases (has_extension dangerous_extensions (lower u filename))) [
    | inl found ↦ (rw found at h, has_extension-EndsWithOne dangerous_extensions _ found)
    | inr missing ↦ absurd (true≢false (rw missing at h))
  ],
  λ h. rw (EndsWithOne-has_extension dangerous_extensions _ h.1) h.0,
)
  where
    true≢false : true ≡ false → ⊥
    true≢false p = cc

-- A batch is let through exactly if it has an item and no more than the limit.
pub validate_bulk_operation_iff :
    (item_count max_items : ℕ)
    → (validate_bulk_operation item_count max_items ≡ none)
      ↔ ((0 < item_count) × (item_count ≤ max_items))
unfolding validate_bulk_operation
validate_bulk_operation_iff item_count max_items = (λ h. ground arith, λ h. ground arith)
