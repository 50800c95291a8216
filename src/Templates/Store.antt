-- ===== src/Templates/Store.antt =====
-- `TemplateStore` of templates.py. The directory is a list of names and texts, which stands for a file
-- system where names that differ in case are two files.
use apple_mail_fast_mcp.Base.{
  ◌≡◌, refl, ◌⊎◌, inl, inr, Bool-cases, Option-cases, Bool, true, false, not, Option, none, some,
  List, [], ◌∷◌, arith, ◌==◌, is_empty, keep, if◌then◌else◌,
}
use apple_mail_fast_mcp.Text.{Text, Unicode, text_eq, has_char, strip}
use apple_mail_fast_mcp.Text.Search.{text_eq→eq, text_eq_refl, text_eq-sym, has_char-append}
use apple_mail_fast_mcp.Text.Strip.{begins_in}
use apple_mail_fast_mcp.Templates.{
  Template, TemplateError, Outcome, good, failed, is_line_break, parse_template_file, header_block,
  serialize_template, is_valid_name,
}
use apple_mail_fast_mcp.Templates.RoundTrip.{HasSubject, has_no_break, parse-serialize_template}

abbrev pub Files : Type 0
Files = List (Text × Text)

-- `path.read_text` makes each line end a newline.
unfoldable pub universal_newlines : Text → Text
universal_newlines [] = []
universal_newlines (c ∷ s) =
    let rest = universal_newlines s in
    if c == 13 then (if begins_in (λ d. d == 10) s then rest else 10 ∷ rest) else c ∷ rest

unfoldable pub file_at : Text → Files → Option Text
file_at name [] = none
file_at name ((n, text) ∷ files) = if text_eq n name then some text else file_at name files

unfoldable pub write_file : Text → Text → Files → Files
write_file name text [] = (name, text) ∷ []
write_file name text ((n, old) ∷ files) =
    if text_eq n name then (n, text) ∷ files else (n, old) ∷ write_file name text files

-- `TemplateStore.get`
unfoldable pub get : Unicode → Text → Files → Outcome Template
get u name files =
    if is_valid_name name
    then elim (file_at name files) [
      | none ↦ failed (TemplateError.not_found name)
      | some text ↦ parse_template_file u name (universal_newlines text)
    ]
    else failed (TemplateError.invalid_name name)

abbrev is_some : Option Text → Bool
is_some none = false
is_some (some text) = true

-- `TemplateStore.save`; `true` is a template that was not there before.
unfoldable pub save : Template → Files → Outcome Bool × Files
save t files =
    if is_valid_name t.name
    then (
      good (not (is_some (file_at t.name files))),
      write_file t.name (serialize_template t) files,
    )
    else (failed (TemplateError.invalid_name t.name), files)

-- `TemplateStore.delete`
unfoldable pub delete : Text → Files → Outcome Unit × Files
delete name files =
    if is_valid_name name
    then elim (file_at name files) [
      | none ↦ (failed (TemplateError.not_found name), files)
      | some text ↦ (good tt, keep (λ e. not (text_eq e.0 name)) files)
    ]
    else (failed (TemplateError.invalid_name name), files)

file_at-write_file :
    (name text other : Text) (files : Files)
    → file_at other (write_file name text files)
      ≡ (if text_eq name other then some text else file_at other files)
unfolding file_at write_file
file_at-write_file name text other [] = refl
file_at-write_file name text other ((n, old) ∷ files) = elim (Bool-cases (text_eq n name)) [
  | inl same ↦
      let p = text_eq→eq n name same in
      elim (Bool-cases (text_eq name other)) [
        | inl e ↦ rw (same, p, e) refl
        | inr e ↦ rw (same, p, e) refl
      ]
  | inr differs ↦
      let rest = file_at-write_file name text other files in
      elim (Bool-cases (text_eq n other)) [
        | inl e ↦
            let p = text_eq→eq n other e in
            rw (differs, e)
              (let apart = text_eq-sym name other in ground (arith, apart, differs, p))
        | inr e ↦ rw (differs, e) rest
      ]
]

file_at-keep :
    (name other : Text) (files : Files)
    → file_at other (keep (λ e. not (text_eq e.0 name)) files)
      ≡ (if text_eq name other then none else file_at other files)
unfolding file_at
file_at-keep name other [] = ground arith
file_at-keep name other ((n, old) ∷ files) = elim (Bool-cases (text_eq n name)) [
  | inl same ↦
      let p = text_eq→eq n name same in
      elim (Bool-cases (text_eq name other)) [
        | inl e ↦ rw (same, file_at-keep name other files, e) refl
        | inr e ↦ rw (same, file_at-keep name other files, p, e) refl
      ]
  | inr differs ↦ elim (Bool-cases (text_eq n other)) [
    | inl e ↦
        let p = text_eq→eq n other e in
        rw (differs, e) (let apart = text_eq-sym name other in ground (arith, apart, differs, p))
    | inr e ↦ rw (differs, e) (file_at-keep name other files)
  ]
]

file_at-delete :
    (name other : Text) (files : Files)
    → is_valid_name name ≡ true
    → file_at other (delete name files).1
      ≡ (if text_eq name other then none else file_at other files)
unfolding delete
file_at-delete name other files valid = elim (Option-cases (file_at name files)) [
  | inl missing ↦
      rw (valid, missing, delete)
        (elim (Bool-cases (text_eq name other)) [
          | inl e ↦ let p = text_eq→eq name other e in rw (e, ← p, missing) refl
          | inr e ↦ rw e refl
        ])
  | inr (text, found) ↦ rw (valid, found, delete) (file_at-keep name other files)
]

universal_newlines-id : (s : Text) → has_char 13 s ≡ false → universal_newlines s ≡ s
unfolding universal_newlines
universal_newlines-id [] h = refl
universal_newlines-id (c ∷ s) h =
    let rest = universal_newlines-id s (ground arith) in
    let other : (c == 13) ≡ false = ground arith in rw (other, rest) refl

no_break-has_char : (s : Text) → has_no_break s ≡ true → has_char 13 s ≡ false
unfolding is_line_break
no_break-has_char [] h = refl
no_break-has_char (c ∷ s) h = let rest = no_break-has_char s (ground arith) in ground (arith, rest)

header_block-has_char :
    (subject : Option Text) → HasSubject subject → has_char 13 (header_block subject) ≡ false
unfolding header_block
header_block-has_char none v = refl
header_block-has_char (some s) v = rw has_char-append (rw (no_break-has_char s v.one_line) refl)

serialize_template-has_char :
    (t : Template)
    → HasSubject t.subject
    → has_char 13 t.body ≡ false
    → has_char 13 (serialize_template t) ≡ false
unfolding serialize_template
serialize_template-has_char t v h = rw (has_char-append, header_block-has_char t.subject v) h

module _ (u : Unicode) (t : Template) (files : Files) where
  -- The answer is that the name is new, and getting it failed since there was no such template; or it
  -- is that the name is not, and there was a text.
  abbrev pub SaysWhetherNew : Outcome Bool → Type 0
  SaysWhetherNew answer =
      ((answer ≡ good true) × (get u t.name files ≡ failed (TemplateError.not_found t.name)))
      ⊎ ((answer ≡ good false) × (text : Text) × (file_at t.name files ≡ some text))

  save-SaysWhetherNew : is_valid_name t.name ≡ true → SaysWhetherNew (save t files).0
  unfolding save get
  save-SaysWhetherNew valid = elim (Option-cases (file_at t.name files)) [
    | inl missing ↦ inl (rw (valid, missing, save) refl, rw (valid, missing, get) refl)
    | inr (text, found) ↦ inr (rw (valid, found, save) refl, text, found)
  ]

  -- Where the name of a template is valid, its body is not blank and holds no carriage return, and its
  -- subject, if there is one, has no line break and no white space around it: saving it succeeds and
  -- says whether the name was new; getting the name then yields the template; and getting any other
  -- name yields what it did before.
  pub get-save :
      is_valid_name t.name ≡ true
      → HasSubject t.subject
      → is_empty (strip t.body) ≡ false
      → has_char 13 t.body ≡ false
      → let (answer, files') = save t files in
        SaysWhetherNew answer
        × (get u t.name files' ≡ good t)
        × ((name : Text) → text_eq t.name name ≡ false → get u name files' ≡ get u name files)
  unfolding save get
  get-save valid v full h = (
    save-SaysWhetherNew valid,
    rw
        (
          valid,
          file_at-write_file,
          text_eq_refl t.name,
          universal_newlines-id (serialize_template t) (serialize_template-has_char t v h),
        )
        (parse-serialize_template u t v full),
    λ name differs. rw (valid, file_at-write_file, differs) refl,
  )

module _ (u : Unicode) (files : Files) where
  -- After a name was deleted getting it fails, as it does where deleting it fails because there is no
  -- such template; and getting any other name yields what it did before.
  pub get-delete :
      (name : Text)
      → is_valid_name name ≡ true
      → let (answer, files') = delete name files in
        (get u name files' ≡ failed (TemplateError.not_found name))
        × ((other : Text) → text_eq name other ≡ false → get u other files' ≡ get u other files)
  unfolding get
  get-delete name valid = (
    rw (valid, file_at-delete name name files valid, text_eq_refl name) refl,
    λ other differs. rw (file_at-delete name other files valid, differs) refl,
  )
