-- ===== src/Templates/RoundTrip.antt =====
-- Parsing a serialized template.
use mathlib.Core.List.{append_assoc}
use apple_mail_fast_mcp.Base.{
  ℕ, ◌≡◌, refl, ap, ◌∙◌, inl, inr, Bool-cases, Bool, true, false, not, ◌&&◌, Option, none, some,
  List, [], ◌∷◌, ◌++◌, arith, ◌==◌, is_empty, all,
}
use apple_mail_fast_mcp.Text.{
  Text, Unicode, codes, text_eq, lower, strip, rstrip, is_space, lstrip, strip_by,
}
use apple_mail_fast_mcp.Text.Strip.{begins_in, ends_in, strip_by-id, rstrip-id, not-ends_in}
use apple_mail_fast_mcp.Templates.{
  Template, good, is_line_break, add_to_line, split_lines, split_at_blank, before_first,
  after_first, without_end, parse_headers, concat, parse_template_file, header_block,
  serialize_template,
}

concat-add_to_line : (c : ℕ) (lines : List Text) → concat (add_to_line c lines) ≡ c ∷ concat lines
unfolding concat
concat-add_to_line c [] = refl
concat-add_to_line c (line ∷ lines) = refl

concat-one : (c : ℕ) (lines : List Text) → concat ((c ∷ []) ∷ lines) ≡ c ∷ concat lines
unfolding concat
concat-one c lines = refl

-- The lines of a text, put together, are the text.
concat-split_lines : (s : Text) → concat (split_lines s) ≡ s
unfolding split_lines
concat-split_lines [] = unfold concat in refl
concat-split_lines (c ∷ s) =
    elim (Bool-cases (is_line_break c && not (c == 13 && begins_in (λ d. d == 10) s))) [
      | inl ends ↦ rw ends (concat-one c (split_lines s) ∙ ap (λ r. c ∷ r) (concat-split_lines s))
      | inr goes_on ↦
          rw goes_on (concat-add_to_line c (split_lines s) ∙ ap (λ r. c ∷ r) (concat-split_lines s))
    ]

abbrev pub has_no_break : Text → Bool
has_no_break s = all (λ c. not (is_line_break c)) s

split_lines-newline : (s : Text) → split_lines (10 ∷ s) ≡ (10 ∷ []) ∷ split_lines s
unfolding split_lines is_line_break
split_lines-newline s = refl

split_lines-char :
    (c : ℕ) (s : Text)
    → is_line_break c ≡ false
    → split_lines (c ∷ s) ≡ add_to_line c (split_lines s)
unfolding split_lines
split_lines-char c s h = rw h refl

split_lines-line :
    (line s : Text)
    → has_no_break line ≡ true
    → split_lines (line ++ 10 ∷ s) ≡ (line ++ 10 ∷ []) ∷ split_lines s
split_lines-line [] s h = split_lines-newline s
split_lines-line (c ∷ line) s h =
    let on : is_line_break c ≡ false = ground arith in
    split_lines-char c (line ++ 10 ∷ s) on
    ∙ ap (add_to_line c) (split_lines-line line s (ground arith))

-- A subject that fits on the header line and has no white space around it.
pub record IsSubject (s : Text) : Type 0 where
  pub one_line : has_no_break s ≡ true
  pub no_leading : begins_in is_space s ≡ false
  pub no_trailing : ends_in is_space s ≡ false

abbrev subject_line : Text → Text
subject_line s = codes "subject: " ++ s

no_break_char : (c : ℕ) → is_line_break c ≡ false → ((c == 10) ≡ false) × ((c == 13) ≡ false)
unfolding is_line_break
no_break_char c h = (ground arith, ground arith)

no_break-all :
    (s : Text)
    → has_no_break s ≡ true
    → (all (λ c. not (c == 10)) s ≡ true) × (all (λ c. not (c == 13)) s ≡ true)
no_break-all [] h = (refl, refl)
no_break-all (c ∷ s) h =
    let (n, r) = no_break_char c (ground arith) in
    let (ns, rs) = no_break-all s (ground arith) in (rw (n, ns) refl, rw (r, rs) refl)

subject_line-no_break : (s : Text) → has_no_break s ≡ true → has_no_break (subject_line s) ≡ true
unfolding is_line_break
subject_line-no_break s h = h

rstrip-newline : (s : Text) → rstrip (λ c. c == 10) (s ++ 10 ∷ []) ≡ rstrip (λ c. c == 10) s
unfolding rstrip
rstrip-newline [] = refl
rstrip-newline (c ∷ s) = rw (rstrip-newline s) refl

without_end-line : (s : Text) → has_no_break s ≡ true → without_end (s ++ 10 ∷ []) ≡ s
unfolding without_end
without_end-line s h =
    let (n, r) = no_break-all s h in
    rw (rstrip-newline s, rstrip-id (λ c. c == 10) s (not-ends_in (λ c. c == 10) s n))
      (rstrip-id (λ c. c == 13) s (not-ends_in (λ c. c == 13) s r))

strip-space : (s : Text) → IsSubject s → strip (b' ' ∷ s) ≡ s
unfolding strip is_space strip_by lstrip
strip-space s v = strip_by-id is_space s v.no_leading v.no_trailing

strip-subject_line : (s : Text) → is_empty (strip (subject_line s)) ≡ false
unfolding strip strip_by lstrip rstrip is_space
strip-subject_line s = refl

subject_line-key :
    (u : Unicode) (s : Text)
    → text_eq (lower u (strip (before_first b':' (subject_line s)))) (codes "subject") ≡ true
unfolding lower strip strip_by lstrip rstrip is_space before_first
subject_line-key u s = refl

subject_line-value : (s : Text) → after_first b':' (subject_line s) ≡ b' ' ∷ s
unfolding after_first
subject_line-value s = refl

parse_headers-subject :
    (u : Unicode) (s : Text)
    → IsSubject s
    → parse_headers u ((subject_line s ++ 10 ∷ []) ∷ []) none ≡ good (some s)
unfolding parse_headers
parse_headers-subject u s v =
    let same = without_end-line (subject_line s) (subject_line-no_break s v.one_line) in
    rw
      (
        same,
        strip-subject_line s,
        same,
        same,
        subject_line-key u s,
        same,
        subject_line-value s,
        strip-space s v,
        parse_headers,
      )
      refl

strip-newline : is_empty (strip (10 ∷ [])) ≡ true
unfolding strip strip_by lstrip rstrip is_space
strip-newline = refl

strip-subject_line_newline : (s : Text) → is_empty (strip (subject_line s ++ 10 ∷ [])) ≡ false
unfolding strip strip_by lstrip rstrip is_space
strip-subject_line_newline s = refl

split_at_blank-newline : (lines : List Text) → split_at_blank ((10 ∷ []) ∷ lines) ≡ some ([], lines)
unfolding split_at_blank
split_at_blank-newline lines = rw strip-newline refl

split_at_blank-subject :
    (s : Text) (lines : List Text)
    → split_at_blank ((subject_line s ++ 10 ∷ []) ∷ (10 ∷ []) ∷ lines)
      ≡ some ((subject_line s ++ 10 ∷ []) ∷ [], lines)
unfolding split_at_blank
split_at_blank-subject s lines = rw (strip-subject_line_newline s, strip-newline) refl

-- The subject of a template, if it has one, fits on the header line.
abbrev pub HasSubject : Option Text → Type 0
HasSubject none = Unit
HasSubject (some s) = IsSubject s

parse-parts :
    (u : Unicode) (name : Text) (c : ℕ) (text : Text) (headers lines : List Text)
    (subject : Option Text)
    → split_at_blank (split_lines (c ∷ text)) ≡ some (headers, lines)
    → is_empty (strip (concat lines)) ≡ false
    → parse_headers u headers none ≡ good subject
    → parse_template_file u name (c ∷ text)
      ≡ good (record { name = name; subject = subject; body = concat lines })
unfolding parse_template_file
parse-parts u name c text headers lines subject e full h = rw (e, full, h, parse_template_file) refl

concat-full :
    (body : Text)
    → is_empty (strip body) ≡ false
    → is_empty (strip (concat (split_lines body))) ≡ false
concat-full body full = ap (λ b. is_empty (strip b)) (concat-split_lines body) ∙ full

abbrev template : Text → Option Text → Text → Template
template name subject body = record { name = name; subject = subject; body = body }

parse-none :
    (u : Unicode) (name body : Text)
    → is_empty (strip body) ≡ false
    → parse_template_file u name (10 ∷ body) ≡ good (template name none body)
parse-none u name body full =
    parse-parts u name 10 body [] (split_lines body) none
      (ap split_at_blank (split_lines-newline body) ∙ split_at_blank-newline (split_lines body))
      (concat-full body full) (unfold parse_headers in refl)
    ∙ ap (λ b. good (template name none b)) (concat-split_lines body)

parse-some :
    (u : Unicode) (name subject body : Text)
    → IsSubject subject
    → is_empty (strip body) ≡ false
    → parse_template_file u name (subject_line subject ++ 10 ∷ 10 ∷ body)
      ≡ good (template name (some subject) body)
parse-some u name subject body v full =
    let first =
      split_lines-line (subject_line subject) (10 ∷ body)
        (subject_line-no_break subject v.one_line) in
    let second = ap (λ ls. (subject_line subject ++ 10 ∷ []) ∷ ls) (split_lines-newline body) in
    parse-parts u name b's' (codes "ubject: " ++ subject ++ 10 ∷ 10 ∷ body)
      ((subject_line subject ++ 10 ∷ []) ∷ []) (split_lines body) (some subject)
      (ap split_at_blank (first ∙ second) ∙ split_at_blank-subject subject (split_lines body))
      (concat-full body full) (parse_headers-subject u subject v)
    ∙ ap (λ b. good (template name (some subject) b)) (concat-split_lines body)

serialized :
    (subject body : Text)
    → (codes "subject: " ++ subject ++ 10 ∷ []) ++ 10 ∷ body
      ≡ subject_line subject ++ 10 ∷ 10 ∷ body
serialized subject body =
    ap (λ r. codes "subject: " ++ r) (append_assoc subject (10 ∷ []) (10 ∷ body))

parse-template :
    (u : Unicode) (name : Text) (subject : Option Text) (body : Text)
    → HasSubject subject
    → is_empty (strip body) ≡ false
    → parse_template_file u name (header_block subject ++ 10 ∷ body)
      ≡ good (template name subject body)
unfolding header_block
parse-template u name none body v full = parse-none u name body full
parse-template u name (some subject) body v full =
    ap (parse_template_file u name) (serialized subject body)
    ∙ parse-some u name subject body v full

-- A template whose body is not blank, and whose subject, if it has one, holds no line break and has no
-- white space around it, is what parsing its serialized text under its name yields.
pub parse-serialize_template :
    (u : Unicode) (t : Template)
    → HasSubject t.subject
    → is_empty (strip t.body) ≡ false
    → parse_template_file u t.name (serialize_template t) ≡ good t
unfolding serialize_template
parse-serialize_template u t v full = parse-template u t.name t.subject t.body v full
