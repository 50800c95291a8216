-- ===== src/Imap/Bodystructure/Agreement.antt =====
-- The list of attachments and the yes or no: when they agree.
use apple_mail_fast_mcp.Base.{
  ◌≡◌, refl, sym, ◌∙◌, inl, inr, Bool, true, false, not, ◌&&◌, ◌||◌, Option, none, some, List, [],
  ◌∷◌, ◌++◌, arith, Bool-cases, is_empty, if◌then◌else◌,
}
use apple_mail_fast_mcp.Text.{Text, codes}
use apple_mail_fast_mcp.Imap.Bodystructure.{
  Value, bytes, number, atom, sequence, tuple, Values, nil, cons, Attachment, is_word, at,
  find_param, filename_from_params, is_given, is_disposition, lists_attachment, first_disposition,
  is_rfc822, marks, leaf_attachments, walk, walk_tuple, walk_each,
  bodystructure_extract_attachments, has_param, has_filename, disposition_marks_attachment,
  any_marks, leaf_has_attachment, bodystructure_has_attachment, tuple_has_attachment,
  each_has_attachment,
}

abbrev pub is_bytes : Value → Bool
is_bytes (bytes b) = true
is_bytes v = false

-- Every file name of the parameters is bytes.
unfoldable pub names_are_bytes : Values → Bool
unfolding is_word
names_are_bytes nil = true
names_are_bytes (cons k nil) = true
names_are_bytes (cons k (cons v rest)) =
    (not (is_word (codes "filename") k) || is_bytes v) && names_are_bytes rest

abbrev pub parameters_regular : Option Value → Bool
parameters_regular (some (tuple params)) = names_are_bytes params
parameters_regular v = true

abbrev pub disposition_regular : Value → Bool
disposition_regular (tuple (cons k rest)) = parameters_regular (at rest 0)
disposition_regular v = true

unfoldable pub any_disposition : Values → Bool
unfolding is_disposition
any_disposition nil = false
any_disposition (cons v vs) = is_disposition v || any_disposition vs

-- A leaf with at most one element that looks like a disposition, whose file names are bytes
unfoldable pub leaf_regular : Values → Bool
unfolding any_disposition
leaf_regular nil = true
leaf_regular (cons v vs) =
    if is_disposition v then disposition_regular v && not (any_disposition vs) else leaf_regular vs

unfoldable mutual
  unfolding leaf_regular

  pub is_regular : Value → Bool
  is_regular (tuple vs) = tuple_regular vs
  is_regular v = true

  pub tuple_regular : Values → Bool
  tuple_regular nil = true
  tuple_regular (cons (sequence children) rest) = each_regular children
  tuple_regular (cons (tuple vs) rest) = tuple_regular vs && each_regular rest
  tuple_regular (cons (bytes b) rest) = leaf_regular (cons (bytes b) rest)
  tuple_regular (cons (number n) rest) = leaf_regular (cons (number n) rest)
  tuple_regular (cons atom rest) = leaf_regular (cons atom rest)

  pub each_regular : Values → Bool
  each_regular nil = true
  each_regular (cons v vs) = is_regular v && each_regular vs

find-has_param :
    (key : Text) (params : Values)
    → is_given (find_param key params) ≡ true
    → has_param key params ≡ true
unfolding find_param has_param
find-has_param key nil h = cc
find-has_param key (cons k nil) h = cc
find-has_param key (cons k (cons v rest)) h = ground (arith, find-has_param key rest)

find-has_param_regular :
    (params : Values)
    → names_are_bytes params ≡ true
    → has_param (codes "filename") params ≡ is_given (find_param (codes "filename") params)
unfolding find_param has_param names_are_bytes
find-has_param_regular nil h = refl
find-has_param_regular (cons k nil) h = refl
find-has_param_regular (cons k (cons v rest)) h = ground (arith, find-has_param_regular rest)

given-has_filename :
    (p : Option Value)
    → is_given (filename_from_params (codes "filename") p) ≡ true
    → has_filename p ≡ true
unfolding filename_from_params
given-has_filename none h = cc
given-has_filename (some (tuple params)) h = find-has_param (codes "filename") params h
given-has_filename (some (bytes b)) h = cc
given-has_filename (some (number n)) h = cc
given-has_filename (some atom) h = cc
given-has_filename (some (sequence vs)) h = cc

given-has_filename_regular :
    (p : Option Value)
    → parameters_regular p ≡ true
    → has_filename p ≡ is_given (filename_from_params (codes "filename") p)
unfolding filename_from_params
given-has_filename_regular none h = refl
given-has_filename_regular (some (tuple params)) h = find-has_param_regular params h
given-has_filename_regular (some (bytes b)) h = refl
given-has_filename_regular (some (number n)) h = refl
given-has_filename_regular (some atom) h = refl
given-has_filename_regular (some (sequence vs)) h = refl

lists-marks : (v : Value) → lists_attachment v ≡ true → disposition_marks_attachment v ≡ true
unfolding lists_attachment disposition_marks_attachment
lists-marks (tuple (cons (bytes b) rest)) h = ground (arith, given-has_filename (at rest 0))
lists-marks (tuple (cons (number n) rest)) h = ground arith
lists-marks (tuple (cons atom rest)) h = ground arith
lists-marks (tuple (cons (sequence vs) rest)) h = ground arith
lists-marks (tuple (cons (tuple vs) rest)) h = ground arith
lists-marks (tuple nil) h = cc
lists-marks (bytes b) h = cc
lists-marks (number n) h = cc
lists-marks atom h = cc
lists-marks (sequence vs) h = cc

lists-marks_regular :
    (v : Value) → disposition_regular v ≡ true → disposition_marks_attachment v ≡ lists_attachment v
unfolding lists_attachment disposition_marks_attachment
lists-marks_regular (tuple (cons (bytes b) rest)) h =
    ground (arith, given-has_filename_regular (at rest 0) h)
lists-marks_regular (tuple (cons (number n) rest)) h = ground arith
lists-marks_regular (tuple (cons atom rest)) h = ground arith
lists-marks_regular (tuple (cons (sequence vs) rest)) h = ground arith
lists-marks_regular (tuple (cons (tuple vs) rest)) h = ground arith
lists-marks_regular (tuple nil) h = refl
lists-marks_regular (bytes b) h = refl
lists-marks_regular (number n) h = refl
lists-marks_regular atom h = refl
lists-marks_regular (sequence vs) h = refl

no_disposition : (v : Value) → is_disposition v ≡ false → disposition_marks_attachment v ≡ false
unfolding is_disposition disposition_marks_attachment
no_disposition (tuple (cons (bytes b) rest)) h = ground arith
no_disposition (tuple (cons (number n) rest)) h = refl
no_disposition (tuple (cons atom rest)) h = refl
no_disposition (tuple (cons (sequence vs) rest)) h = refl
no_disposition (tuple (cons (tuple vs) rest)) h = refl
no_disposition (tuple nil) h = refl
no_disposition (bytes b) h = refl
no_disposition (number n) h = refl
no_disposition atom h = refl
no_disposition (sequence vs) h = refl

no_dispositions : (vs : Values) → any_disposition vs ≡ false → any_marks vs ≡ false
unfolding any_disposition any_marks
no_dispositions nil h = refl
no_dispositions (cons v vs) h = ground (arith, no_disposition v, no_dispositions vs)

first-any_marks : (vs : Values) → marks (first_disposition vs) ≡ true → any_marks vs ≡ true
unfolding first_disposition any_marks
first-any_marks nil h = cc
first-any_marks (cons v vs) h = ground (arith, lists-marks v, first-any_marks vs)

first-any_marks_regular :
    (vs : Values) → leaf_regular vs ≡ true → any_marks vs ≡ marks (first_disposition vs)
unfolding first_disposition any_marks leaf_regular
first-any_marks_regular nil h = refl
first-any_marks_regular (cons v vs) h =
    ground (
      arith,
      lists-marks_regular v,
      no_disposition v,
      no_dispositions vs,
      first-any_marks_regular vs,
    )

-- The emptiness of a list as a test that the tactics read
abbrev pub lists_some : List Attachment → Bool
lists_some xs = not (is_empty xs)

lists_some-append :
    (xs ys : List Attachment) → lists_some (xs ++ ys) ≡ (lists_some xs || lists_some ys)
lists_some-append [] ys = refl
lists_some-append (x ∷ xs) ys = refl

and_parts : (a b : Bool) → (a && b) ≡ true → (a ≡ true) × (b ≡ true)
and_parts a b h = ground arith

or_agrees : {a b c d : Bool} → a ≡ c → b ≡ d → (a || b) ≡ (c || d)
or_agrees e f = rw (e, f) refl

module _ (decode : Text → Text) where
  lists_some-leaf :
      (leaf : Values)
      → lists_some (leaf_attachments decode leaf)
        ≡ (marks (first_disposition leaf) || is_rfc822 leaf)
  unfolding leaf_attachments
  lists_some-leaf leaf = elim (Bool-cases (marks (first_disposition leaf) || is_rfc822 leaf)) [
    | inl yes_one ↦ rw yes_one refl
    | inr none_here ↦ rw none_here refl
  ]

  leaf_listed :
      (leaf : Values)
      → lists_some (leaf_attachments decode leaf) ≡ true
      → leaf_has_attachment leaf ≡ true
  unfolding leaf_has_attachment
  leaf_listed leaf h = ground (arith, lists_some-leaf leaf, first-any_marks leaf)

  leaf_agrees :
      (leaf : Values)
      → leaf_regular leaf ≡ true
      → leaf_has_attachment leaf ≡ lists_some (leaf_attachments decode leaf)
  unfolding leaf_has_attachment
  leaf_agrees leaf h = ground (arith, lists_some-leaf leaf, first-any_marks_regular leaf)

  mutual
    unfolding walk walk_tuple walk_each bodystructure_has_attachment tuple_has_attachment
        each_has_attachment

    listed : (v : Value) → lists_some (walk decode v) ≡ true → bodystructure_has_attachment v ≡ true
    listed (tuple vs) h = listed_tuple vs h
    listed (bytes b) h = cc
    listed (number n) h = cc
    listed atom h = cc
    listed (sequence vs) h = cc

    listed_tuple :
        (vs : Values) → lists_some (walk_tuple decode vs) ≡ true → tuple_has_attachment vs ≡ true
    listed_tuple nil h = cc
    listed_tuple (cons (sequence children) rest) h = listed_each children h
    listed_tuple (cons (tuple vs) rest) h = ground (
      arith,
      lists_some-append (walk_tuple decode vs) (walk_each decode rest),
      listed_tuple vs,
      listed_each rest,
    )
    listed_tuple (cons (bytes b) rest) h = leaf_listed (cons (bytes b) rest) h
    listed_tuple (cons (number n) rest) h = leaf_listed (cons (number n) rest) h
    listed_tuple (cons atom rest) h = leaf_listed (cons atom rest) h

    listed_each :
        (vs : Values) → lists_some (walk_each decode vs) ≡ true → each_has_attachment vs ≡ true
    listed_each nil h = cc
    listed_each (cons v vs) h =
        ground
          (arith, lists_some-append (walk decode v) (walk_each decode vs), listed v, listed_each vs)

  mutual
    unfolding walk walk_tuple walk_each bodystructure_has_attachment tuple_has_attachment
        each_has_attachment is_regular tuple_regular each_regular

    agrees :
        (v : Value)
        → is_regular v ≡ true
        → bodystructure_has_attachment v ≡ lists_some (walk decode v)
    agrees (tuple vs) h = agrees_tuple vs h
    agrees (bytes b) h = refl
    agrees (number n) h = refl
    agrees atom h = refl
    agrees (sequence vs) h = refl

    agrees_tuple :
        (vs : Values)
        → tuple_regular vs ≡ true
        → tuple_has_attachment vs ≡ lists_some (walk_tuple decode vs)
    agrees_tuple nil h = refl
    agrees_tuple (cons (sequence children) rest) h = agrees_each children h
    agrees_tuple (cons (tuple vs) rest) h =
        or_agrees (agrees_tuple vs (and_parts _ _ h).0) (agrees_each rest (and_parts _ _ h).1)
        ∙ sym (lists_some-append (walk_tuple decode vs) (walk_each decode rest))
    agrees_tuple (cons (bytes b) rest) h = leaf_agrees (cons (bytes b) rest) h
    agrees_tuple (cons (number n) rest) h = leaf_agrees (cons (number n) rest) h
    agrees_tuple (cons atom rest) h = leaf_agrees (cons atom rest) h

    agrees_each :
        (vs : Values)
        → each_regular vs ≡ true
        → each_has_attachment vs ≡ lists_some (walk_each decode vs)
    agrees_each nil h = refl
    agrees_each (cons v vs) h =
        or_agrees (agrees v (and_parts _ _ h).0) (agrees_each vs (and_parts _ _ h).1)
        ∙ sym (lists_some-append (walk decode v) (walk_each decode vs))

  -- No structure has an attachment in its list and fails the filter for attachments, whatever its
  -- shape.
  pub listed-has_attachment :
      (s : Value)
      → (lists_some (bodystructure_extract_attachments decode s)
          && not (bodystructure_has_attachment s))
        ≡ false
  unfolding bodystructure_extract_attachments
  listed-has_attachment s = ground (arith, listed s)

  -- Where each leaf has at most one element that looks like a disposition, and its file names are
  -- bytes, the filter for attachments and the list of attachments say the same.
  pub bodystructure_has_attachment_agrees :
      (s : Value)
      → is_regular s ≡ true
      → bodystructure_has_attachment s ≡ lists_some (bodystructure_extract_attachments decode s)
  unfolding bodystructure_extract_attachments
  bodystructure_has_attachment_agrees s h = agrees s h
