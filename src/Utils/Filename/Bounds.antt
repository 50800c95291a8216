-- ===== src/Utils/Filename/Bounds.antt =====
-- A sanitized file name holds safe characters alone.
use apple_mail_fast_mcp.Base.{
  ℕ, zero, suc, ◌+◌, ◌-◌, ◌≡◌, refl, inl, inr, Bool, true, false, [], ◌∷◌, ◌++◌, arith, leb, ltb,
  map, length, take, all, all-append, is_empty, Bool-cases, Option-cases,
}
use apple_mail_fast_mcp.Text.{Text, codes, has_char, after_last, before_last}
use apple_mail_fast_mcp.Text.Search.{after_last-some}
use apple_mail_fast_mcp.Text.Strip.{begins_in, all-lstrip, lstrip-begins_in}
use apple_mail_fast_mcp.Utils.Escape.{replace_char}
use apple_mail_fast_mcp.Utils.Filename.{
  is_safe_char, safe_or_underscore, is_dot, path_name, clean_name, slice_for, limit_length,
  sanitize_filename,
}

safe_or_underscore_lem : (c : ℕ) → is_safe_char (safe_or_underscore c) ≡ true
safe_or_underscore_lem c = elim (Bool-cases (is_safe_char c)) [
  | inl e ↦ rw (e, e) refl
  | inr e ↦ rw e (unfold is_safe_char in refl)
]

all-map_safe : (s : Text) → all is_safe_char (map safe_or_underscore s) ≡ true
all-map_safe [] = refl
all-map_safe (c ∷ s) = rw (safe_or_underscore_lem c) (all-map_safe s)

module _ (p : ℕ → Bool) where
  all-take : (n : ℕ) (s : Text) → all p s ≡ true → all p (take n s) ≡ true
  all-take zero s h = refl
  all-take (suc n) [] h = refl
  all-take (suc n) (c ∷ s) h = ground (arith, all-take n s)

  pub begins_in-take : (n : ℕ) (s : Text) → begins_in p s ≡ false → begins_in p (take n s) ≡ false
  begins_in-take zero s h = refl
  begins_in-take (suc n) [] h = refl
  begins_in-take (suc n) (c ∷ s) h = h

  all-slice_for : (m n : ℕ) (s : Text) → all p s ≡ true → all p (slice_for m n s) ≡ true
  unfolding slice_for
  all-slice_for m n s h = elim (Bool-cases (leb (n + 1) m)) [
    | inl e ↦ rw e (all-take (m - n - 1) s h)
    | inr e ↦ rw e (all-take (length s - (n + 1 - m)) s h)
  ]

  all-limit_length :
      (m : ℕ) (s : Text) → p b'.' ≡ true → all p s ≡ true → all p (limit_length m s) ≡ true
  unfolding limit_length
  all-limit_length m s dot h = elim (Bool-cases (ltb m (length s))) [
    | inr short ↦ rw short h
    | inl long ↦ elim (Option-cases (after_last b'.' s)) [
      | inl e ↦ rw (long, e, limit_length) (all-take m s h)
      | inr (ext, e) ↦ elim (Bool-cases (is_empty ext)) [
        | inl empty ↦ rw (long, e, empty, limit_length) (all-take m s h)
        | inr full ↦
            let (parts, _) = after_last-some b'.' s ext e in
            let both = all-append p (before_last b'.' s) (b'.' ∷ ext) in
            let whole : all p (before_last b'.' s ++ b'.' ∷ ext) ≡ true = rw parts at h in
            rw (long, e, full, limit_length, all-append)
              (rw (all-slice_for m (length ext) (before_last b'.' s) (ground (arith, both, whole)))
                (ground (arith, both, whole)))
      ]
    ]
  ]

clean_name-safe : (filename : Text) → all is_safe_char (clean_name filename) ≡ true
unfolding clean_name
clean_name-safe filename =
    all-lstrip is_dot is_safe_char _ (all-map_safe (path_name (replace_char 0 [] filename)))

safe-dot : is_safe_char b'.' ≡ true
unfolding is_safe_char
safe-dot = refl

unnamed-safe : all is_safe_char (codes "unnamed_file") ≡ true
unfolding is_safe_char
unnamed-safe = refl

-- A text that is not all periods has another character where its first is none.
dots-head : (s : Text) → begins_in is_dot s ≡ false → is_empty s ≡ false → all is_dot s ≡ false
dots-head [] h e = cc
dots-head (c ∷ s) h e = ground arith

clean_name-head : (filename : Text) → begins_in is_dot (clean_name filename) ≡ false
unfolding clean_name
clean_name-head filename =
    lstrip-begins_in is_dot (map safe_or_underscore (path_name (replace_char 0 [] filename)))

-- What stands behind the last period has none.
dots-ext : (ext : Text) → has_char b'.' ext ≡ false → is_empty ext ≡ false → all is_dot ext ≡ false
dots-ext [] h e = cc
dots-ext (c ∷ ext) h e = ground arith

dots-append : (s ext : Text) → all is_dot ext ≡ false → all is_dot (s ++ b'.' ∷ ext) ≡ false
dots-append s ext h = let both = all-append is_dot s (b'.' ∷ ext) in ground (arith, both)

take-full : (n : ℕ) (s : Text) → is_empty s ≡ false → is_empty (take (suc n) s) ≡ false
take-full n [] h = cc
take-full n (c ∷ s) h = refl

-- Limiting the length leaves a character that is no period.
limit_length-dots :
    (m : ℕ) (s : Text)
    → begins_in is_dot s ≡ false
    → is_empty s ≡ false
    → all is_dot (limit_length (suc m) s) ≡ false
unfolding limit_length
limit_length-dots m s h full = elim (Bool-cases (ltb (suc m) (length s))) [
  | inr short ↦ rw short (dots-head s h full)
  | inl long ↦
      let cut =
        dots-head (take (suc m) s) (begins_in-take is_dot (suc m) s h) (take-full m s full) in
      elim (Option-cases (after_last b'.' s)) [
        | inl e ↦ rw (long, e, limit_length) cut
        | inr (ext, e) ↦ elim (Bool-cases (is_empty ext)) [
          | inl empty ↦ rw (long, e, empty, limit_length) cut
          | inr some_ext ↦
              let (parts, no_dot) = after_last-some b'.' s ext e in
              rw (long, e, some_ext, limit_length)
                (dots-append (slice_for (suc m) (length ext) (before_last b'.' s)) ext
                  (dots-ext ext no_dot some_ext))
        ]
      ]
]

limit_length-some : (m : ℕ) (s : Text) → is_empty (limit_length m s) ≡ false → is_empty s ≡ false
unfolding limit_length
limit_length-some m [] h = ground arith
limit_length-some m (c ∷ s) h = refl

-- Every sanitized file name consists of ASCII letters and digits, periods, underscores and dashes, and
-- has a character that is no period: so it is neither empty nor `.` nor `..`, and has no slash.
pub sanitize_filename-safe :
    (filename : Text)
    → (all is_safe_char (sanitize_filename filename) ≡ true)
      × (all is_dot (sanitize_filename filename) ≡ false)
unfolding sanitize_filename
sanitize_filename-safe filename =
    let name = limit_length 255 (clean_name filename) in
    let safe =
      all-limit_length is_safe_char 255 (clean_name filename) safe-dot (clean_name-safe filename) in
    elim (Bool-cases (is_empty (limit_length 255 (clean_name filename)))) [
      | inl empty ↦ rw empty (unnamed-safe, refl)
      | inr full ↦ rw full (
        safe,
        limit_length-dots 254 (clean_name filename) (clean_name-head filename)
            (limit_length-some 255 (clean_name filename) full),
      )
    ]
