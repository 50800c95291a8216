-- ===== src/Utils/Filename/Limit.antt =====
-- The limit on the length of a file name: where it holds, and where it fails.
use apple_mail_fast_mcp.Base.{
  ℕ, suc, ◌+◌, ◌-◌, ◌≤◌, ◌<◌, ◌≡◌, refl, inl, inr, true, false, some, [], ◌∷◌, ◌++◌, arith, leb,
  ltb, leb→le, le→leb, lt→ltb, map, length, length-append, length-take, take, all, is_empty,
  Bool-cases, Option-cases,
}
use apple_mail_fast_mcp.Text.{Text, has_char, lstrip, after_last, before_last}
use apple_mail_fast_mcp.Text.Search.{after_last-some, after_last-append, before_last-append}
use apple_mail_fast_mcp.Text.Strip.{begins_in, lstrip-begins_in}
use apple_mail_fast_mcp.Utils.Escape.{replace_char, split_on}
use apple_mail_fast_mcp.Utils.Filename.Bounds.{begins_in-take}
use apple_mail_fast_mcp.Utils.Filename.{
  is_safe_char, safe_or_underscore, is_dot, path_name, clean_name, slice_for, limit_length,
  last_or_empty, sanitize_filename,
}

-- The extension of a name leaves room for the period and for one character before it.
abbrev pub HasRoom : ℕ → Text → Type 0
HasRoom m s = (ext : Text) → after_last b'.' s ≡ some ext → length ext + 2 ≤ m

begins_in-before :
    (k : ℕ) (before ext : Text)
    → begins_in is_dot (before ++ b'.' ∷ ext) ≡ false
    → begins_in is_dot (take (suc k) before ++ b'.' ∷ ext) ≡ false
begins_in-before k [] ext h = h
begins_in-before k (c ∷ before) ext h = h

slice_for-room : (m n : ℕ) (s : Text) → n + 2 ≤ m → slice_for m n s ≡ take (suc (m - n - 2)) s
unfolding slice_for
slice_for-room m n s h =
    let k : m - n - 1 ≡ suc (m - n - 2) = omega arith in rw (le→leb (n + 1) m (omega arith), k) refl

length-with_ext :
    (m k : ℕ) (s ext : Text) → k + length ext + 1 ≤ m → length (take k s ++ b'.' ∷ ext) ≤ m
length-with_ext m k s ext h =
    let both = length-append (take k s) (b'.' ∷ ext) in
    let cut = length-take k s in omega (arith, both, cut)

limit_length_bounds :
    (m : ℕ) (s : Text)
    → 0 < m
    → begins_in is_dot s ≡ false
    → HasRoom m s
    → (length (limit_length m s) ≤ m) × (begins_in is_dot (limit_length m s) ≡ false)
unfolding limit_length
limit_length_bounds m s pos h room = elim (Bool-cases (ltb m (length s))) [
  | inr short ↦ rw short (ground arith, h)
  | inl long ↦ elim (Option-cases (after_last b'.' s)) [
    | inl e ↦ rw (long, e, limit_length) (rw length-take (omega arith), begins_in-take is_dot m s h)
    | inr (ext, e) ↦ elim (Bool-cases (is_empty ext)) [
      | inl empty ↦
          rw (long, e, empty, limit_length)
            (rw length-take (omega arith), begins_in-take is_dot m s h)
      | inr full ↦
          let (parts, _) = after_last-some b'.' s ext e in
          let fits = room ext e in
          rw (long, e, full, slice_for-room m (length ext) (before_last b'.' s) fits, limit_length)
            (
              length-with_ext m (suc (m - length ext - 2)) (before_last b'.' s) ext (omega arith),
              begins_in-before (m - length ext - 2) (before_last b'.' s) ext (rw parts at h),
            )
    ]
  ]
]

-- Where the extension has at most 253 characters, or there is none, a sanitized name has at most
-- 255 characters and does not begin with a period.
pub sanitize_filename_bounds :
    (filename : Text)
    → HasRoom 255 (clean_name filename)
    → (length (sanitize_filename filename) ≤ 255)
      × (begins_in is_dot (sanitize_filename filename) ≡ false)
unfolding sanitize_filename
sanitize_filename_bounds filename room =
    let bounds =
      limit_length_bounds 255 (clean_name filename) (omega arith)
        (unfold clean_name in lstrip-begins_in is_dot _) room in
    elim (Bool-cases (is_empty (limit_length 255 (clean_name filename)))) [
      | inl empty ↦ rw empty (omega arith, refl)
      | inr full ↦ rw full bounds
    ]

-- A name made of safe characters passes the earlier steps unchanged.
split_on-id : (s : Text) → has_char b'/' s ≡ false → split_on b'/' s ≡ s ∷ []
unfolding split_on
split_on-id [] h = refl
split_on-id (c ∷ s) h = rw (split_on-id s (ground arith), split_on) (ground arith)

safe-lacks :
    (s : Text) → all is_safe_char s ≡ true → (has_char b'/' s ≡ false) × (replace_char 0 [] s ≡ s)
unfolding is_safe_char replace_char
safe-lacks [] h = (refl, refl)
safe-lacks (c ∷ s) h = let rest = safe-lacks s (ground arith) in ground (arith, rest)

map-safe : (s : Text) → all is_safe_char s ≡ true → map safe_or_underscore s ≡ s
map-safe [] h = refl
map-safe (c ∷ s) h = ground (arith, map-safe s)

path_name-id :
    (c : ℕ) (s : Text)
    → has_char b'/' (c ∷ s) ≡ false
    → is_dot c ≡ false
    → path_name (c ∷ s) ≡ c ∷ s
unfolding path_name last_or_empty
path_name-id c s h first = rw (split_on-id (c ∷ s) h, first) refl

clean_name-id :
    (c : ℕ) (s : Text)
    → all is_safe_char (c ∷ s) ≡ true
    → is_dot c ≡ false
    → clean_name (c ∷ s) ≡ c ∷ s
clean_name-id c s h first =
    let (slashes, nulls) = safe-lacks (c ∷ s) h in
    unfold clean_name in
    rw (nulls, path_name-id c s slashes first, map-safe (c ∷ s) h) (unfold lstrip in rw first refl)

slice_for-empty : (m n : ℕ) (s : Text) → length s + m ≤ n + 1 → slice_for m n s ≡ []
unfolding slice_for
slice_for-empty m n s h = elim (Bool-cases (leb (n + 1) m)) [
  | inl e ↦
      let zero_left : m - n - 1 ≡ 0 = omega (arith, leb→le (n + 1) m e) in rw (e, zero_left) refl
  | inr e ↦ let zero_left : length s - (n + 1 - m) ≡ 0 = omega arith in rw (e, zero_left) refl
]

limit_length-long_ext :
    (m : ℕ) (stem ext : Text)
    → has_char b'.' ext ≡ false
    → length stem + m ≤ length ext + 1
    → m < length stem + length ext + 1
    → 0 < length ext
    → limit_length m (stem ++ b'.' ∷ ext) ≡ b'.' ∷ ext
unfolding limit_length
limit_length-long_ext m stem [] one long pos some_ext = elim some_ext [ ]
limit_length-long_ext m stem (e ∷ ext) one long pos some_ext =
    let both = length-append stem (b'.' ∷ e ∷ ext) in
    rw
      (
        lt→ltb m (length (stem ++ b'.' ∷ e ∷ ext)) (omega (arith, both)),
        after_last-append b'.' stem (e ∷ ext) one,
        before_last-append b'.' stem (e ∷ ext) one,
        slice_for-empty m (length (e ∷ ext)) stem long,
        limit_length,
      )
      refl

-- A name whose extension is longer than its stem by 254 characters or more comes back as a hidden
-- name that is too long: the stem is gone, and the period and the whole extension are left.
pub sanitize_filename-long_ext :
    (c : ℕ) (stem ext : Text)
    → all is_safe_char (c ∷ stem ++ b'.' ∷ ext) ≡ true
    → is_dot c ≡ false
    → has_char b'.' ext ≡ false
    → length (c ∷ stem) + 254 ≤ length ext
    → (sanitize_filename (c ∷ stem ++ b'.' ∷ ext) ≡ b'.' ∷ ext)
      × (255 < length (sanitize_filename (c ∷ stem ++ b'.' ∷ ext)))
unfolding sanitize_filename
sanitize_filename-long_ext c stem ext safe first one long =
    rw
      (
        clean_name-id c (stem ++ b'.' ∷ ext) safe first,
        limit_length-long_ext 255 (c ∷ stem) ext one (omega arith) (omega arith) (omega arith),
      )
      (refl, omega arith)
