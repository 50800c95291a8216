-- ===== src/Drafts/Seeds/Store.antt =====
-- What the store of seeds gives back.
use apple_mail_fast_mcp.Base.{
  ℕ, ◌≡◌, refl, sym, ap, ◌∙◌, inl, inr, Bool, true, false, ◌&&◌, none, some, [], ◌∷◌, ◌++◌, ◌==◌,
  arith, all, length, length-append, is_empty, Bool-cases, if◌then◌else◌,
}
use apple_mail_fast_mcp.Text.{Text, codes, text_eq, has_char}
use apple_mail_fast_mcp.Text.Search.{text_eq→eq, text_eq_refl, text_eq-sym, has_char-append}
use apple_mail_fast_mcp.Drafts.Seeds.{
  is_draft_char, has_two_dots, is_draft_id, SeedKind, reply, forward, SeedRecord, Content,
  SeedFiles, seed_at, write_seed, remove_seed, done, seed_path, read_seed, get_seed, payload,
  set_seed, delete_seed,
}

seed_at-write_seed :
    (path other : Text) (x : Content) (files : SeedFiles)
    → seed_at other (write_seed path x files)
      ≡ (if text_eq path other then some x else seed_at other files)
unfolding seed_at write_seed
seed_at-write_seed path other x [] = refl
seed_at-write_seed path other x ((p, y) ∷ files) = elim (Bool-cases (text_eq p path)) [
  | inl same ↦
      let e = text_eq→eq p path same in
      elim (Bool-cases (text_eq path other)) [
        | inl k ↦ rw (same, e, k) refl
        | inr k ↦ rw (same, e, k) refl
      ]
  | inr differ ↦ elim (Bool-cases (text_eq p other)) [
    | inl k ↦ ground (
      arith,
      differ,
      k,
      seed_at-write_seed path other x files,
      text_eq→eq p other k,
      text_eq-sym path p,
    )
    | inr k ↦ rw (differ, k) (seed_at-write_seed path other x files)
  ]
]

seed_at-remove_seed :
    (path other : Text) (files : SeedFiles)
    → seed_at other (remove_seed path files)
      ≡ (if text_eq path other then none else seed_at other files)
unfolding seed_at remove_seed
seed_at-remove_seed path other [] = ground arith
seed_at-remove_seed path other ((p, y) ∷ files) = elim (Bool-cases (text_eq p path)) [
  | inl same ↦
      rw (text_eq→eq p path same)
        (rw (text_eq_refl path) (ground (arith, seed_at-remove_seed path other files)))
  | inr differ ↦ ground (
    arith,
    differ,
    seed_at-remove_seed path other files,
    text_eq→eq p other,
    text_eq→eq path other,
    text_eq-sym path p,
  )
]

longer : (c : ℕ) (t suffix : Text) → text_eq suffix (c ∷ t ++ suffix) ≡ false
longer c t suffix = elim (Bool-cases (text_eq suffix (c ∷ t ++ suffix))) [
  | inr no_match ↦ no_match
  | inl matches ↦ absurd (
      omega (
        arith,
        ap length (text_eq→eq suffix (c ∷ t ++ suffix) matches),
        length-append (c ∷ t) suffix,
      ))
]

-- Different ids have different files.
text_eq-append : (s t suffix : Text) → text_eq (s ++ suffix) (t ++ suffix) ≡ text_eq s t
text_eq-append [] [] suffix = text_eq_refl suffix
text_eq-append [] (c ∷ t) suffix = longer c t suffix
text_eq-append (c ∷ s) [] suffix = text_eq-sym (c ∷ s ++ suffix) suffix ∙ longer c s suffix
text_eq-append (c ∷ s) (d ∷ t) suffix = ap (λ b. c == d && b) (text_eq-append s t suffix)

-- The seed that `get_seed` gives back: a forward has no `reply_all`.
abbrev pub stored : SeedKind → Text → Bool → SeedRecord
stored reply id all_of_them = record { seed_kind = reply; seed_id = id; reply_all = all_of_them }
stored forward id all_of_them = record { seed_kind = forward; seed_id = id; reply_all = false }

read_seed-payload :
    (kind : SeedKind) (id : Text) (b : Bool)
    → is_empty id ≡ false
    → read_seed (some (payload kind id b)) ≡ done (some (stored kind id b))
unfolding payload
read_seed-payload kind [] b h = cc
read_seed-payload reply (c ∷ id) b h = refl
read_seed-payload forward (c ∷ id) b h = refl

-- After a seed with an id that is not empty was set for a draft, getting it gives that seed, where a
-- forward has lost `reply_all`, and every other draft has the seed that it had.
pub get_seed-set_seed :
    (id other : Text) (seed : SeedRecord) (files : SeedFiles)
    → is_draft_id id ≡ true
    → is_empty seed.seed_id ≡ false
    → get_seed other (set_seed id seed files).1 ≡ (
        if text_eq id other
        then done (some (stored seed.seed_kind seed.seed_id seed.reply_all))
        else get_seed other files)
unfolding get_seed set_seed
get_seed-set_seed id other seed files valid full =
    rw
      (
        valid,
        seed_at-write_seed (seed_path id) (seed_path other)
            (payload seed.seed_kind seed.seed_id seed.reply_all) files,
        text_eq-append id other (codes ".json"),
      )
      (elim (Bool-cases (text_eq id other)) [
        | inl same ↦
            rw
              (
                same,
                sym (text_eq→eq id other same),
                valid,
                read_seed-payload seed.seed_kind seed.seed_id seed.reply_all full,
              )
              refl
        | inr differ ↦ rw differ refl
      ])

-- After the seed of a draft was deleted there is none, and every other draft has the seed that it had.
pub get_seed-delete_seed :
    (id other : Text) (files : SeedFiles)
    → is_draft_id id ≡ true
    → get_seed other (delete_seed id files).1
      ≡ (if text_eq id other then done none else get_seed other files)
unfolding get_seed delete_seed
get_seed-delete_seed id other files valid =
    rw
      (
        valid,
        seed_at-remove_seed (seed_path id) (seed_path other) files,
        text_eq-append id other (codes ".json"),
      )
      (elim (Bool-cases (text_eq id other)) [
        | inl same ↦ rw (same, sym (text_eq→eq id other same), valid) refl
        | inr differ ↦ rw differ refl
      ])

no_separator : (s : Text) → all is_draft_char s ≡ true → has_char b'/' s ≡ false
unfolding is_draft_char
no_separator [] h = refl
no_separator (c ∷ s) h = ground (arith, no_separator s)

-- The file of a draft stands in the store's directory: its name has no slash, and it is not one of the
-- names that begin with two dots. An id that is refused changes no file.
pub seed_path-lacks :
    (id : Text)
    → is_draft_id id ≡ true
    → (has_char b'/' (seed_path id) ≡ false) × (has_two_dots id ≡ false)
unfolding is_draft_id
seed_path-lacks id valid = (
  has_char-append b'/' id (codes ".json") ∙ rw (no_separator id (ground arith)) refl,
  ground arith,
)
