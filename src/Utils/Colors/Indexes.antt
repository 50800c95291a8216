-- ===== src/Utils/Colors/Indexes.antt =====
-- The two tables of flag colors agree, and no two colors have one index.
use apple_mail_fast_mcp.Base.{
  ◌≡◌, ◌≢◌, refl, sym, ◌∙◌, ◌↔◌, inl, inr, Bool, true, false, ◌&&◌, ◌||◌, not, none, some, List, [],
  ◌∷◌, map, arith, ◌==◌, Bool-cases,
}
use apple_mail_fast_mcp.Text.{Text, Unicode, codes, text_eq, text_member, lower}
use apple_mail_fast_mcp.Text.Search.{text_eq→eq}
use apple_mail_fast_mcp.Security.Audit.{Count, natural, negative}
use apple_mail_fast_mcp.Utils.Colors.{
  valid_colors, color_map, find_color, get_flag_index, validate_flag_color,
}

abbrev count_eq : Count → Count → Bool
count_eq (natural n) (natural m) = n == m
count_eq (negative n) (negative m) = n == m
count_eq (natural n) (negative m) = false
count_eq (negative n) (natural m) = false

count_eq_refl : (c : Count) → count_eq c c ≡ true
count_eq_refl (natural n) = ground arith
count_eq_refl (negative n) = ground arith

-- The index is not among those of the entries.
abbrev fresh_index : Count → List (Text × Count) → Bool
fresh_index c [] = true
fresh_index c ((name, d) ∷ entries) = not (count_eq d c) && fresh_index c entries

abbrev distinct_indexes : List (Text × Count) → Bool
distinct_indexes [] = true
distinct_indexes ((name, c) ∷ entries) = fresh_index c entries && distinct_indexes entries

true≢false : {b : Bool} → b ≡ true → b ≡ false → ⊥
true≢false h k = cc

find_color-fresh :
    (s : Text) (c : Count) (entries : List (Text × Count))
    → fresh_index c entries ≡ true
    → find_color s entries ≢ some c
unfolding find_color
find_color-fresh s c [] h e = cc
find_color-fresh s c ((name, d) ∷ entries) h e = elim (Bool-cases (text_eq name s)) [
  | inl same ↦
      let p : some d ≡ some c = rw same at e in
      let q : d ≡ c = cc in
      let r : count_eq d c ≡ true = rw q (count_eq_refl c) in absurd (true≢false r (ground arith))
  | inr differs ↦ find_color-fresh s c entries (ground arith) (rw differs at e)
]

find_color-injective :
    (s t : Text) (c : Count) (entries : List (Text × Count))
    → distinct_indexes entries ≡ true
    → find_color s entries ≡ some c
    → find_color t entries ≡ some c
    → s ≡ t
unfolding find_color
find_color-injective s t c [] h e f = cc
find_color-injective s t c ((name, d) ∷ entries) h e f =
    let fresh : fresh_index d entries ≡ true = ground arith in
    elim (Bool-cases (text_eq name s)) [
      | inl a ↦
          let p : some d ≡ some c = rw a at e in
          elim (Bool-cases (text_eq name t)) [
            | inl b ↦ sym (text_eq→eq name s a) ∙ text_eq→eq name t b
            | inr b ↦ absurd (find_color-fresh t d entries fresh ((rw b at f) ∙ sym p))
          ]
      | inr a ↦ elim (Bool-cases (text_eq name t)) [
        | inl b ↦
            let p : some d ≡ some c = rw b at f in
            absurd (find_color-fresh s d entries fresh ((rw a at e) ∙ sym p))
        | inr b ↦ find_color-injective s t c entries (ground arith) (rw a at e) (rw b at f)
      ]
    ]

abbrev names : List (Text × Count) → List Text
names entries = map (λ e. e.0) entries

find_color-member :
    (s : Text) (entries : List (Text × Count))
    → (find_color s entries ≡ none) ↔ (text_member s (names entries) ≡ false)
unfolding find_color
find_color-member s [] = (λ h. refl, λ h. refl)
find_color-member s ((name, c) ∷ entries) = elim (Bool-cases (text_eq name s)) [
  | inl same ↦ rw same (λ h. cc, λ h. cc)
  | inr differs ↦ rw differs (find_color-member s entries)
]

-- The two tables list the colors in different orders.
swaps :
    (clear red orange yellow green blue purple gray : Bool)
    → (clear || (red || (orange || (yellow || (green || (blue || (purple || (gray || false))))))))
      ≡ (clear || (orange || (red || (yellow || (blue || (green || (purple || (gray || false))))))))
swaps clear red orange yellow green blue purple gray = ground arith

names-valid_colors : (s : Text) → text_member s (names color_map) ≡ text_member s valid_colors
names-valid_colors s =
    swaps (text_eq (codes "none") s) (text_eq (codes "red") s) (text_eq (codes "orange") s)
      (text_eq (codes "yellow") s) (text_eq (codes "green") s) (text_eq (codes "blue") s)
      (text_eq (codes "purple") s) (text_eq (codes "gray") s)

find_color-none :
    (s : Text) → (find_color s color_map ≡ none) ↔ (text_member s valid_colors ≡ false)
find_color-none s =
    let (to, from) = find_color-member s color_map in
    let same = names-valid_colors s in (λ h. sym same ∙ to h, λ h. from (same ∙ h))

-- Finding the index of a color fails exactly if validating the color does, and two colors with one
-- index are the same in lower case.
pub get_flag_index_agrees :
    (u : Unicode)
    → ((color : Text) → (get_flag_index u color ≡ none) ↔ (validate_flag_color u color ≡ false))
      × ((a b : Text) (index : Count)
          → get_flag_index u a ≡ some index
          → get_flag_index u b ≡ some index
          → lower u a ≡ lower u b)
unfolding get_flag_index validate_flag_color
get_flag_index_agrees u = (
  λ color. find_color-none (lower u color),
  λ a b index e f. find_color-injective (lower u a) (lower u b) index color_map refl e f,
)
