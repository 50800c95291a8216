-- ===== src/Base/Dict.antt =====
-- Python's `dict` with text keys, as an association list, and membership in a set of texts.
use Prim.Native.String.{String}
use mathlib.Core.Path.{◌≡◌, refl}
use mathlib.Core.Bool.{Bool, false, ◌||◌}
use mathlib.Core.Option.{Option, none, some}
use mathlib.Core.List.{List, [], ◌∷◌, ◌++◌}
use native.Mathlib.Omega.{arith}
use text.Mathlib.Text.{◌==◌ as string_beq}
use text.Mathlib.TextEquality.{eq_iff}
use apple_mail_fast_mcp.Base.Tests.{if◌then◌else◌}

abbrev pub str_eq : String → String → Bool
str_eq = string_beq

-- `key in keys` for a set or a list of texts.
abbrev pub member : String → List String → Bool
member k [] = false
member k (j ∷ js) = str_eq j k || member k js

module _ {ℓ} {V : Type ℓ} where
  -- `d.get(k)`
  abbrev pub lookup : String → List (String × V) → Option V
  lookup k [] = none
  lookup k ((j, v) ∷ d) = if str_eq j k then some v else lookup k d

  -- `d[k] = v`
  abbrev pub insert : String → V → List (String × V) → List (String × V)
  insert k v [] = (k, v) ∷ []
  insert k v ((j, w) ∷ d) = if str_eq j k then (k, v) ∷ d else (j, w) ∷ insert k v d

  pub lookup-insert :
      (k j : String) (v : V) (d : List (String × V))
      → lookup j (insert k v d) ≡ (if str_eq k j then some v else lookup j d)
  lookup-insert k j v [] = refl
  lookup-insert k j v ((i, w) ∷ d) =
      ground (arith, eq_iff k j, eq_iff i k, eq_iff i j, lookup-insert k j v d)

pub member-append :
    (k : String) (xs ys : List String) → member k (xs ++ ys) ≡ (member k xs || member k ys)
member-append k [] ys = refl
member-append k (x ∷ xs) ys = ground (arith, member-append k xs ys)
