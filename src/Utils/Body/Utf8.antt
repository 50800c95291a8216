-- ===== src/Utils/Body/Utf8.antt =====
-- UTF-8: `str.encode` and `bytes.decode` with the error handlers that the program names.
pub mod Reads
use apple_mail_fast_mcp.Base.{
  ℕ, zero, suc, ◌+◌, ◌-◌, ◌*◌, ◌/◌, ◌%◌, Bool, true, false, ◌&&◌, Option, none, some, List, [], ◌∷◌,
  ◌++◌, leb, ltb, ◌==◌, if◌then◌else◌,
}
use apple_mail_fast_mcp.Text.{Text}

abbrev pub is_surrogate : ℕ → Bool
is_surrogate c = leb 0xd800 c && leb c 0xdfff

-- The bytes of one code point.
unfoldable pub encode_char : ℕ → List ℕ
encode_char c =
    if ltb c 0x80
    then c ∷ []
    else if ltb c 0x800
    then (0xc0 + c / 64) ∷ (0x80 + c % 64) ∷ []
    else if ltb c 0x10000
    then (0xe0 + c / 4096) ∷ (0x80 + (c / 64) % 64) ∷ (0x80 + c % 64) ∷ []
    else (0xf0 + c / 262144)
      ∷ (0x80 + (c / 4096) % 64)
      ∷ (0x80 + (c / 64) % 64)
      ∷ (0x80 + c % 64)
      ∷ []

-- `s.encode("utf-8")`; `none` is the error at a lone surrogate.
unfoldable pub encode : Text → Option (List ℕ)
encode [] = some []
encode (c ∷ s) = elim (encode s) [
  | none ↦ none
  | some bytes ↦ if is_surrogate c then none else some (encode_char c ++ bytes)
]

-- `s.encode("utf-8", "replace")`
unfoldable pub encode_replace : Text → List ℕ
encode_replace [] = []
encode_replace (c ∷ s) = encode_char (if is_surrogate c then b'?' else c) ++ encode_replace s

-- Where the decoder stands: between two code points, or within one, with the number of bytes still
-- wanted, the value of those read, and the range of the next byte.
pub data State : Type 0 where
  idle : State
  pending : ℕ → ℕ → ℕ → ℕ → State

-- The first byte of a code point; `none` is a byte that begins none.
unfoldable pub start : ℕ → Option (Option ℕ × State)
start b =
    if ltb b 0x80
    then some (some b, idle)
    else if ltb b 0xc2
    then none
    else if ltb b 0xe0
    then some (none, pending 1 (b - 0xc0) 0x80 0xbf)
    else if b == 0xe0
    then some (none, pending 2 0 0xa0 0xbf)
    else if b == 0xed
    then some (none, pending 2 13 0x80 0x9f)
    else if ltb b 0xf0
    then some (none, pending 2 (b - 0xe0) 0x80 0xbf)
    else if b == 0xf0
    then some (none, pending 3 0 0x90 0xbf)
    else if ltb b 0xf4
    then some (none, pending 3 (b - 0xf0) 0x80 0xbf)
    else if b == 0xf4
    then some (none, pending 3 4 0x80 0x8f)
    else none

-- One byte: the code point that it ends, if it ends one, and the next state; `none` is a byte that
-- may not stand there.
unfoldable pub step : State → ℕ → Option (Option ℕ × State)
unfolding start
step idle b = start b
step (pending more value low high) b =
    if leb low b && leb b high
    then (let value' = value * 64 + (b - 0x80) in
        if leb more 1
        then some (some value', idle)
        else some (none, pending (more - 1) value' 0x80 0xbf))
    else none

abbrev emit : Option ℕ → Text → Text
emit none s = s
emit (some c) s = c ∷ s

unfoldable pub decode_from : State → List ℕ → Option Text
decode_from idle [] = some []
decode_from (pending more value low high) [] = none
decode_from s (b ∷ bytes) = elim (step s b) [
  | none ↦ none
  | some (out, s') ↦ elim (decode_from s' bytes) [ none ↦ none | some text ↦ some (emit out text) ]
]

-- `bytes.decode("utf-8")`
unfoldable pub decode : List ℕ → Option Text
unfolding decode_from
decode = decode_from idle

-- A byte that may not stand there drops what was pending and is read as a first byte.
unfoldable pub ignoring_step : State → ℕ → Option ℕ × State
ignoring_step s b = elim (step s b) [
  | some r ↦ r
  | none ↦ elim (start b) [ some r ↦ r | none ↦ (none, idle) ]
]

unfoldable pub ignore_from : State → List ℕ → Text
unfolding ignoring_step
ignore_from s [] = []
ignore_from s (b ∷ bytes) = let (out, s') = ignoring_step s b in emit out (ignore_from s' bytes)

-- `bytes.decode("utf-8", "ignore")`
unfoldable pub decode_ignore : List ℕ → Text
unfolding ignore_from
decode_ignore = ignore_from idle
