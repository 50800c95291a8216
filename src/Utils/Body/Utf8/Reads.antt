-- ===== src/Utils/Body/Utf8/Reads.antt =====
-- The decoders read back what the encoder writes, and drop a code point that is cut short.
use mathlib.Core.Option
use apple_mail_fast_mcp.Base.{
  ℕ, zero, suc, ◌+◌, ◌-◌, ◌*◌, ◌/◌, ◌%◌, ◌≤◌, ◌<◌, ◌≡◌, refl, ◌∙◌, inl, inr, false, Option, none,
  some, List, [], ◌∷◌, ◌++◌, arith, ltb, lt→ltb, le→ltb_false, ◌==◌, length, take, Bool-cases,
}
use apple_mail_fast_mcp.Text.{Text}
use apple_mail_fast_mcp.Utils.Body.Utf8.{
  is_surrogate, encode_char, State, idle, pending, step, emit, decode_from, ignoring_step,
  ignore_from,
}

-- The bytes take the decoder from one state to another, and the last of them yields `out`.
pub data Reads : State → List ℕ → Option ℕ → State → Type 0 where
  last :
      {s s' : State} {out : Option ℕ} (b : ℕ) → step s b ≡ some (out, s') → Reads s (b ∷ []) out s'
  more :
      {s t s' : State} {bytes : List ℕ} {out : Option ℕ} (b : ℕ)
      → step s b ≡ some (none, t)
      → Reads t bytes out s'
      → Reads s (b ∷ bytes) out s'

-- A scalar value: what a text holds once it has been coerced.
pub record IsScalar (c : ℕ) : Type 0 where
  pub in_range : c ≤ 0x10ffff
  pub no_surrogate : is_surrogate c ≡ false

continuation :
    (k v low high b : ℕ)
    → low ≤ b
    → b ≤ high
    → step (pending (suc (suc k)) v low high) b
      ≡ some (none, pending (suc k) (v * 64 + (b - 0x80)) 0x80 0xbf)
unfolding step
continuation k v low high b h h' = ground arith

final :
    (v low high b : ℕ)
    → low ≤ b
    → b ≤ high
    → step (pending 1 v low high) b ≡ some (some (v * 64 + (b - 0x80)), idle)
unfolding step
final v low high b h h' = ground arith

-- The first byte leaves the range of the second, which the second meets.
record Lead (b k v second : ℕ) : Type 0 where
  low : ℕ
  high : ℕ
  starts : step idle b ≡ some (none, pending k v low high)
  above : low ≤ second
  below : second ≤ high

Lead-two : (c : ℕ) → 0x80 ≤ c → c < 0x800 → Lead (0xc0 + c / 64) 1 (c / 64) (0x80 + c % 64)
unfolding step
Lead-two c h h' = record {
  low = 0x80;
  high = 0xbf;
  starts = ground arith;
  above = omega arith;
  below = omega arith;
}

Lead-three :
    (c : ℕ)
    → 0x800 ≤ c
    → c < 0x10000
    → is_surrogate c ≡ false
    → Lead (0xe0 + c / 4096) 2 (c / 4096) (0x80 + (c / 64) % 64)
unfolding step
Lead-three c h h' s = elim (Bool-cases (c / 4096 == 0)) [
  | inl e ↦ record {
    low = 0xa0;
    high = 0xbf;
    starts = ground arith;
    above = ground arith;
    below = omega arith;
  }
  | inr n ↦ elim (Bool-cases (c / 4096 == 13)) [
    | inl e ↦ record {
      low = 0x80;
      high = 0x9f;
      starts = ground arith;
      above = omega arith;
      below = ground arith;
    }
    | inr m ↦ record {
      low = 0x80;
      high = 0xbf;
      starts = ground arith;
      above = omega arith;
      below = omega arith;
    }
  ]
]

Lead-four :
    (c : ℕ)
    → 0x10000 ≤ c
    → c ≤ 0x10ffff
    → Lead (0xf0 + c / 262144) 3 (c / 262144) (0x80 + (c / 4096) % 64)
unfolding step
Lead-four c h h' = elim (Bool-cases (c / 262144 == 0)) [
  | inl e ↦ record {
    low = 0x90;
    high = 0xbf;
    starts = ground arith;
    above = ground arith;
    below = omega arith;
  }
  | inr n ↦ elim (Bool-cases (c / 262144 == 4)) [
    | inl e ↦ record {
      low = 0x80;
      high = 0x8f;
      starts = ground arith;
      above = omega arith;
      below = ground arith;
    }
    | inr m ↦ record {
      low = 0x80;
      high = 0xbf;
      starts = ground arith;
      above = omega arith;
      below = omega arith;
    }
  ]
]

Reads-out :
    {s s' : State} {bytes : List ℕ} {a b : ℕ}
    → a ≡ b
    → Reads s bytes (some a) s'
    → Reads s bytes (some b) s'
Reads-out p r = rw (← p) r

two_bytes : (c : ℕ) → 0x80 ≤ c → c < 0x800 → Reads idle (encode_char c) (some c) idle
unfolding encode_char
two_bytes c h h' =
    let l = Lead-two c h h' in
    rw (le→ltb_false c 0x80 h, lt→ltb c 0x800 h')
      (more _ l.starts (Reads-out (omega arith) (last _ (final _ l.low l.high _ l.above l.below))))

three_bytes :
    (c : ℕ)
    → 0x800 ≤ c
    → c < 0x10000
    → is_surrogate c ≡ false
    → Reads idle (encode_char c) (some c) idle
unfolding encode_char
three_bytes c h h' s =
    let l = Lead-three c h h' s in
    rw (le→ltb_false c 0x80 (omega arith), le→ltb_false c 0x800 h, lt→ltb c 0x10000 h')
      (more _ l.starts (
        more _ (continuation 0 _ l.low l.high _ l.above l.below)
          (Reads-out (omega arith) (last _ (final _ 0x80 0xbf _ (omega arith) (omega arith))))))

four_bytes : (c : ℕ) → 0x10000 ≤ c → c ≤ 0x10ffff → Reads idle (encode_char c) (some c) idle
unfolding encode_char
four_bytes c h h' =
    let l = Lead-four c h h' in
    rw
      (
        le→ltb_false c 0x80 (omega arith),
        le→ltb_false c 0x800 (omega arith),
        le→ltb_false c 0x10000 h,
      )
      (more _ l.starts (
        more _ (continuation 1 _ l.low l.high _ l.above l.below) (
          more _ (continuation 0 _ 0x80 0xbf _ (omega arith) (omega arith))
            (Reads-out (omega arith) (last _ (final _ 0x80 0xbf _ (omega arith) (omega arith)))))))

one_byte : (c : ℕ) → c < 0x80 → Reads idle (encode_char c) (some c) idle
unfolding encode_char step
one_byte c h = rw (lt→ltb c 0x80 h) (last c (ground arith))

-- The bytes of a scalar value take the decoder from one code point to the next, and yield it.
pub encode_char-Reads : (c : ℕ) → IsScalar c → Reads idle (encode_char c) (some c) idle
encode_char-Reads c v = elim (Bool-cases (ltb c 0x80)) [
  | inl a ↦ one_byte c (ground arith)
  | inr a ↦ elim (Bool-cases (ltb c 0x800)) [
    | inl b ↦ two_bytes c (ground arith) (ground arith)
    | inr b ↦ elim (Bool-cases (ltb c 0x10000)) [
      | inl d ↦ three_bytes c (ground arith) (ground arith) v.no_surrogate
      | inr d ↦ four_bytes c (ground arith) v.in_range
    ]
  ]
]

decode_from-step :
    (s s' : State) (b : ℕ) (out : Option ℕ) (rest : List ℕ)
    → step s b ≡ some (out, s')
    → decode_from s (b ∷ rest) ≡ Option.map (emit out) (decode_from s' rest)
unfolding decode_from
decode_from-step idle s' b out rest e = rw (e, decode_from) (cases (decode_from s' rest))
  where
    cases :
        (o : Option Text)
        → elim o [ none ↦ none | some text ↦ some (emit out text) ] ≡ Option.map (emit out) o
    cases none = refl
    cases (some text) = refl
decode_from-step (pending k v l h) s' b out rest e =
    rw (e, decode_from) (cases (decode_from s' rest))
  where
    cases :
        (o : Option Text)
        → elim o [ none ↦ none | some text ↦ some (emit out text) ] ≡ Option.map (emit out) o
    cases none = refl
    cases (some text) = refl

-- What the strict decoder makes of such bytes and of those behind them.
pub decode_from-Reads :
    {s s' : State} {bytes : List ℕ} {out : Option ℕ} (rest : List ℕ)
    → Reads s bytes out s'
    → decode_from s (bytes ++ rest) ≡ Option.map (emit out) (decode_from s' rest)
decode_from-Reads rest (last b e) = decode_from-step _ _ b _ rest e
decode_from-Reads rest (more {s' = s'} {bytes = bytes} {out = out} b e r) =
    decode_from-step _ _ b none (bytes ++ rest) e
    ∙ rw (decode_from-Reads rest r) (map-map (decode_from s' rest))
  where
    map-map :
        (o : Option Text)
        → Option.map (emit none) (Option.map (emit out) o) ≡ Option.map (emit out) o
    map-map none = refl
    map-map (some text) = refl

-- The lenient decoder reads them alike.
pub ignore_from-Reads :
    {s s' : State} {bytes : List ℕ} {out : Option ℕ} (rest : List ℕ)
    → Reads s bytes out s'
    → ignore_from s (bytes ++ rest) ≡ emit out (ignore_from s' rest)
unfolding ignore_from
ignore_from-Reads rest (last b e) = rw (e, ignoring_step) refl
ignore_from-Reads rest (more b e r) = rw (e, ignoring_step) (ignore_from-Reads rest r)

-- Where the bytes break off, the lenient decoder yields nothing.
pub ignore_from-cut :
    {s s' : State} {bytes : List ℕ} {out : Option ℕ} (n : ℕ)
    → Reads s bytes out s'
    → n < length bytes
    → ignore_from s (take n bytes) ≡ []
unfolding ignore_from
ignore_from-cut zero (last b e) h = refl
ignore_from-cut zero (more b e r) h = refl
ignore_from-cut (suc n) (last b e) h = absurd (omega arith)
ignore_from-cut (suc n) (more b e r) h = rw (e, ignoring_step) (ignore_from-cut n r (omega arith))
