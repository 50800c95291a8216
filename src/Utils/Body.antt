-- ===== src/Utils/Body.antt =====
-- `make_body_safe` of utils.py, with UTF-8 as Python encodes and decodes it. A text is the list of
-- its code points, a `bytes` object the list of its bytes.
pub mod Utf8
pub mod Fit
pub mod Safe
use apple_mail_fast_mcp.Base.{
  ℕ, Bool, true, false, ◌&&◌, ◌||◌, not, Option, none, some, List, [], ◌∷◌, ◌++◌, leb, is_empty,
  length, take, keep, if◌then◌else◌,
}
use apple_mail_fast_mcp.Text.{Text}
use apple_mail_fast_mcp.Utils.Body.Utf8.{encode, encode_replace, decode, decode_ignore}

infixl 5 ◌>>=◌
abbrev ◌>>=◌ : {A B : Type 0} → Option A → (A → Option B) → Option B
none >>= f = none
some a >>= f = f a

-- `_C0_CONTROL_RE`
unfoldable pub is_c0_control : ℕ → Bool
is_c0_control c = leb c 8 || (leb 11 c && leb c 12) || (leb 14 c && leb c 31)

-- The body, whether it was cut, and the byte length before that; `none` is a Unicode error.
unfoldable pub make_body_safe : Text → ℕ → Option (Text × Bool × ℕ)
unfolding is_c0_control
make_body_safe [] max_bytes = some ([], false, 0)
make_body_safe (c ∷ content) max_bytes = do
  coerced ← decode (encode_replace (c ∷ content))
  let scrubbed = keep (λ d. not (is_c0_control d)) coerced
  encoded ← encode scrubbed
  let original_bytes = length encoded
  some (
      if leb original_bytes max_bytes
      then (scrubbed, false, original_bytes)
      else (decode_ignore (take max_bytes encoded), true, original_bytes))
