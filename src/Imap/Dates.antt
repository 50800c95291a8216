-- ===== src/Imap/Dates.antt =====
-- The dates of a search: `_iso_to_imap_date` and `_iso_to_imap_before`, with what Python's `date`
-- does of a text in the form YYYY-MM-DD.
use apple_mail_fast_mcp.Base.{
  ℕ, zero, suc, ◌+◌, ◌*◌, ◌-◌, ◌/◌, ◌%◌, Bool, not, ◌&&◌, ◌||◌, Option, none, some, List, [], ◌∷◌,
  ◌++◌, leb, ltb, ◌==◌, if◌then◌else◌,
}
use apple_mail_fast_mcp.Text.{Text, codes}
use apple_mail_fast_mcp.Imap.{value_error, overflow_error, Reply, value, error}
use apple_mail_fast_mcp.Junk.Cleaner.{decimal}

pub record Date : Type 0 where
  pub year : ℕ
  pub month : ℕ
  pub day : ℕ

unfoldable pub is_leap : ℕ → Bool
is_leap y = y % 4 == 0 && (not (y % 100 == 0) || y % 400 == 0)

unfoldable pub days_in_month : ℕ → ℕ → ℕ
unfolding is_leap
days_in_month y m =
    if m == 2
    then if is_leap y then 29 else 28
    else if m == 4 || m == 6 || m == 9 || m == 11
    then 30
    else 31

-- What `date` accepts
unfoldable pub is_date : Date → Bool
unfolding days_in_month
is_date d =
    leb 1 d.year
    && leb d.year 9999
    && leb 1 d.month
    && leb d.month 12
    && leb 1 d.day
    && leb d.day (days_in_month d.year d.month)

infixl 5 ◌>>=◌
abbrev ◌>>=◌ : {A B : Type 0} → Option A → (A → Option B) → Option B
none >>= f = none
some a >>= f = f a

abbrev pub is_digit : ℕ → Bool
is_digit c = leb b'0' c && leb c b'9'

-- Reads as many digits as the first number says, and goes on from the second.
unfoldable pub read_digits : ℕ → ℕ → Text → Option (ℕ × Text)
read_digits zero n s = some (n, s)
read_digits (suc k) n [] = none
read_digits (suc k) n (c ∷ s) = if is_digit c then read_digits k (n * 10 + (c - b'0')) s else none

unfoldable pub read_dash : Text → Option Text
read_dash [] = none
read_dash (c ∷ s) = if c == b'-' then some s else none

abbrev pub at_end : Date → Text → Option Date
at_end d [] = some d
at_end d (c ∷ s) = none

-- The three numbers of YYYY-MM-DD
unfoldable pub read_fields : Text → Option Date
unfolding read_digits read_dash
read_fields s = do
  (y, after_year) ← read_digits 4 0 s
  month_text ← read_dash after_year
  (m, after_month) ← read_digits 2 0 month_text
  day_text ← read_dash after_month
  (d, rest) ← read_digits 2 0 day_text
  at_end (record { year = y; month = m; day = d }) rest

unfoldable pub check_date : Option Date → Option Date
unfolding is_date
check_date none = none
check_date (some d) = if is_date d then some d else none

-- `date.fromisoformat` on what `_ISO_DATE_RE` lets through; `none` is a ValueError. A digit outside
-- ASCII and a line feed at the end, which the expression lets through, are refused here.
unfoldable pub read_date : Text → Option Date
unfolding check_date read_fields
read_date s = check_date (read_fields s)

abbrev pub imap_months : List Text
imap_months =
    codes "Jan"
    ∷ codes "Feb"
    ∷ codes "Mar"
    ∷ codes "Apr"
    ∷ codes "May"
    ∷ codes "Jun"
    ∷ codes "Jul"
    ∷ codes "Aug"
    ∷ codes "Sep"
    ∷ codes "Oct"
    ∷ codes "Nov"
    ∷ codes "Dec"
    ∷ []

unfoldable pub month_at : List Text → ℕ → Text
month_at [] n = []
month_at (m ∷ ms) zero = m
month_at (m ∷ ms) (suc n) = month_at ms n

-- The f-string of both functions
unfoldable pub imap_date : Date → Text
unfolding month_at
imap_date d =
    (b'0' + d.day / 10) ∷ (b'0' + d.day % 10) ∷ b'-' ∷ month_at imap_months (d.month - 1)
    ++ b'-' ∷ decimal d.year

-- `_iso_to_imap_date`
unfoldable pub iso_to_imap_date : Text → Reply Text
unfolding read_date imap_date
iso_to_imap_date iso = elim (read_date iso) [
  | none ↦ error value_error
  | some d ↦ value (imap_date d)
]

-- `date + timedelta(days=1)`; `none` is an OverflowError
unfoldable pub next_day : Date → Option Date
unfolding days_in_month
next_day d =
    if ltb d.day (days_in_month d.year d.month)
    then some (record d { day = d.day + 1 })
    else if ltb d.month 12
    then some (record d { month = d.month + 1; day = 1 })
    else if ltb d.year 9999
    then some (record { year = d.year + 1; month = 1; day = 1 })
    else none

-- `_iso_to_imap_before`
unfoldable pub iso_to_imap_before : Text → Reply Text
unfolding read_date imap_date next_day
iso_to_imap_before iso = elim (read_date iso) [
  | none ↦ error value_error
  | some d ↦ elim (next_day d) [ none ↦ error overflow_error | some e ↦ value (imap_date e) ]
]
