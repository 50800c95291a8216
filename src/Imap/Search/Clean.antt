-- ===== src/Imap/Search/Clean.antt =====
-- No control character gets into the criteria of a search, nor into an id.
use apple_mail_fast_mcp.Base.{
  ℕ, zero, suc, ◌+◌, ◌/◌, ◌%◌, ◌≤◌, ◌≡◌, refl, sym, inl, inr, Bool, true, false, ◌||◌, none, some,
  List, Option, [], ◌∷◌, ◌++◌, ltb, arith, All, All-append, Bool-cases, Option-cases,
}
use apple_mail_fast_mcp.Text.{Text, codes}
use apple_mail_fast_mcp.Imap.{Reply, value, error, Reply-cases}
use apple_mail_fast_mcp.Imap.Dates.{
  Date, is_date, days_in_month, is_leap, read_fields, check_date, read_date, month_at, imap_months,
  imap_date, iso_to_imap_date, next_day, iso_to_imap_before,
}
use apple_mail_fast_mcp.Imap.Search.{
  is_control, has_control, Filters, text_terms, flag_terms, date_terms, extend, or_all,
  search_terms, build_search_criteria,
}
use apple_mail_fast_mcp.Junk.Cleaner.{digits}

-- A text that can stand in a command
abbrev pub IsClean : Text → Type 0
IsClean s = has_control s ≡ false

pub has_control-append : (s t : Text) → has_control (s ++ t) ≡ (has_control s || has_control t)
unfolding has_control
has_control-append [] t = refl
has_control-append (c ∷ s) t = ground (arith, has_control-append s t)

pub append-IsClean : (s t : Text) → IsClean s → IsClean t → IsClean (s ++ t)
append-IsClean s t h k = rw (has_control-append s t, h, k) refl

-- A code point between the controls and DEL
cons-IsClean : (c : ℕ) (s : Text) → 32 ≤ c → c ≤ 126 → IsClean s → IsClean (c ∷ s)
unfolding has_control is_control
cons-IsClean c s l u h = ground arith

digits-IsClean : (fuel n : ℕ) → IsClean (digits fuel n)
unfolding has_control
digits-IsClean zero n = refl
digits-IsClean (suc fuel) n = elim (Bool-cases (ltb n 10)) [
  | inl small ↦ rw small (cons-IsClean (b'0' + n) [] (omega arith) (ground arith) refl)
  | inr large ↦ rw large (
      append-IsClean (digits fuel (n / 10)) ((b'0' + n % 10) ∷ []) (digits-IsClean fuel (n / 10))
        (cons-IsClean (b'0' + n % 10) [] (omega arith) (omega arith) refl))
]

month_at-IsClean : (ms : List Text) (n : ℕ) → All IsClean ms → IsClean (month_at ms n)
unfolding month_at has_control
month_at-IsClean [] n h = refl
month_at-IsClean (m ∷ ms) zero h = h.0
month_at-IsClean (m ∷ ms) (suc n) h = month_at-IsClean ms n h.1

months-IsClean : All IsClean imap_months
unfolding has_control is_control
months-IsClean = ground arith

imap_date-IsClean : (d : Date) → d.day ≤ 31 → IsClean (imap_date d)
unfolding imap_date
imap_date-IsClean d h = cons-IsClean (b'0' + d.day / 10) _ (omega arith) (omega arith) (
    cons-IsClean (b'0' + d.day % 10) _ (omega arith) (omega arith) (
      cons-IsClean b'-' _ (omega arith) (omega arith) (
        append-IsClean (month_at imap_months _) _ (month_at-IsClean imap_months _ months-IsClean)
          (cons-IsClean b'-' _ (omega arith) (omega arith) (digits-IsClean (suc d.year) d.year)))))

-- What a date that was read, and the day after it, keep of the calendar
day_bound : (y m : ℕ) → days_in_month y m ≤ 31
unfolding days_in_month is_leap
day_bound y m = ground arith

check_date-IsDate : (o : Option Date) (d : Date) → check_date o ≡ some d → is_date d ≡ true
unfolding check_date
check_date-IsDate none d q = cc
check_date-IsDate (some e) d q = ground arith

read_date-IsDate : (s : Text) (d : Date) → read_date s ≡ some d → is_date d ≡ true
unfolding read_date
read_date-IsDate s d q = check_date-IsDate (read_fields s) d q

is_date-day : (d : Date) → is_date d ≡ true → d.day ≤ 31
unfolding is_date
is_date-day d h = ground (arith, day_bound d.year d.month)

next_day-day : (d e : Date) → is_date d ≡ true → next_day d ≡ some e → e.day ≤ 31
unfolding next_day
next_day-day d e h q = ground (arith, day_bound d.year d.month, is_date-day d h)

date_terms-IsClean :
    (key : Text) (read : Text → Reply Text) (o : Option Text) (ts : List Text)
    → IsClean key
    → ((s t : Text) → read s ≡ value t → IsClean t)
    → date_terms key read o ≡ value ts
    → All IsClean ts
unfolding date_terms
date_terms-IsClean key read none ts k h q = ground arith
date_terms-IsClean key read (some iso) ts k h q = elim (Reply-cases (read iso)) [
  | inl (t, e) ↦ ground (arith, e, h iso t e)
  | inr (x, e) ↦ ground (arith, e)
]

iso_to_imap_date-IsClean : (s t : Text) → iso_to_imap_date s ≡ value t → IsClean t
unfolding iso_to_imap_date
iso_to_imap_date-IsClean s t q = elim (Option-cases (read_date s)) [
  | inl e ↦ ground (arith, e)
  | inr (d, e) ↦ ground (arith, e, imap_date-IsClean d (is_date-day d (read_date-IsDate s d e)))
]

iso_to_imap_before-IsClean : (s t : Text) → iso_to_imap_before s ≡ value t → IsClean t
unfolding iso_to_imap_before
iso_to_imap_before-IsClean s t q = elim (Option-cases (read_date s)) [
  | inl e ↦ ground (arith, e)
  | inr (d, e) ↦ elim (Option-cases (next_day d)) [
    | inl f ↦ ground (arith, e, f)
    | inr (d', f) ↦
        ground (arith, e, f, imap_date-IsClean d' (next_day-day d d' (read_date-IsDate s d e) f))
  ]
]

text_terms-IsClean :
    (key : Text) (o : Option Text) (ts : List Text)
    → IsClean key
    → text_terms key o ≡ value ts
    → All IsClean ts
unfolding text_terms
text_terms-IsClean key none ts k q = ground arith
text_terms-IsClean key (some []) ts k q = ground arith
text_terms-IsClean key (some (c ∷ s)) ts k q = ground arith

flag_terms-IsClean :
    (key other : Text) (o : Option Bool)
    → IsClean key
    → IsClean other
    → All IsClean (flag_terms key other o)
unfolding flag_terms
flag_terms-IsClean key other none k l = tt
flag_terms-IsClean key other (some true) k l = (k, tt)
flag_terms-IsClean key other (some false) k l = (l, tt)

from_key : IsClean (codes "FROM")
unfolding has_control is_control
from_key = refl

subject_key : IsClean (codes "SUBJECT")
unfolding has_control is_control
subject_key = refl

seen_key : IsClean (codes "SEEN")
unfolding has_control is_control
seen_key = refl

unseen_key : IsClean (codes "UNSEEN")
unfolding has_control is_control
unseen_key = refl

flagged_key : IsClean (codes "FLAGGED")
unfolding has_control is_control
flagged_key = refl

unflagged_key : IsClean (codes "UNFLAGGED")
unfolding has_control is_control
unflagged_key = refl

since_key : IsClean (codes "SINCE")
unfolding has_control is_control
since_key = refl

before_key : IsClean (codes "BEFORE")
unfolding has_control is_control
before_key = refl

body_key : IsClean (codes "BODY")
unfolding has_control is_control
body_key = refl

text_key : IsClean (codes "TEXT")
unfolding has_control is_control
text_key = refl

value-inj : (xs ys : List Text) → value xs ≡ value ys → xs ≡ ys
value-inj xs ys e = ground arith

-- A reply whose terms, if it has any, are clean
abbrev AreClean : Reply (List Text) → Type 0
AreClean r = (ts : List Text) → r ≡ value ts → All IsClean ts

flags-AreClean :
    (key other : Text) (o : Option Bool)
    → IsClean key
    → IsClean other
    → AreClean (value (flag_terms key other o))
flags-AreClean key other o k l ts e =
    rw (sym (value-inj (flag_terms key other o) ts e)) (flag_terms-IsClean key other o k l)

extend-AreClean : (r q : Reply (List Text)) → AreClean r → AreClean q → AreClean (extend r q)
extend-AreClean (value xs) (value ys) h k ts e =
    rw (sym (value-inj (xs ++ ys) ts e)) (All-append IsClean xs ys (h xs refl) (k ys refl))
extend-AreClean (value xs) (error x) h k ts e = cc
extend-AreClean (error x) q h k ts e = cc

or_all-AreClean : (r : Reply (List Text)) → AreClean r → AreClean (or_all r)
unfolding has_control is_control
or_all-AreClean (value []) h ts e = ground arith
or_all-AreClean (value (t ∷ us)) h ts e = h ts e
or_all-AreClean (error x) h ts e = cc

criteria-AreClean : (f : Filters) → AreClean (build_search_criteria f)
unfolding build_search_criteria search_terms
criteria-AreClean f = or_all-AreClean _ (
    extend-AreClean _ _ (λ ts. text_terms-IsClean (codes "FROM") f.sender_contains ts from_key)
      (extend-AreClean _ _
        (λ ts. text_terms-IsClean (codes "SUBJECT") f.subject_contains ts subject_key)
        (extend-AreClean _ _
          (flags-AreClean (codes "SEEN") (codes "UNSEEN") f.read_status seen_key unseen_key)
          (extend-AreClean _ _
            (flags-AreClean (codes "FLAGGED") (codes "UNFLAGGED") f.is_flagged flagged_key
              unflagged_key)
            (extend-AreClean _ _
              (λ ts.
                date_terms-IsClean (codes "SINCE") iso_to_imap_date f.date_from ts since_key
                  iso_to_imap_date-IsClean)
              (extend-AreClean _ _
                (λ ts.
                  date_terms-IsClean (codes "BEFORE") iso_to_imap_before f.date_to ts before_key
                    iso_to_imap_before-IsClean)
                (extend-AreClean _ _
                  (λ ts. text_terms-IsClean (codes "BODY") f.body_contains ts body_key)
                  (λ ts. text_terms-IsClean (codes "TEXT") f.text_contains ts text_key))))))))

-- A filter by text that is not given, or has no control character
abbrev pub IsCleanFilter : Option Text → Type 0
IsCleanFilter none = Unit
IsCleanFilter (some s) = IsClean s

text_terms-IsCleanFilter :
    (key : Text) (o : Option Text) (ts : List Text) → text_terms key o ≡ value ts → IsCleanFilter o
unfolding text_terms has_control
text_terms-IsCleanFilter key none ts q = tt
text_terms-IsCleanFilter key (some []) ts q = refl
text_terms-IsCleanFilter key (some (c ∷ s)) ts q = ground arith

-- Terms that are there only where something holds
abbrev Needs : Type 0 → Reply (List Text) → Type 0
Needs C r = (ts : List Text) → r ≡ value ts → C

record Both (C D : Type 0) : Type 0 where
  first : C
  second : D

extend-Needs :
    (C D : Type 0) (r q : Reply (List Text)) → Needs C r → Needs D q → Needs (Both C D) (extend r q)
extend-Needs C D (value xs) (value ys) h k ts e = record { first = h xs refl; second = k ys refl }
extend-Needs C D (value xs) (error x) h k ts e = cc
extend-Needs C D (error x) q h k ts e = cc

-- Terms that ask nothing of the text filters
skip : (D : Type 0) (r q : Reply (List Text)) → Needs D q → Needs D (extend r q)
skip D (value xs) (value ys) k ts e = k ys refl
skip D (value xs) (error x) k ts e = cc
skip D (error x) q k ts e = cc

or_all-Needs : (C : Type 0) (r : Reply (List Text)) → Needs C r → Needs C (or_all r)
or_all-Needs C (value ts) h us e = h ts refl
or_all-Needs C (error x) h us e = cc

-- The four filters by text
pub record HasCleanFilters (f : Filters) : Type 0 where
  pub sender : IsCleanFilter f.sender_contains
  pub subject : IsCleanFilter f.subject_contains
  pub body : IsCleanFilter f.body_contains
  pub text : IsCleanFilter f.text_contains

-- The criteria of a search, whatever the filters, hold no text with a control character: none of the
-- words that the search sends can end the command early. There are criteria only where none of the
-- filters by text has one; otherwise the search is refused.
pub build_search_criteria-IsClean :
    (f : Filters) (ts : List Text)
    → build_search_criteria f ≡ value ts
    → All IsClean ts × HasCleanFilters f
unfolding build_search_criteria search_terms
build_search_criteria-IsClean f ts e =
    let filters =
      or_all-Needs _ (search_terms f)
        (extend-Needs _ _ _ _ (text_terms-IsCleanFilter (codes "FROM") f.sender_contains) (
          extend-Needs _ _ _ _ (text_terms-IsCleanFilter (codes "SUBJECT") f.subject_contains) (
            skip _ (value (flag_terms (codes "SEEN") (codes "UNSEEN") f.read_status)) _ (
              skip _ (value (flag_terms (codes "FLAGGED") (codes "UNFLAGGED") f.is_flagged)) _ (
                skip _ (date_terms (codes "SINCE") iso_to_imap_date f.date_from) _ (
                  skip _ (date_terms (codes "BEFORE") iso_to_imap_before f.date_to) _ (
                    extend-Needs _ _ _ _ (text_terms-IsCleanFilter (codes "BODY") f.body_contains)
                      (text_terms-IsCleanFilter (codes "TEXT") f.text_contains))))))))
        ts e in
    (
      criteria-AreClean f ts e,
      record {
        sender = filters.first;
        subject = filters.second.first;
        body = filters.second.second.first;
        text = filters.second.second.second;
      },
    )
