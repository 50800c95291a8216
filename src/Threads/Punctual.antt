-- ===== src/Threads/Punctual.antt =====
-- A read of the folders without errors and exits looked at the clock once for each folder and each
-- message, and never past the deadline.
use apple_mail_fast_mcp.Base.{
  ℕ, suc, ◌≤◌, ◌<◌, ◌+◌, ◌==◌, ltb, leb, ◌≡◌, refl, ap, ◌∙◌, sym, inl, inr, Bool, true, false,
  Option, none, some, List, [], ◌∷◌, arith, length, length-append, if◌then◌else◌, Bool-cases,
}
use apple_mail_fast_mcp.Text.{Text}
use apple_mail_fast_mcp.Utils.Thread.{Candidate}
use apple_mail_fast_mcp.Threads.Script.{
  Hits, Clock, Reading, stopped, finish_folder, read_message, read_messages, read_folder,
  read_folders,
}
use apple_mail_fast_mcp.Threads.Clean.{
  clean, is_empty-snoc, finish_folder-keeps, late-clean, full-clean, stopped-clean, guarded,
  read_messages-clean, read_folders-clean,
}

-- Between two numbers of looks the clock was never past the deadline.
abbrev pub Punctual : Clock → ℕ → ℕ → Type 0
Punctual late from to = (n : ℕ) → from ≤ n → n < to → late n ≡ false

first-Punctual :
    (late : Clock) (from to : ℕ)
    → late from ≡ false
    → Punctual late (suc from) to
    → Punctual late from to
first-Punctual late from to p h n l u = elim (Bool-cases (n == from)) [
  | inl e ↦ let same : n ≡ from = ground arith in rw same p
  | inr e ↦ h n (ground arith) u
]

append-Punctual :
    (late : Clock) (a b c : ℕ) → Punctual late a b → Punctual late b c → Punctual late a c
append-Punctual late a b c h k n l u = elim (Bool-cases (ltb n b)) [
  | inl e ↦ h n l (ground arith)
  | inr e ↦ k n (ground arith) u
]

-- Where the result is clean, the first exit was not taken.
guarded-first :
    (p q : Bool) (a b x : Reading)
    → clean a ≡ false
    → clean (if p then a else if q then b else x) ≡ true
    → p ≡ false
guarded-first true q a b x ha h = cc
guarded-first false q a b x ha h = refl

read_message-looks :
    (folder : Text) (m : Option Candidate) (r : Reading) → (read_message folder m r).looks ≡ r.looks
unfolding read_message
read_message-looks folder none r = refl
read_message-looks folder (some row) r = refl

finish_folder-looks : (folder : Text) (r : Reading) → (finish_folder folder r).looks ≡ r.looks
finish_folder-looks folder r = ground arith

read_message-count :
    (folder : Text) (m : Option Candidate) (r : Reading)
    → clean (read_message folder m r) ≡ true
    → length (read_message folder m r).rows ≡ suc (length r.rows)
unfolding read_message
read_message-count folder none r h = let no = is_empty-snoc folder r.errors in ground arith
read_message-count folder (some row) r h = let both = length-append r.rows (row ∷ []) in omega arith

-- From `a` to `b` with some folders: a look for each of them and for each row that came, all in time
pub record IsPunctual (late : Clock) (a b : Reading) (folders : ℕ) : Type 0 where
  pub looks_count : b.looks + length a.rows ≡ a.looks + folders + length b.rows
  pub in_time : Punctual late a.looks b.looks

module _ (late : Clock) (limit : ℕ) where
  read_messages-IsPunctual :
      (folder : Text) (ms : List (Option Candidate)) (r : Reading)
      → clean (read_messages late limit folder ms r) ≡ true
      → IsPunctual late r (read_messages late limit folder ms r) 0
  unfolding read_messages
  read_messages-IsPunctual folder [] r h = record {
    looks_count = omega arith;
    in_time = λ n l u. absurd (omega arith);
  }
  read_messages-IsPunctual folder (m ∷ ms) r h =
      let seen = record r { looks = suc r.looks } in
      let next = read_message folder m seen in
      let rest = read_messages late limit folder ms next in
      let late_exit = record seen { deadline_reached = true } in
      let full_exit = record seen { hit_limit = true } in
      let full = leb limit (length r.rows) in
      let (same, ok) =
        guarded (late r.looks) full late_exit full_exit rest (late-clean seen)
          (λ _. full-clean seen) h in
      let now = guarded-first (late r.looks) full late_exit full_exit rest (late-clean seen) h in
      let before = (read_messages-clean late limit folder ms next ok).0 in
      let more = read_message-count folder m seen before in
      let here = read_message-looks folder m seen in
      let after = read_messages-IsPunctual folder ms next ok in
      let looks = ap (λ x. x.looks) same in
      let rows = ap (λ x. length x.rows) same in
      let count = after.looks_count in
      record {
        looks_count = omega arith;
        in_time =
            first-Punctual late r.looks _ now
              (λ n l u. after.in_time n (omega arith) (omega arith));
      }

  read_folder-IsPunctual :
      (folder : Text) (found : Hits) (r : Reading)
      → clean (read_folder late limit folder found r) ≡ true
      → IsPunctual late r (read_folder late limit folder found r) 0
  unfolding read_folder
  read_folder-IsPunctual folder none r h = let no = is_empty-snoc folder r.errors in ground arith
  read_folder-IsPunctual folder (some ms) r h =
      let read = read_messages late limit folder ms r in
      let (as_clean, kept) = finish_folder-keeps folder (stopped read) read in
      let after = read_messages-IsPunctual folder ms r (sym as_clean ∙ h) in
      let looks = finish_folder-looks folder read in
      let rows : length (finish_folder folder read).rows ≡ length read.rows = ap length kept in
      let count = after.looks_count in
      record { looks_count = omega arith; in_time = λ n l u. after.in_time n l (omega arith) }

  pub read_folders-IsPunctual :
      (hits : Text → Hits) (fs : List Text) (r : Reading)
      → clean (read_folders late limit hits fs r) ≡ true
      → IsPunctual late r (read_folders late limit hits fs r) (length fs)
  unfolding read_folders
  read_folders-IsPunctual hits [] r h = record {
    looks_count = omega arith;
    in_time = λ n l u. absurd (omega arith);
  }
  read_folders-IsPunctual hits (f ∷ fs) r h =
      let seen = record r { looks = suc r.looks } in
      let after = read_folder late limit f (hits f) seen in
      let rest = read_folders late limit hits fs after in
      let late_exit = record seen { deadline_reached = true } in
      let (same, ok) =
        guarded (late r.looks) (stopped after) late_exit after rest (late-clean seen)
          (stopped-clean after) h in
      let now =
        guarded-first (late r.looks) (stopped after) late_exit after rest (late-clean seen) h in
      let folder_ok = (read_folders-clean late limit hits fs after ok).2 in
      let one = read_folder-IsPunctual f (hits f) seen folder_ok in
      let others = read_folders-IsPunctual hits fs after ok in
      let looks = ap (λ x. x.looks) same in
      let rows = ap (λ x. length x.rows) same in
      let count = one.looks_count in
      let counts = others.looks_count in
      record {
        looks_count = omega arith;
        in_time = first-Punctual late r.looks _ now (
            append-Punctual late (suc r.looks) after.looks _ one.in_time
              (λ n l u. others.in_time n l (omega arith)));
      }
