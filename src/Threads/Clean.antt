-- ===== src/Threads/Clean.antt =====
-- A read of the folders without errors and exits has the messages of all the folders.
use mathlib.Core.List.{append-nil, append_assoc, map-append}
use apple_mail_fast_mcp.Base.{
  ℕ, suc, ◌≡◌, refl, ap, ◌∙◌, sym, Bool, true, false, not, ◌&&◌, Option, none, some, List, [], ◌∷◌,
  ◌++◌, map, arith, leb, length, is_empty, if◌then◌else◌,
}
use apple_mail_fast_mcp.Text.{Text}
use apple_mail_fast_mcp.Utils.Thread.{Candidate}
use apple_mail_fast_mcp.Threads.Script.{
  Hits, Clock, Reading, stopped, read_message, read_messages, read_folder, read_folders,
}

-- No error, and neither exit taken
abbrev pub clean : Reading → Bool
clean r = is_empty r.errors && not r.hit_limit && not r.deadline_reached

abbrev with_hits : Hits → Hits → Hits
with_hits (some ms) (some rest) = some (ms ++ rest)
with_hits _ _ = none

-- The messages of all the folders, in their order, where every folder can be searched.
abbrev pub gather : (Text → Hits) → List Text → Hits
gather hits [] = some []
gather hits (f ∷ fs) = with_hits (hits f) (gather hits fs)

pub is_empty-snoc : (f : Text) (fs : List Text) → is_empty (fs ++ f ∷ []) ≡ false
is_empty-snoc f [] = refl
is_empty-snoc f (g ∷ gs) = refl

and_false : (b : Bool) → (b && false) ≡ false
and_false true = refl
and_false false = refl

pub late-clean : (r : Reading) → clean (record r { deadline_reached = true }) ≡ false
late-clean r = and_false (is_empty r.errors && not r.hit_limit)

pub full-clean : (r : Reading) → clean (record r { hit_limit = true }) ≡ false
full-clean r = ground arith

pub read_message-clean :
    (folder : Text) (m : Option Candidate) (r : Reading)
    → clean (read_message folder m r) ≡ true
    → (clean r ≡ true) × (map some (read_message folder m r).rows ≡ map some r.rows ++ m ∷ [])
unfolding read_message
read_message-clean folder none r h = let no = is_empty-snoc folder r.errors in ground arith
read_message-clean folder (some row) r h = (h, map-append some r.rows (row ∷ []))

-- Where the result is clean, neither exit was taken.
pub guarded :
    (p q : Bool) (a b x : Reading)
    → clean a ≡ false
    → (q ≡ true → clean b ≡ false)
    → clean (if p then a else if q then b else x) ≡ true
    → ((if p then a else if q then b else x) ≡ x) × (clean x ≡ true)
guarded true q a b x ha hb h = cc
guarded false true a b x ha hb h = let no = hb refl in cc
guarded false false a b x ha hb h = (refl, h)

pub stopped-clean : (r : Reading) → stopped r ≡ true → clean r ≡ false
stopped-clean r h = ground arith

pub finish_folder-keeps :
    (folder : Text) (b : Bool) (r : Reading)
    → (clean (if b then r else record r { finished = r.finished ++ folder ∷ [] }) ≡ clean r)
      × ((if b then r else record r { finished = r.finished ++ folder ∷ [] }).rows ≡ r.rows)
finish_folder-keeps folder true r = (refl, refl)
finish_folder-keeps folder false r = (refl, refl)

module _ (late : Clock) (limit : ℕ) where
  pub read_messages-clean :
      (folder : Text) (ms : List (Option Candidate)) (r : Reading)
      → clean (read_messages late limit folder ms r) ≡ true
      → (clean r ≡ true)
        × (map some (read_messages late limit folder ms r).rows ≡ map some r.rows ++ ms)
  unfolding read_messages read_message
  read_messages-clean folder [] r h = (h, sym (append-nil (map some r.rows)))
  read_messages-clean folder (m ∷ ms) r h =
      let seen = record r { looks = suc r.looks } in
      let next = read_message folder m seen in
      let rest = read_messages late limit folder ms next in
      let (same, ok) =
        guarded (late r.looks) (leb limit (length r.rows)) (record seen { deadline_reached = true })
          (record seen { hit_limit = true }) rest (late-clean seen) (λ _. full-clean seen) h in
      let (before, rows) = read_messages-clean folder ms next ok in
      let (first, one) = read_message-clean folder m seen before in
      (
        first,
        ap (λ x. map some x.rows) same
            ∙ rows
            ∙ ap (λ ys. ys ++ ms) one
            ∙ append_assoc (map some r.rows) (m ∷ []) ms,
      )

  -- A folder that left the reading clean was searched, and all of its messages were read.
  pub read_folder-clean :
      (folder : Text) (found : Hits) (r : Reading)
      → clean (read_folder late limit folder found r) ≡ true
      → (ms : List (Option Candidate)) × (found ≡ some ms)
        × (clean r ≡ true)
        × (map some (read_folder late limit folder found r).rows ≡ map some r.rows ++ ms)
  unfolding read_folder
  read_folder-clean folder none r h = let no = is_empty-snoc folder r.errors in ground arith
  read_folder-clean folder (some ms) r h =
      let read = read_messages late limit folder ms r in
      let (as_clean, same) = finish_folder-keeps folder (stopped read) read in
      let (before, rows) = read_messages-clean folder ms r (sym as_clean ∙ h) in
      (ms, refl, before, ap (map some) same ∙ rows)

  pub read_folders-clean :
      (hits : Text → Hits) (fs : List Text) (r : Reading)
      → clean (read_folders late limit hits fs r) ≡ true
      → (ms : List (Option Candidate)) × (gather hits fs ≡ some ms)
        × (clean r ≡ true)
        × (map some (read_folders late limit hits fs r).rows ≡ map some r.rows ++ ms)
  unfolding read_folders
  read_folders-clean hits [] r h = ([], refl, h, sym (append-nil (map some r.rows)))
  read_folders-clean hits (f ∷ fs) r h =
      let seen = record r { looks = suc r.looks } in
      let after = read_folder late limit f (hits f) seen in
      let rest = read_folders late limit hits fs after in
      let (same, ok) =
        guarded (late r.looks) (stopped after) (record seen { deadline_reached = true }) after rest
          (late-clean seen) (stopped-clean after) h in
      let (ms', all, after_ok, rows') = read_folders-clean hits fs after ok in
      let (ms, found, before, rows) = read_folder-clean f (hits f) seen after_ok in
      (
        ms ++ ms',
        ap (λ x. with_hits x (gather hits fs)) found ∙ ap (with_hits (some ms)) all,
        before,
        ap (λ x. map some x.rows) same
            ∙ rows'
            ∙ ap (λ ys. ys ++ ms') rows
            ∙ append_assoc (map some r.rows) ms ms',
      )
