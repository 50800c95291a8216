-- ===== src/Utils/Tests.antt =====
-- The theorems on utils.py at concrete inputs.
use apple_mail_fast_mcp.Base.{
  ℕ, zero, suc, String, ◌≡◌, refl, sym, ap, ◌∙◌, str_eq, eq_iff, inl, inr, Bool, true, false, ◌||◌,
  ◌==◌, none, some, List, [], ◌∷◌, ◌++◌, arith, length, all, is_empty, All,
}
use apple_mail_fast_mcp.Text.{Text, Unicode, codes, has_char, is_space, lstrip, after_last}
use apple_mail_fast_mcp.Text.Strip.{begins_in, ends_in}
use apple_mail_fast_mcp.Utils.Escape.{
  replace_char, split_on, escape_applescript_string, format_applescript_list,
}
use apple_mail_fast_mcp.Utils.Escape.Literal.{
  read_literal, read_list, read_literal-escape, read_list-format,
}
use apple_mail_fast_mcp.Utils.Body.{make_body_safe}
use apple_mail_fast_mcp.Utils.Body.Safe.{IsSafeBody, make_body_safe-IsSafeBody}
use apple_mail_fast_mcp.Utils.Thread.{Candidate, refs, reply_refs, walk_thread_graph}
use apple_mail_fast_mcp.Utils.Thread.Sound.{In, Linked, BelongsTo, walk_thread_graph-BelongsTo}
use apple_mail_fast_mcp.Utils.Thread.Complete.{HasDistinctIds, walk_thread_graph_complete}
use apple_mail_fast_mcp.Utils.Filename.{
  is_dot, is_safe_char, path_name, clean_name, sanitize_filename,
}
use apple_mail_fast_mcp.Utils.Filename.Bounds.{sanitize_filename-safe}
use apple_mail_fast_mcp.Utils.Filename.Limit.{HasRoom}
use apple_mail_fast_mcp.Utils.Subject.{reply_prefixes, strip_reply, normalize_subject}
use apple_mail_fast_mcp.Utils.Subject.Base.{IsStripped, normalize_subject_total}
use apple_mail_fast_mcp.Utils.MessageIds.{parse_rfc822_ids}
use apple_mail_fast_mcp.Utils.MessageIds.Distinct.{IsBareId}
use apple_mail_fast_mcp.Utils.MessageIds.RoundTrip.{header, parse_rfc822_ids-header}
use apple_mail_fast_mcp.Utils.Mailbox.{is_dangerous, sanitize_mailbox_name}
use apple_mail_fast_mcp.Utils.Mailbox.Clean.{is_plain, sanitize_mailbox_name-lacks}
use apple_mail_fast_mcp.Base.{◌&&◌, ltb, keep, if◌then◌else◌}
use apple_mail_fast_mcp.Text.{text_eq}
use apple_mail_fast_mcp.Utils.Senders.{ranked}
use apple_mail_fast_mcp.Utils.Senders.Ranking.{IsRanked, occurrences, ranked-IsRanked}

abbrev ascii : Unicode
ascii = record { lower_at = λ before c after. c ∷ [] }

read_literal-escape_example :
    read_literal (escape_applescript_string (codes "a\"b\\") ++ b'"' ∷ codes " & c")
    ≡ some (codes "a\"b\\", codes " & c")
read_literal-escape_example = read_literal-escape (codes "a\"b\\") (codes " & c")

read_list-format_example :
    read_list 2 (format_applescript_list (codes "a, b" ∷ codes "}\"" ∷ []))
    ≡ some (codes "a, b" ∷ codes "}\"" ∷ [])
read_list-format_example = read_list-format (codes "a, b" ∷ codes "}\"" ∷ [])

-- A lone surrogate, a bell and a letter of two bytes.
abbrev odd_body : Text
odd_body = 0xd800 ∷ 7 ∷ 0xe9 ∷ []

make_body_safe-IsSafeBody_example :
    (answer : Text × Bool × ℕ) × (make_body_safe odd_body 2 ≡ some answer)
    × IsSafeBody odd_body 2 answer
make_body_safe-IsSafeBody_example =
    make_body_safe-IsSafeBody 2 odd_body (omega arith, (omega arith, (omega arith, tt)))

-- A reply to a reply, listed before the message that it answers.
abbrev second_reply : Candidate
second_reply = record {
  id = "2";
  rfc_message_id = "c@x";
  in_reply_to = some "b@x";
  references_parsed = [];
  subject = [];
  date_sort = [];
}

abbrev first_reply : Candidate
first_reply = record {
  id = "1";
  rfc_message_id = "b@x";
  in_reply_to = some "a@x";
  references_parsed = [];
  subject = [];
  date_sort = [];
}

abbrev replies : List Candidate
replies = second_reply ∷ first_reply ∷ []

apart : (s t : String) → s ≡ t → str_eq s t ≡ false → ⊥
apart s t p h = let same = (eq_iff s t).1 p in cc

replies-distinct : HasDistinctIds ("a@x" ∷ []) replies
replies-distinct c d (inl p) (inr (inr i)) e = elim i [ ]
replies-distinct c d (inr (inl p)) (inr (inr i)) e = elim i [ ]
replies-distinct c d (inr (inr i)) _ e = elim i [ ]
replies-distinct c d (inl p) (inl q) e = p ∙ sym q
replies-distinct c d (inl p) (inr (inl q)) e =
    absurd (apart "2" "1" (sym (ap (λ r. r.id) p) ∙ e ∙ ap (λ r. r.id) q) refl)
replies-distinct c d (inr (inl p)) (inl q) e =
    absurd (apart "1" "2" (sym (ap (λ r. r.id) p) ∙ e ∙ ap (λ r. r.id) q) refl)
replies-distinct c d (inr (inl p)) (inr (inl q)) e = p ∙ sym q

second_reply-BelongsTo : BelongsTo ("a@x" ∷ []) replies second_reply
unfolding refs reply_refs
second_reply-BelongsTo = record {
  among = inl refl;
  mentioned = "b@x";
  mentions = refl;
  linked = Linked.via first_reply "a@x" "b@x" (inr (inl refl)) refl (Linked.seed "a@x" refl) refl;
}

walk_thread_graph_complete_example : In second_reply (walk_thread_graph ("a@x" ∷ []) replies 20)
walk_thread_graph_complete_example =
    walk_thread_graph_complete ("a@x" ∷ []) replies 20 replies-distinct (omega arith) second_reply
      second_reply-BelongsTo

walk_thread_graph-BelongsTo_example :
    All (BelongsTo ("a@x" ∷ []) replies) (walk_thread_graph ("a@x" ∷ []) replies 20)
walk_thread_graph-BelongsTo_example = walk_thread_graph-BelongsTo ("a@x" ∷ []) replies 20

sanitize_filename-safe_example :
    (all is_safe_char (sanitize_filename (codes "../a b.txt")) ≡ true)
    × (all is_dot (sanitize_filename (codes "../a b.txt")) ≡ false)
sanitize_filename-safe_example = sanitize_filename-safe (codes "../a b.txt")

same_length : (s t : Text) → some s ≡ some t → length s ≡ length t
same_length s t e = cc

short-HasRoom : HasRoom 255 (clean_name (codes "a.txt"))
unfolding clean_name replace_char split_on path_name is_safe_char lstrip after_last
short-HasRoom ext e = let same = same_length (codes "txt") ext e in omega (arith, same)

letters : ℕ → Text
letters zero = []
letters (suc n) = b'x' ∷ letters n

-- One letter, and 256 behind the period.
long-safe : all is_safe_char (b'a' ∷ [] ++ b'.' ∷ letters 256) ≡ true
unfolding is_safe_char letters
long-safe = refl

long-one_dot : has_char b'.' (letters 256) ≡ false
unfolding letters
long-one_dot = refl

length-letters : (n : ℕ) → length (letters n) ≡ n
unfolding letters
length-letters zero = refl
length-letters (suc n) = ground (arith, length-letters n)

normalize_subject_total_example :
    (base : Text) × (normalize_subject ascii (codes " Re: FWD: hi ") ≡ some base)
    × IsStripped base
    × (strip_reply ascii reply_prefixes base ≡ none)
    × (normalize_subject ascii base ≡ some base)
normalize_subject_total_example = normalize_subject_total ascii (codes " Re: FWD: hi ")

abbrev two_ids : List Text
two_ids = codes "a@x" ∷ codes "b@y" ∷ []

two_ids-IsBareId : All IsBareId two_ids
unfolding is_space
two_ids-IsBareId = (
  record { some_character = refl; solid = refl; opened = refl; closed = refl },
  (record { some_character = refl; solid = refl; opened = refl; closed = refl }, tt),
)

parse_rfc822_ids-header_example : parse_rfc822_ids (header two_ids) ≡ two_ids
parse_rfc822_ids-header_example =
    parse_rfc822_ids-header two_ids two_ids-IsBareId (refl, (refl, tt))

slash-dangerous : ((b'/' == 0) || (b'/' == b'/') || (b'/' == b'\\') || is_dangerous b'/') ≡ true
slash-dangerous = refl

sanitize_mailbox_name-lacks_example :
    (has_char b'/' (sanitize_mailbox_name (codes " a/b ")) ≡ false)
    × (begins_in is_space (sanitize_mailbox_name (codes " a/b ")) ≡ false)
    × (ends_in is_space (sanitize_mailbox_name (codes " a/b ")) ≡ false)
sanitize_mailbox_name-lacks_example =
    sanitize_mailbox_name-lacks (codes " a/b ") b'/' slash-dangerous

etc-plain : all is_plain (codes "etc") ≡ true
unfolding is_dangerous is_space
etc-plain = refl

abbrev senders : List Text
senders = codes "A <a@x.com>" ∷ codes "b@x.com" ∷ codes "a@x.com" ∷ []

ranked-IsRanked_example :
    IsRanked (ranked ascii false senders)
    × ((k : Text) (n : ℕ)
        → is_empty k ≡ false
        → length (keep (λ e. text_eq e.0 k && e.1 == n) (ranked ascii false senders))
          ≡ (if n == occurrences k ascii false senders && ltb 0 n then 1 else 0))
ranked-IsRanked_example = ranked-IsRanked ascii false senders
