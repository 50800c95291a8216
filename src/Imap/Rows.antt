-- ===== src/Imap/Rows.antt =====
-- imap_connector.py: the rows of a search, fetched in chunks from the newest message on.
pub mod Newest
use mathlib.Core.List.{reverse}
use apple_mail_fast_mcp.Base.{
  ℕ, zero, suc, ◌+◌, ◌-◌, Bool, true, false, not, ◌&&◌, ◌||◌, Option, none, some, List, [], ◌∷◌,
  ◌++◌, leb, ltb, ◌==◌, length, take, drop, is_empty, if◌then◌else◌,
}
use apple_mail_fast_mcp.Text.{Text}
use apple_mail_fast_mcp.Imap.{Reply, value, error, ImapError, value_error}
use apple_mail_fast_mcp.Imap.Bodystructure.{
  bodystructure_has_attachment, bodystructure_extract_attachments,
}
use apple_mail_fast_mcp.Imap.Envelope.{Decoders, Envelope, Entry, Row, envelope_to_dict}

-- `_FILTER_FETCH_CHUNK`
abbrev pub filter_fetch_chunk : ℕ
filter_fetch_chunk = 100

-- Whether the filter `has_attachment` lets the entry pass
abbrev pub passes : Option Bool → Bool → Bool
passes none has = true
passes (some true) has = has
passes (some false) has = not has

abbrev pub with_attachments : Decoders → Bool → Entry → Row → Row
with_attachments d false entry row = row
with_attachments d true entry row = record row {
  attachments = some (bodystructure_extract_attachments d.utf8 entry.bodystructure);
}

abbrev pub envelope_row : Decoders → Option Bool → Bool → Entry → Option Envelope → Option Row
envelope_row d has_attachment include_attachments entry none = none
envelope_row d has_attachment include_attachments entry (some e) =
    if passes has_attachment (bodystructure_has_attachment entry.bodystructure)
    then some (with_attachments d include_attachments entry (envelope_to_dict d e entry.flags))
    else none

-- The body of the inner loop: the row of an entry, or none where it is skipped
abbrev pub row_of : Decoders → Option Bool → Bool → Option Entry → Option Row
row_of d has_attachment include_attachments none = none
row_of d has_attachment include_attachments (some entry) =
    envelope_row d has_attachment include_attachments entry entry.envelope

-- `limit is not None and len(newest_first) >= limit`
abbrev pub reached : Option ℕ → ℕ → Bool
reached none n = false
reached (some limit) n = leb limit n

-- The inner loop over a chunk, newest first, with the rows so far and whether it returned
unfoldable pub take_rows :
    {R : Type 0} → Option ℕ → List ℕ → (ℕ → Option R) → List R → List R × Bool
take_rows limit [] look rows = (rows, false)
take_rows limit (uid ∷ uids) look rows = elim (look uid) [
  | none ↦ take_rows limit uids look rows
  | some row ↦
      if reached limit (length rows + 1)
      then (rows ++ row ∷ [], true)
      else take_rows limit uids look (rows ++ row ∷ [])
]

-- Goes on with the next chunk, unless the loop over the last one returned.
abbrev pub next_chunk :
    {W R : Type 0} → List R × Bool → (List R → W → Reply (List R) × W) → W → Reply (List R) × W
next_chunk (rows, true) k w = (value rows, w)
next_chunk (rows, false) k w = k rows w

abbrev pub fetched : {W A B : Type 0} → Reply A × W → (A → W → Reply B × W) → Reply B × W
fetched (value a, w) k = k a w
fetched (error e, w) k = (error e, w)

module _ {W R : Type 0} (fetch : List ℕ → W → Reply (ℕ → Option R) × W) where
  -- The outer loop, from the position `end` down by the size of a chunk, with fuel for as many rounds
  -- as there are UIDs
  unfoldable pub scan : ℕ → Option ℕ → ℕ → List ℕ → ℕ → List R → W → Reply (List R) × W
  unfolding take_rows
  scan zero limit size uids end rows w = (value rows, w)
  scan (suc fuel) limit size uids zero rows w = (value rows, w)
  scan (suc fuel) limit size uids (suc e) rows w =
      let chunk = drop (suc e - size) (take (suc e) uids) in
      fetched (fetch chunk w) (λ look.
        next_chunk (take_rows limit (reverse chunk) look rows)
          (λ rows'. scan fuel limit size uids (suc e - size) rows'))

  abbrev pub oldest_first : Reply (List R) × W → Reply (List R) × W
  oldest_first (value rows, w) = (value (reverse rows), w)
  oldest_first (error e, w) = (error e, w)

  abbrev pub chunk_size : Option ℕ → List ℕ → ℕ
  chunk_size none uids = length uids
  chunk_size (some limit) uids = filter_fetch_chunk

  -- `_collect_search_rows`; a `range` of step 0 is a ValueError.
  unfoldable pub collect_rows : Option ℕ → List ℕ → W → Reply (List R) × W
  unfolding scan
  collect_rows limit uids w =
      if chunk_size limit uids == 0
      then (error value_error, w)
      else oldest_first (scan (length uids) limit (chunk_size limit uids) uids (length uids) [] w)

-- `uids[-limit:]`, where the negation of 0 is 0
abbrev pub last_uids : ℕ → List ℕ → List ℕ
last_uids zero uids = uids
last_uids (suc n) uids = drop (length uids - suc n) uids

-- The UIDs that `search_messages` fetches, and the limit that it passes on: without a filter on
-- attachments it cuts the list of UIDs before.
abbrev pub search_window : Option Bool → Option ℕ → List ℕ → List ℕ
search_window none (some limit) uids = last_uids limit uids
search_window has_attachment limit uids = uids

abbrev pub passed_limit : Option Bool → Option ℕ → Option ℕ
passed_limit none limit = none
passed_limit (some b) limit = limit

-- What stands behind the search in `search_messages`; `fetch` answers with the entries of a chunk.
abbrev pub entry_rows :
    {W : Type 0}
    → Decoders
    → Option Bool
    → Bool
    → (List ℕ → W → Reply (ℕ → Option Entry) × W)
    → List ℕ
    → W
    → Reply (ℕ → Option Row) × W
entry_rows d has_attachment include_attachments fetch chunk w =
    fetched (fetch chunk w)
      (λ entries w'. (value (λ uid. row_of d has_attachment include_attachments (entries uid)), w'))

unfoldable pub search_rows :
    {W : Type 0}
    → Decoders
    → Option Bool
    → Bool
    → Option ℕ
    → (List ℕ → W → Reply (ℕ → Option Entry) × W)
    → List ℕ
    → W
    → Reply (List Row) × W
unfolding collect_rows
search_rows d has_attachment include_attachments limit fetch uids w =
    let window = search_window has_attachment limit uids in
    if is_empty window
    then (value [], w)
    else collect_rows (entry_rows d has_attachment include_attachments fetch)
        (passed_limit has_attachment limit) window w
