-- ===== src/Imap/Server.antt =====
-- What the methods rely on of a server that works, by RFC 3501 and RFC 4315: a search returns the
-- UIDs of the messages that it asks for, flags are stored, and UID EXPUNGE removes what is both named
-- and deleted.
use apple_mail_fast_mcp.Base.{
  ℕ, ◌≡◌, Bool, not, ◌&&◌, List, [], ◌∷◌, ◌++◌, any, keep, length, if◌then◌else◌,
}
use apple_mail_fast_mcp.Text.{Text, codes, text_member}
use apple_mail_fast_mcp.Imap.{Criteria, add_flags, remove_flags, uid_expunge, value, Client}
use apple_mail_fast_mcp.Imap.Search.{bracketed}
use apple_mail_fast_mcp.Imap.Search.Meaning.{Facts, Means, has_id}
use apple_mail_fast_mcp.Imap.Messages.{uid_member}

-- A message in a mailbox
pub record Mail : Type 0 where
  pub uid : ℕ
  pub flags : List Text
  pub has_text : Text → Text → Bool
  pub has_header : Text → Text → Bool

abbrev pub facts_of : Mail → Facts
facts_of m = record {
  has_text = m.has_text;
  has_header = m.has_header;
  is_seen = text_member (codes "\\Seen") m.flags;
  is_flagged = text_member (codes "\\Flagged") m.flags;
}

abbrev pub uids_of : List Mail → List ℕ
uids_of [] = []
uids_of (m ∷ ms) = m.uid ∷ uids_of ms

-- Whether the message has one of the ids
abbrev pub has_one_of : List Text → Mail → Bool
has_one_of ids m = any (λ id. has_id (facts_of m) (bracketed id)) ids

-- The effect of the commands on one message
abbrev pub with_flags : List ℕ → List Text → Mail → Mail
with_flags uids flags m = if uid_member m.uid uids then record m { flags = flags ++ m.flags } else m

abbrev pub without_flags : List ℕ → List Text → Mail → Mail
without_flags uids flags m =
    if uid_member m.uid uids
    then record m { flags = keep (λ flag. not (text_member flag flags)) m.flags }
    else m

abbrev pub is_expunged : List ℕ → Mail → Bool
is_expunged uids m = uid_member m.uid uids && text_member (codes "\\Deleted") m.flags

abbrev pub each : (Mail → Mail) → List Mail → List Mail
each f [] = []
each f (m ∷ ms) = f m ∷ each f ms

module _ {W : Type 0} (c : Client W) (mailbox : Text → W → List Mail) (current : W → Text)
    (capable : List Text) where
  -- The session opens, queries change nothing, and each command does what it says to the mailbox
  -- that is selected.
  pub record IsServer : Type 0 where
    pub opened_law : (w : W) → c.opened w ≡ (value tt, w)
    pub capabilities_law : (w : W) → c.capabilities w ≡ (value capable, w)
    pub found_law :
        (k : Criteria) (f : Mail → Bool) (w : W)
        → ((m : Mail) → Means (facts_of m) k (f m))
        → c.found k w ≡ (value (uids_of (keep f (mailbox (current w) w))), w)
    pub selected_law :
        (name : Text) (readonly : Bool) (w : W)
        → (w' : W) × (c.selected name readonly w ≡ (value (length (mailbox name w)), w'))
          × (current w' ≡ name)
          × (mailbox name w' ≡ mailbox name w)
    pub added_law :
        (uids : List ℕ) (flags : List Text) (w : W)
        → (w' : W) × (c.changed (add_flags uids flags) w ≡ (value tt, w'))
          × (current w' ≡ current w)
          × (mailbox (current w) w' ≡ each (with_flags uids flags) (mailbox (current w) w))
    pub removed_law :
        (uids : List ℕ) (flags : List Text) (w : W)
        → (w' : W) × (c.changed (remove_flags uids flags) w ≡ (value tt, w'))
          × (current w' ≡ current w)
          × (mailbox (current w) w' ≡ each (without_flags uids flags) (mailbox (current w) w))
    pub expunged_law :
        (uids : List ℕ) (w : W)
        → (w' : W) × (c.changed (uid_expunge uids) w ≡ (value tt, w'))
          × (current w' ≡ current w)
          × (mailbox (current w) w' ≡ keep (λ m. not (is_expunged uids m)) (mailbox (current w) w))
