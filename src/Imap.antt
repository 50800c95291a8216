-- ===== src/Imap.antt =====
-- imap_connector.py: the commands that a connection sends, the client that answers them, and the
-- monad of a session, which keeps the commands sent.
pub mod Search
pub mod Dates
pub mod Folders
pub mod Messages
pub mod Triples
pub mod Commands
pub mod Server
pub mod Uids
pub mod Resolution
pub mod Deletion
pub mod Bodystructure
pub mod Envelope
pub mod Rows
pub mod Pool
mod Tests
use apple_mail_fast_mcp.Base.{ℕ, ◌≡◌, refl, ◌⊎◌, inl, inr, Bool, true, List, [], ◌∷◌}
use apple_mail_fast_mcp.Text.{Text}

-- A search program for `IMAPClient.search`: strings, and lists of them in parentheses.
mutual
  pub data Criterion : Type 0 where
    word : Text → Criterion
    group : Criteria → Criterion

  pub data Criteria : Type 0 where
    finish : Criteria
    also : Criterion → Criteria → Criteria

-- A flat list of strings, as a program
abbrev pub words : List Text → Criteria
words [] = finish
words (t ∷ ts) = also (word t) (words ts)

-- A row of `list_folders`: the flags and the name, decoded
pub record Folder : Type 0 where
  pub flags : List Text
  pub name : Text

-- The commands that change something or whose answer the code does not read
pub data Change : Type 0 where
  close_folder : Change
  delete_folder : Text → Change
  rename_folder : Text → Text → Change
  move_uids : List ℕ → Text → Change
  copy_uids : List ℕ → Text → Change
  add_flags remove_flags : List ℕ → List Text → Change
  uid_expunge : List ℕ → Change
  append_message : Text → List ℕ → List Text → Change

-- The commands of a session
pub data Command : Type 0 where
  list_folders : Command
  select_folder : Text → Bool → Command
  search_for : Criteria → Command
  change : Change → Command

-- What a method raises
pub data ImapError : Type 0 where
  value_error mailbox_not_found message_not_found : ImapError
  move_unsupported trash_not_found client_error : ImapError
  overflow_error index_error : ImapError

pub data Reply (A : Type 0) : Type 0 where
  value : A → Reply A
  error : ImapError → Reply A

pub Reply-cases :
    {A : Type 0} (r : Reply A) → ((a : A) × (r ≡ value a)) ⊎ ((e : ImapError) × (r ≡ error e))
Reply-cases (value a) = inl (a, refl)
Reply-cases (error e) = inr (e, refl)

-- What the code calls of IMAPClient, over the state of the connection and of the server: opening a
-- session, the capabilities, which IMAPClient keeps, and a command with its answer. That of SELECT
-- is the number of messages.
pub record Client (W : Type 0) : Type 0 where
  pub opened : W → Reply (Unit {0}) × W
  pub capabilities : W → Reply (List Text) × W
  pub folders : W → Reply (List Folder) × W
  pub selected : Text → Bool → W → Reply ℕ × W
  pub found : Criteria → W → Reply (List ℕ) × W
  pub changed : Change → W → Reply (Unit {0}) × W

-- The commands sent, the latest first, and the state outside.
pub record Session (W : Type 0) : Type 0 where
  pub sent : List Command
  pub world : W

abbrev pub Imap : Type 0 → Type 0 → Type 0
Imap W A = Session W → Reply A × Session W

abbrev pub pure : {W A : Type 0} → A → Imap W A
pure a s = (value a, s)

abbrev pub fail : {W A : Type 0} → ImapError → Imap W A
fail e s = (error e, s)

-- A check that sends nothing, as a step of a session.
abbrev pub lift : {W A : Type 0} → Reply A → Imap W A
lift r s = (r, s)

-- Goes on where a call returned, and passes on what it raised.
abbrev pub follow : {W A B : Type 0} → Reply A × Session W → (A → Imap W B) → Reply B × Session W
follow (value a, s) f = f a s
follow (error e, s) f = (error e, s)

infixl 5 ◌>>=◌ ◌>>◌
abbrev pub ◌>>=◌ : {W A B : Type 0} → Imap W A → (A → Imap W B) → Imap W B
◌>>=◌ m f s = follow (m s) f

abbrev pub ◌>>◌ : {W B : Type 0} → Imap W (Unit {0}) → Imap W B → Imap W B
m >> k = m >>= λ _. k

-- `with suppress(IMAPClientError)`
abbrev pub suppressed : {W : Type 0} → Reply (Unit {0}) × Session W → Reply (Unit {0}) × Session W
suppressed (error client_error, s) = (value tt, s)
suppressed (r, s) = (r, s)

unfoldable pub suppress_client_error : {W : Type 0} → Imap W (Unit {0}) → Imap W (Unit {0})
suppress_client_error m s = suppressed (m s)

-- Keeps what a call leaves outside, with the command in the list.
abbrev pub after : {W A : Type 0} → Command → List Command → Reply A × W → Reply A × Session W
after c sent (r, w) = (r, record { sent = c ∷ sent; world = w })

abbrev pub quietly : {W A : Type 0} → List Command → Reply A × W → Reply A × Session W
quietly sent (r, w) = (r, record { sent = sent; world = w })

module _ {W : Type 0} (c : Client W) where
  abbrev pub open_session : Imap W (Unit {0})
  open_session s = quietly s.sent (c.opened s.world)

  abbrev pub client_capabilities : Imap W (List Text)
  client_capabilities s = quietly s.sent (c.capabilities s.world)

  abbrev pub send_list : Imap W (List Folder)
  send_list s = after list_folders s.sent (c.folders s.world)

  abbrev pub send_select : Text → Bool → Imap W ℕ
  send_select name readonly s =
      after (select_folder name readonly) s.sent (c.selected name readonly s.world)

  abbrev pub send_search : Criteria → Imap W (List ℕ)
  send_search criteria s = after (search_for criteria) s.sent (c.found criteria s.world)

  abbrev pub send_change : Change → Imap W (Unit {0})
  send_change change_of s = after (change change_of) s.sent (c.changed change_of s.world)
