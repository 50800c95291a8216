-- ===== src/Junk/Cleaner.antt =====
-- junk_cleaner.py: the configuration, what the cleaner calls, and the steps on one mailbox. The
-- connector and the clients of the providers are an interface over the state of the world outside.
pub mod Run
pub mod Flags
pub mod Spending
pub mod Budget
pub mod Observe
use apple_mail_fast_mcp.Base.{
  ℕ, zero, suc, ◌+◌, ◌-◌, ◌/◌, ◌%◌, String, Bool, true, false, not, ◌&&◌, ◌||◌, Option, none, some,
  List, [], ◌∷◌, ◌++◌, leb, ltb, keep, str_eq, is_empty, if◌then◌else◌,
}
use apple_mail_fast_mcp.Text.{Text, Unicode, codes, text_member, lower}
use apple_mail_fast_mcp.Junk.Campaigns.{
  Store, auto_delete_domains, qualified_local_parts, was_deleted, record_action,
}
use apple_mail_fast_mcp.Junk.Evidence.{CharClasses, MessageRow, JunkMessage}

pub record ProviderAccount : Type 0 where
  pub kind : String
  pub credential : Text

-- `JunkCleanerConfig`; a negative number, which `validate` refuses as it refuses 0, has no place in
-- it. The dict of the providers is a function with the list of its values. The webhook and the
-- recovery policy, which these steps do not read, are left out.
pub record JunkCleanerConfig : Type 0 where
  pub mode : String
  pub minimum_domains : ℕ
  pub minimum_messages : ℕ
  pub observation_window_days : ℕ
  pub maximum_deletions_per_run : ℕ
  pub provider_of : Text → Option ProviderAccount
  pub providers : List ProviderAccount

pub data ConfigError : Type 0 where
  bad_mode low_thresholds bad_window bad_maximum bad_provider : ConfigError

abbrev pub is_known_kind : ProviderAccount → Bool
is_known_kind p = str_eq p.kind "gmail" || (str_eq p.kind "imap" || str_eq p.kind "microsoft")

unfoldable pub unknown_kinds : List ProviderAccount → Bool
unknown_kinds [] = false
unknown_kinds (p ∷ ps) = not (is_known_kind p) || unknown_kinds ps

-- `JunkCleanerConfig.validate`: the error that it raises
unfoldable pub validate : JunkCleanerConfig → Option ConfigError
unfolding unknown_kinds
validate c =
    if not (str_eq c.mode "observe" || str_eq c.mode "delete")
    then some ConfigError.bad_mode
    else if ltb c.minimum_domains 3 || ltb c.minimum_messages 3
    then some ConfigError.low_thresholds
    else if not (leb 1 c.observation_window_days && leb c.observation_window_days 90)
    then some ConfigError.bad_window
    else if not (leb 1 c.maximum_deletions_per_run && leb c.maximum_deletions_per_run 100)
    then some ConfigError.bad_maximum
    else if unknown_kinds c.providers
    then some ConfigError.bad_provider
    else none

-- How a call ended: it returned, or raised `MailMessageNotFoundError`, a `PermanentDeleteError` with
-- its text, or anything else.
pub data Attempt (A : Type 0) : Type 0 where
  returned : A → Attempt A
  message_not_found : Attempt A
  permanent_delete_error : Text → Attempt A
  raised : Attempt A

-- Goes on where a call returned, and passes on what it raised.
abbrev pub and_then : {A B W : Type 0} → Attempt A × W → (A → W → Attempt B × W) → Attempt B × W
and_then (returned a, w) f = f a w
and_then (message_not_found, w) f = (message_not_found, w)
and_then (permanent_delete_error e, w) f = (permanent_delete_error e, w)
and_then (raised, w) f = (raised, w)

-- `str(n)` of a natural number, with as many digits as the fuel allows.
abbrev pub digits : ℕ → ℕ → Text
digits zero n = []
digits (suc fuel) n =
    if ltb n 10 then (b'0' + n) ∷ [] else digits fuel (n / 10) ++ (b'0' + n % 10) ∷ []

abbrev pub decimal : ℕ → Text
decimal n = digits (suc n) n

pub record AccountRow : Type 0 where
  pub id : Option Text
  pub name : Option Text
  pub enabled : Bool

pub record MailboxRow : Type 0 where
  pub name : Option Text
  pub path : Option Text

pub record JunkMailbox : Type 0 where
  pub connector_account : Text
  pub provider_account : Text
  pub path : Text

-- What the cleaner calls: `AppleMailConnector`, `build_purger` and the clock of the database. `W` is
-- the world outside, and `P` the type of the purgers.
pub record Outside (W P : Type 0) : Type 0 where
  pub list_accounts : W → Attempt (List AccountRow) × W
  pub list_mailboxes : Text → W → Attempt (List MailboxRow) × W
  pub search_messages : Text → Text → W → Attempt (List MessageRow) × W
  pub search_flagged : Text → Text → W → Attempt (List MessageRow) × W
  pub unflag : List Text → Text → Text → W → Attempt ℕ × W
  pub build_purger : ProviderAccount → Text → Text → W → Attempt P × W
  pub permanently_delete : P → Text → W → Attempt ℕ × W
  pub clock : W → ℕ

abbrev pub junk_mailbox_names : List Text
junk_mailbox_names = codes "junk" ∷ codes "junk email" ∷ codes "junk mail" ∷ codes "spam" ∷ []

-- `_message_ids`
unfoldable pub message_ids : List MessageRow → List Text
message_ids [] = []
message_ids (message ∷ messages) = elim message.id [
  | none ↦ message_ids messages
  | some id ↦ id ∷ message_ids messages
]

-- `FLAG_BATCH_SIZE` and `MAX_FLAG_BATCHES`
abbrev pub flag_batch_size : ℕ
flag_batch_size = 100

abbrev pub max_flag_batches : ℕ
max_flag_batches = 100

module _ {W P : Type 0} (o : Outside W P) where
  -- The loop of `clear_junk_flags`, with the batches left; out of batches it raises `RuntimeError`.
  unfoldable pub clear_batches : ℕ → Text → Text → ℕ → W → Attempt ℕ × W
  clear_batches zero account mailbox total w = (raised, w)
  clear_batches (suc n) account mailbox total w =
      and_then (o.search_flagged account mailbox w) (λ messages w'. elim (message_ids messages) [
        | [] ↦ (returned total, w')
        | id ∷ ids ↦
            and_then (o.unflag (id ∷ ids) account mailbox w')
              (λ k w''. clear_batches n account mailbox (total + k) w'')
      ])

  -- `clear_junk_flags`
  unfoldable pub clear_junk_flags : Text → Text → W → Attempt ℕ × W
  clear_junk_flags account mailbox w = clear_batches max_flag_batches account mailbox 0 w

-- The body of the inner loop of `junk_mailboxes`
unfoldable pub matching_mailboxes : Unicode → Text → Text → List MailboxRow → List JunkMailbox
matching_mailboxes u account_id account_name [] = []
matching_mailboxes u account_id account_name (mailbox ∷ mailboxes) =
    let rest = matching_mailboxes u account_id account_name mailboxes in
    elim mailbox.name [
      | none ↦ rest
      | some name ↦ elim mailbox.path [
        | none ↦ rest
        | some path ↦
            if text_member (lower u name) junk_mailbox_names
            then record {
              connector_account = account_id;
              provider_account = lower u account_name;
              path = path;
            }
              ∷ rest
            else rest
      ]
    ]

-- An account that the loop of `junk_mailboxes` does not skip, with its id and its name
unfoldable pub usable_account : AccountRow → Option (Text × Text)
usable_account account = elim account.enabled [
  | false ↦ none
  | true ↦ elim account.id [
    | none ↦ none
    | some id ↦ elim account.name [ none ↦ none | some name ↦ some (id, name) ]
  ]
]

module _ {W P : Type 0} (o : Outside W P) (u : Unicode) where
  -- The outer loop of `junk_mailboxes`
  unfoldable pub all_mailboxes : List AccountRow → W → Attempt (List JunkMailbox) × W
  unfolding usable_account matching_mailboxes
  all_mailboxes [] w = (returned [], w)
  all_mailboxes (account ∷ accounts) w = elim (usable_account account) [
    | none ↦ all_mailboxes accounts w
    | some (id, name) ↦ and_then (o.list_mailboxes id w) (λ mailboxes w'.
        and_then (all_mailboxes accounts w')
          (λ rest w''. (returned (matching_mailboxes u id name mailboxes ++ rest), w'')))
  ]

  -- `junk_mailboxes`
  unfoldable pub junk_mailboxes : W → Attempt (List JunkMailbox) × W
  unfolding all_mailboxes
  junk_mailboxes w = and_then (o.list_accounts w) all_mailboxes

-- `_eligible_messages`
unfoldable pub eligible_messages :
    CharClasses → ℕ → Store → List JunkMessage → JunkCleanerConfig → List JunkMessage
eligible_messages k now store [] config = []
eligible_messages k now store (m ∷ messages) config =
    let local_parts =
      qualified_local_parts k now m.account config.minimum_domains config.minimum_messages
        config.observation_window_days store in
    keep
      (λ message.
        (text_member message.fingerprint.domain (auto_delete_domains store)
          || text_member message.fingerprint.local_part local_parts)
        && not (was_deleted message store))
      (m ∷ messages)
