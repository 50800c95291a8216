-- ===== src/Junk/Campaigns.antt =====
-- junk_campaigns.py: the evidence on junk senders, and the ledger of what was deleted. A table of the
-- database is the list of its rows, and a time stamp a number of seconds.
pub mod Learned
pub mod Deleted
use mathlib.Core.List.{foldl}
use apple_mail_fast_mcp.Base.{
  ℕ, ◌+◌, ◌*◌, Bool, true, false, not, ◌&&◌, ◌||◌, Option, none, some, List, [], ◌∷◌, ◌++◌, map,
  leb, ltb, ◌==◌, is_empty, length, take, keep, any, if◌then◌else◌,
}
use apple_mail_fast_mcp.Text.{
  Text, Unicode, codes, text_eq, text_member, has_char, lower, strip, strip_by, rstrip, after_last,
  before_last,
}
use apple_mail_fast_mcp.Junk.Evidence.{
  CharClasses, SenderFingerprint, JunkMessage, MessageRow, fingerprint_address,
  looks_generated_local_part, filled, is_bracket, message_evidence, evidence_of, flag_from,
}

-- `junk_campaign_observation`
pub record Observation : Type 0 where
  pub account : Text
  pub mailbox : Text
  pub message_id : Text
  pub rfc_message_id : Text
  pub local_part : Text
  pub domain : Text
  pub was_flagged : Bool
  pub first_seen_at : ℕ
  pub last_seen_at : ℕ

-- `junk_auto_delete_domain`
pub record AutoDeleteDomain : Type 0 where
  pub domain : Text
  pub source_account : Text
  pub source_mailbox : Text
  pub source_message_id : Text
  pub first_flagged_at : ℕ
  pub last_flagged_at : ℕ

-- `junk_cleanup_action`, whose `action` is always `permanent_delete`
pub record CleanupAction : Type 0 where
  pub account : Text
  pub mailbox : Text
  pub rfc_message_id : Text
  pub status : Text
  pub detail : Text
  pub updated_at : ℕ

-- `provider_health`
pub record ProviderHealth : Type 0 where
  pub account : Text
  pub healthy : Bool
  pub detail : Text
  pub checked_at : ℕ

pub record Store : Type 0 where
  pub observations : List Observation
  pub domains : List AutoDeleteDomain
  pub actions : List CleanupAction
  pub health : List ProviderHealth

-- `INSERT ... ON CONFLICT (key) DO UPDATE`: the row with the key is updated, or a new one inserted.
unfoldable pub upsert : {R : Type 0} → (R → Bool) → (R → R) → R → List R → List R
upsert same update new [] = new ∷ []
upsert same update new (r ∷ rows) =
    if same r then update r ∷ rows else r ∷ upsert same update new rows

module _ (now : ℕ) (messages : List MessageRow) where
  abbrev pub is_flagged : JunkMessage → Bool
  is_flagged item = flag_from false item.connector_id messages

  -- The first statement of `record_messages`, for one item
  unfoldable pub observe : List Observation → JunkMessage → List Observation
  observe rows item =
      upsert
        (λ r.
          text_eq r.account item.account
          && (text_eq r.mailbox item.mailbox && text_eq r.message_id item.connector_id))
        (λ r. record r {
          rfc_message_id = item.rfc_message_id;
          local_part = item.fingerprint.local_part;
          domain = item.fingerprint.domain;
          was_flagged = r.was_flagged || is_flagged item;
          last_seen_at = now;
        })
        (record {
          account = item.account;
          mailbox = item.mailbox;
          message_id = item.connector_id;
          rfc_message_id = item.rfc_message_id;
          local_part = item.fingerprint.local_part;
          domain = item.fingerprint.domain;
          was_flagged = is_flagged item;
          first_seen_at = now;
          last_seen_at = now;
        })
        rows

  -- The second statement, for one item
  unfoldable pub learn_domain : List AutoDeleteDomain → JunkMessage → List AutoDeleteDomain
  learn_domain rows item =
      if is_flagged item
      then upsert (λ r. text_eq r.domain item.fingerprint.domain)
          (λ r. record r { last_flagged_at = now })
          (record {
            domain = item.fingerprint.domain;
            source_account = item.account;
            source_mailbox = item.mailbox;
            source_message_id = item.connector_id;
            first_flagged_at = now;
            last_flagged_at = now;
          })
          rows
      else rows

-- `JunkCampaignStore.record_messages`
unfoldable pub record_messages :
    Unicode → (Text → Text) → ℕ → Text → Text → List MessageRow → Store → List JunkMessage × Store
record_messages u parse_address now account mailbox messages store =
    let evidence = evidence_of u parse_address account mailbox messages in
    (
      evidence,
      record store {
        observations = foldl (observe now messages) store.observations evidence;
        domains = foldl (learn_domain now messages) store.domains evidence;
      },
    )

-- `JunkCampaignStore.auto_delete_domains`
unfoldable pub auto_delete_domains : Store → List Text
auto_delete_domains store = map (λ r. r.domain) store.domains

-- The texts of a list, each once.
unfoldable pub distinct : List Text → List Text
distinct [] = []
distinct (t ∷ ts) = t ∷ keep (λ s. not (text_eq s t)) (distinct ts)

-- The `WHERE` clause of `qualified_local_parts`: seen no longer ago than the days of the window
abbrev pub seen_since : ℕ → Text → ℕ → Observation → Bool
seen_since now account window r =
    text_eq r.account account && leb now (r.last_seen_at + window * 86400)

-- The `GROUP BY` and `HAVING` clauses, for one local part
unfoldable pub has_evidence : ℕ → ℕ → Text → List Observation → Bool
has_evidence minimum_domains minimum_messages local_part rows =
    let group = keep (λ r. text_eq r.local_part local_part) rows in
    leb minimum_domains (length (distinct (map (λ r. r.domain) group)))
    && leb minimum_messages (length group)

-- `JunkCampaignStore.qualified_local_parts`
unfoldable pub qualified_local_parts : CharClasses → ℕ → Text → ℕ → ℕ → ℕ → Store → List Text
unfolding distinct has_evidence
qualified_local_parts k now account minimum_domains minimum_messages window store =
    let rows = keep (seen_since now account window) store.observations in
    keep (looks_generated_local_part k) (
      keep (λ p. has_evidence minimum_domains minimum_messages p rows)
        (distinct (map (λ r. r.local_part) rows)))

-- The row of `junk_cleanup_action` that has the key of a message
abbrev pub is_action_of : JunkMessage → CleanupAction → Bool
is_action_of message r =
    text_eq r.account message.account
    && (text_eq r.mailbox message.mailbox && text_eq r.rfc_message_id message.rfc_message_id)

-- `JunkCampaignStore.was_deleted`
unfoldable pub was_deleted : JunkMessage → Store → Bool
was_deleted message store =
    any (λ r. is_action_of message r && text_eq r.status (codes "deleted")) store.actions

-- `JunkCampaignStore.record_action`
unfoldable pub record_action : ℕ → JunkMessage → Text → Text → Store → Store
record_action now message status detail store = record store {
  actions =
      upsert (is_action_of message)
        (λ r. record r { status = status; detail = take 500 detail; updated_at = now })
        (record {
          account = message.account;
          mailbox = message.mailbox;
          rfc_message_id = message.rfc_message_id;
          status = status;
          detail = take 500 detail;
          updated_at = now;
        })
        store.actions;
}

-- The state on record of an account
unfoldable pub health_of : Text → List ProviderHealth → Option Bool
health_of account [] = none
health_of account (r ∷ rows) =
    if text_eq r.account account then some r.healthy else health_of account rows

-- `JunkCampaignStore.record_provider_health`, with the state before
unfoldable pub record_provider_health : ℕ → Text → Bool → Text → Store → Option Bool × Store
record_provider_health now account healthy detail store = (
  health_of account store.health,
  record store {
    health =
        upsert (λ r. text_eq r.account account)
          (λ r. record r { healthy = healthy; detail = take 500 detail; checked_at = now })
          (record {
            account = account;
            healthy = healthy;
            detail = take 500 detail;
            checked_at = now;
          })
          store.health;
  },
)
