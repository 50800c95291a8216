-- ===== src/Junk/Campaigns/Learned.antt =====
-- What the evidence store never forgets: flags, and the domains learned from them.
use mathlib.Core.List.{foldl}
use apple_mail_fast_mcp.Base.{
  ℕ, ◌≡◌, refl, inl, inr, Bool-cases, Bool, ◌&&◌, ◌||◌, List, [], ◌∷◌, map, arith, any,
}
use apple_mail_fast_mcp.Text.{Text, Unicode, text_eq, text_member}
use apple_mail_fast_mcp.Text.Search.{text_eq→eq}
use apple_mail_fast_mcp.Junk.Campaigns.{
  Observation, AutoDeleteDomain, Store, upsert, is_flagged, observe, learn_domain, record_messages,
  auto_delete_domains,
}
use apple_mail_fast_mcp.Junk.Evidence.{MessageRow, JunkMessage}

abbrev pub domain_names : List AutoDeleteDomain → List Text
domain_names rows = map (λ r. r.domain) rows

module _ (d domain : Text) (update : AutoDeleteDomain → AutoDeleteDomain)
    (new : AutoDeleteDomain) where
  text_member-upsert :
      ((r : AutoDeleteDomain) → (update r).domain ≡ r.domain)
      → new.domain ≡ domain
      → (rows : List AutoDeleteDomain)
      → text_member d (domain_names (upsert (λ r. text_eq r.domain domain) update new rows))
        ≡ (text_member d (domain_names rows) || text_eq domain d)
  unfolding upsert
  text_member-upsert keeps fresh [] = rw fresh (ground arith)
  text_member-upsert keeps fresh (r ∷ rows) = elim (Bool-cases (text_eq r.domain domain)) [
    | inl same ↦ let p = text_eq→eq r.domain domain same in rw (same, keeps r, p) (ground arith)
    | inr differs ↦ rw (differs, text_member-upsert keeps fresh rows) (ground arith)
  ]

module _ (now : ℕ) (messages : List MessageRow) where
  -- A flagged message of the batch has the domain.
  abbrev pub flags_domain : Text → List JunkMessage → Bool
  flags_domain d = any (λ item. is_flagged now messages item && text_eq item.fingerprint.domain d)

  text_member-learn_domain :
      (d : Text) (rows : List AutoDeleteDomain) (item : JunkMessage)
      → text_member d (domain_names (learn_domain now messages rows item)) ≡ (
          text_member d (domain_names rows)
          || (is_flagged now messages item && text_eq item.fingerprint.domain d))
  unfolding learn_domain
  text_member-learn_domain d rows item = elim (Bool-cases (is_flagged now messages item)) [
    | inl flagged ↦
        rw flagged (text_member-upsert d item.fingerprint.domain _ _ (λ r. refl) refl rows)
    | inr not_flagged ↦ rw not_flagged (ground arith)
  ]

  text_member-foldl :
      (d : Text) (rows : List AutoDeleteDomain) (items : List JunkMessage)
      → text_member d (domain_names (foldl (learn_domain now messages) rows items))
        ≡ (text_member d (domain_names rows) || flags_domain d items)
  text_member-foldl d rows [] = ground arith
  text_member-foldl d rows (item ∷ items) =
      rw
        (
          text_member-foldl d (learn_domain now messages rows item) items,
          text_member-learn_domain d rows item,
        )
        (ground arith)

module _ (u : Unicode) (parse_address : Text → Text) (now : ℕ) (account mailbox : Text)
    (messages : List MessageRow) (store : Store) where
  -- Recording messages forgets no domain that is to be deleted automatically, and adds exactly the
  -- domains of the evidence whose message was flagged.
  pub auto_delete_domains-record_messages :
      (d : Text)
      → let (evidence, store') =
          record_messages u parse_address now account mailbox messages store in
        text_member d (auto_delete_domains store')
        ≡ (text_member d (auto_delete_domains store) || flags_domain now messages d evidence)
  unfolding record_messages auto_delete_domains
  auto_delete_domains-record_messages d = text_member-foldl now messages d store.domains _

module _ (now : ℕ) (messages : List MessageRow) (account mailbox id : Text) where
  abbrev pub is_at : Observation → Bool
  is_at r = text_eq r.account account && (text_eq r.mailbox mailbox && text_eq r.message_id id)

  abbrev pub is_for : JunkMessage → Bool
  is_for item =
      text_eq item.account account && (text_eq item.mailbox mailbox && text_eq item.connector_id id)

  -- The message was flagged when it was seen, at one time or another.
  abbrev pub was_flagged_at : List Observation → Bool
  was_flagged_at = any (λ r. is_at r && r.was_flagged)

  was_flagged_at-observe :
      (rows : List Observation) (item : JunkMessage)
      → was_flagged_at (observe now messages rows item)
        ≡ (was_flagged_at rows || (is_for item && is_flagged now messages item))
  unfolding observe upsert
  was_flagged_at-observe [] item = ground arith
  was_flagged_at-observe (r ∷ rows) item =
      elim (Bool-cases (
        text_eq r.account item.account
        && (text_eq r.mailbox item.mailbox && text_eq r.message_id item.connector_id))) [
          | inl same ↦
              let a = text_eq→eq r.account item.account (ground arith) in
              let m = text_eq→eq r.mailbox item.mailbox (ground arith) in
              let i = text_eq→eq r.message_id item.connector_id (ground arith) in
              rw (same, a, m, i) (ground arith)
          | inr differs ↦ rw (differs, was_flagged_at-observe rows item) (ground arith)
        ]

  was_flagged_at-foldl :
      (rows : List Observation) (items : List JunkMessage)
      → was_flagged_at (foldl (observe now messages) rows items)
        ≡ (was_flagged_at rows || any (λ item. is_for item && is_flagged now messages item) items)
  was_flagged_at-foldl rows [] = ground arith
  was_flagged_at-foldl rows (item ∷ items) =
      rw
        (
          was_flagged_at-foldl (observe now messages rows item) items,
          was_flagged_at-observe rows item,
        )
        (ground arith)

  -- A message that was seen with a flag stays on record as flagged, also when it is seen without
  -- one later; and recording marks no message that neither was nor is flagged.
  pub was_flagged-record_messages :
      (u : Unicode) (parse_address : Text → Text) (box_account box : Text) (store : Store)
      → let (evidence, store') =
          record_messages u parse_address now box_account box messages store in
        was_flagged_at store'.observations ≡ (
          was_flagged_at store.observations
          || any (λ item. is_for item && is_flagged now messages item) evidence)
  unfolding record_messages
  was_flagged-record_messages u parse_address box_account box store =
      was_flagged_at-foldl store.observations _
