-- ===== src/Junk/Evidence.antt =====
-- The evidence that junk_campaigns.py takes from a row of the connector.
use apple_mail_fast_mcp.Base.{
  ℕ, Bool, not, ◌&&◌, ◌||◌, Option, none, some, List, [], ◌∷◌, leb, ◌==◌, is_empty, length, keep,
  if◌then◌else◌,
}
use apple_mail_fast_mcp.Text.{
  Text, Unicode, text_eq, has_char, lower, strip, strip_by, rstrip, after_last, before_last,
}

-- What the Unicode tables say of `str.isdigit`, `str.isalnum` and `str.isalpha` of one code point.
pub record CharClasses : Type 0 where
  pub is_digit : ℕ → Bool
  pub is_alnum : ℕ → Bool
  pub is_alpha : ℕ → Bool

pub record SenderFingerprint : Type 0 where
  pub local_part : Text
  pub domain : Text

pub record JunkMessage : Type 0 where
  pub account : Text
  pub mailbox : Text
  pub connector_id : Text
  pub rfc_message_id : Text
  pub fingerprint : SenderFingerprint

-- A row of the connector; `none` is a value that is missing or is no string.
pub record MessageRow : Type 0 where
  pub id : Option Text
  pub rfc_message_id : Option Text
  pub sender : Option Text
  pub flagged : Bool

-- `fingerprint_sender`, where `email.utils.parseaddr` found the address
unfoldable pub fingerprint_address : Unicode → Text → Option SenderFingerprint
fingerprint_address u address = elim (after_last b'@' address) [
  | none ↦ none
  | some rest ↦
      let local_part = lower u (strip (before_last b'@' address)) in
      let domain = rstrip (λ c. c == b'.') (lower u (strip rest)) in
      if is_empty local_part || not (has_char b'.' domain)
      then none
      else some (record { local_part = local_part; domain = domain })
]

-- `looks_generated_local_part`
unfoldable pub looks_generated_local_part : CharClasses → Text → Bool
looks_generated_local_part k local_part =
    let n = length local_part in
    let digits = length (keep k.is_digit local_part) in
    let separators = length (keep (λ c. not (k.is_alnum c)) local_part) in
    let letters = length (keep k.is_alpha local_part) in
    (leb 8 n && digits == n)
    || (leb 10 n && (leb 4 digits && leb 1 separators))
    || (leb 16 n && (leb 6 digits && leb 3 letters))

-- `isinstance(value, str)` and `value.strip()`
unfoldable pub filled : Option Text → Option Text
filled none = none
filled (some value) = if is_empty (strip value) then none else some value

-- `rfc_message_id.strip().strip("<>")`
abbrev pub is_bracket : ℕ → Bool
is_bracket c = c == b'<' || c == b'>'

module _ (u : Unicode) (parse_address : Text → Text) where
  -- `message_evidence`
  unfoldable pub message_evidence : Text → Text → MessageRow → Option JunkMessage
  message_evidence account mailbox message = elim (filled message.id) [
    | none ↦ none
    | some connector_id ↦ elim (filled message.sender) [
      | none ↦ none
      | some sender ↦ elim (filled message.rfc_message_id) [
        | none ↦ none
        | some rfc ↦ elim (fingerprint_address u (parse_address sender)) [
          | none ↦ none
          | some fingerprint ↦ some (record {
            account = account;
            mailbox = mailbox;
            connector_id = connector_id;
            rfc_message_id = strip_by is_bracket (strip rfc);
            fingerprint = fingerprint;
          })
        ]
      ]
    ]
  ]

  -- The list `evidence` of `record_messages`
  unfoldable pub evidence_of : Text → Text → List MessageRow → List JunkMessage
  evidence_of account mailbox [] = []
  evidence_of account mailbox (message ∷ messages) =
      let rest = evidence_of account mailbox messages in
      elim (message_evidence account mailbox message) [ none ↦ rest | some item ↦ item ∷ rest ]

-- `messages_by_id[id].get("flagged") is True`: of two rows with one id the later counts.
unfoldable pub flag_from : Bool → Text → List MessageRow → Bool
flag_from flagged id [] = flagged
flag_from flagged id (message ∷ messages) = elim message.id [
  | none ↦ flag_from flagged id messages
  | some i ↦ flag_from (if text_eq i id then message.flagged else flagged) id messages
]
