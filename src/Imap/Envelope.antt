-- ===== src/Imap/Envelope.antt =====
-- imap_connector.py: a row of a search, made of an ENVELOPE and FLAGS.
use apple_mail_fast_mcp.Base.{
  Bool, not, ◌&&◌, Option, none, some, List, [], ◌∷◌, ◌++◌, is_empty, keep, map, if◌then◌else◌,
}
use apple_mail_fast_mcp.Text.{Text, codes, text_member}
use apple_mail_fast_mcp.Imap.Search.{strip_brackets}
use apple_mail_fast_mcp.Imap.Bodystructure.{Value, Attachment}

-- An address of IMAPClient, whose parts are bytes or None
pub record Address : Type 0 where
  pub name : Option Text
  pub mailbox : Option Text
  pub host : Option Text

-- The date is a `datetime` in ISO format, or bytes.
pub data EnvelopeDate : Type 0 where
  no_date : EnvelopeDate
  datetime raw_date : Text → EnvelopeDate

pub record Envelope : Type 0 where
  pub date : EnvelopeDate
  pub subject : Option Text
  pub senders : List Address
  pub to : List Address
  pub cc : List Address
  pub message_id : Option Text

-- What a FETCH returns for a UID
pub record Entry : Type 0 where
  pub envelope : Option Envelope
  pub flags : List Text
  pub bodystructure : Value

-- A dict of the answer; `id` and `rfc_message_id` are two keys with one value.
pub record Row : Type 0 where
  pub id : Text
  pub rfc_message_id : Text
  pub subject : Text
  pub sender : Text
  pub to : Text
  pub cc : Text
  pub date_received : Text
  pub read_status : Bool
  pub flagged : Bool
  pub attachments : Option (List Attachment)

-- What the code calls: the decoding of bytes as UTF-8 with replacements, and
-- `_decode_mime_header` of bytes, which the email package does.
pub record Decoders : Type 0 where
  pub utf8 : Text → Text
  pub mime_header : Text → Text

-- `_decode`, and `_decode_mime_header`, of bytes or None
abbrev pub or_blank : (Text → Text) → Option Text → Text
or_blank f none = []
or_blank f (some b) = f b

-- `_format_address`
unfoldable pub format_address : Decoders → Address → Text
format_address d a =
    let name = or_blank d.mime_header a.name in
    let mailbox = or_blank d.utf8 a.mailbox in
    let host = or_blank d.utf8 a.host in
    let email =
      if not (is_empty mailbox) && not (is_empty host) then mailbox ++ b'@' ∷ host else mailbox in
    if is_empty name then email else name ++ codes " <" ++ email ++ codes ">"

-- `_format_sender`
unfoldable pub format_sender : Decoders → List Address → Text
unfolding format_address
format_sender d [] = []
format_sender d (a ∷ addresses) = format_address d a

-- `", ".join(...)`
unfoldable pub join_comma : List Text → Text
join_comma [] = []
join_comma (s ∷ []) = s
join_comma (s ∷ t ∷ ss) = s ++ codes ", " ++ join_comma (t ∷ ss)

-- `_format_address_list`
unfoldable pub format_address_list : Decoders → List Address → Text
unfolding format_address join_comma
format_address_list d addresses =
    join_comma (keep (λ x. not (is_empty x)) (map (format_address d) addresses))

abbrev pub date_text : Decoders → EnvelopeDate → Text
date_text d no_date = []
date_text d (datetime iso) = iso
date_text d (raw_date b) = d.utf8 b

-- `_envelope_to_dict`, without attachments yet
unfoldable pub envelope_to_dict : Decoders → Envelope → List Text → Row
unfolding strip_brackets format_sender format_address_list
envelope_to_dict d e flags = record {
  id = strip_brackets (or_blank d.utf8 e.message_id);
  rfc_message_id = strip_brackets (or_blank d.utf8 e.message_id);
  subject = or_blank d.mime_header e.subject;
  sender = format_sender d e.senders;
  to = format_address_list d e.to;
  cc = format_address_list d e.cc;
  date_received = date_text d e.date;
  read_status = text_member (codes "\\Seen") flags;
  flagged = text_member (codes "\\Flagged") flags;
  attachments = none;
}
