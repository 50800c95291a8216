-- ===== src/Server.antt =====
-- `delete_messages` of server.py, with the gates and the confirmation in front of the connector.
pub mod Gated
mod Tests
use apple_mail_fast_mcp.Base.{
  ℕ, String, Bool, true, false, not, ◌&&◌, ◌||◌, Option, none, some, List, [], ◌∷◌, ◌++◌, ltb,
  length, is_empty, if◌then◌else◌,
}
use apple_mail_fast_mcp.Text.{Text, Unicode, codes, text_eq}
use apple_mail_fast_mcp.Junk.Cleaner.{decimal}
use apple_mail_fast_mcp.Security.Audit.{Verdict, Globals, log_operation, check_rate_limit}
use apple_mail_fast_mcp.Security.Safety.{Environ, ScriptResult, Violation, check_test_mode_safety}

-- How asking the user ended: an answer that accepts with the value that was set, any other answer, or
-- an exception.
pub data Elicited : Type 0 where
  accepted : Bool → Elicited
  not_accepted elicitation_failed : Elicited

-- What the client's context allows. By the newer protocol it carries the state of the request and the
-- answers by their keys, where an answer is whether it accepts with `confirm` true; by the older one
-- the user is asked.
pub data Context : Type 0 where
  with_responses : Option Text → List (Text × Bool) → Context
  asks : Elicited → Context

pub data Confirmation : Type 0 where
  confirmed : Confirmation
  input_required : Text → Confirmation
  confirmation_required cancelled : Confirmation

-- `responses.get(key)`
unfoldable pub response_at : Text → List (Text × Bool) → Option Bool
response_at key [] = none
response_at key ((k, a) ∷ rs) = if text_eq k key then some a else response_at key rs

unfoldable pub is_state : Text → Option Text → Bool
is_state fingerprint none = false
is_state fingerprint (some state) = text_eq state fingerprint

unfoldable pub read_response : Text → Option Bool → Confirmation
read_response fingerprint none = input_required fingerprint
read_response fingerprint (some true) = confirmed
read_response fingerprint (some false) = cancelled

module _ {P : Type 0} (fingerprint : String → P → Text → Text) where
  -- `_elicit_confirmation`, where `fingerprint` is the digest of its three arguments
  unfoldable pub elicit_confirmation :
      String → Option Context → Text → String → P → Globals P → Confirmation × Globals P
  unfolding read_response response_at is_state
  elicit_confirmation now none summary operation params g = (
    confirmation_required,
    record g { log = log_operation now operation params "confirmation_required" g.log },
  )
  elicit_confirmation now (some (with_responses state responses)) summary operation params g =
      let f = fingerprint operation params summary in
      let response = response_at (codes "confirm_" ++ f) responses in
      (if is_state f state then read_response f response else input_required f, g)
  elicit_confirmation now (some (asks (accepted true))) summary operation params g = (confirmed, g)
  elicit_confirmation now (some (asks (accepted false))) summary operation params g =
      (cancelled, record g { log = log_operation now operation params "cancelled" g.log })
  elicit_confirmation now (some (asks not_accepted)) summary operation params g =
      (cancelled, record g { log = log_operation now operation params "cancelled" g.log })
  elicit_confirmation now (some (asks elicitation_failed)) summary operation params g = (
    confirmation_required,
    record g { log = log_operation now operation params "confirmation_unavailable" g.log },
  )

-- How the connector's call ended: it deleted as many messages, or raised one of the exceptions.
pub data DeleteError : Type 0 where
  value_error message_not_found imap_required other_error : DeleteError

pub data Deletion : Type 0 where
  deleted : ℕ → Deletion
  raised : DeleteError → Deletion

-- The answers of the tool, by their errors' kinds.
pub data Response : Type 0 where
  nothing_to_delete needs_scope too_many : Response
  violation : Violation → Response
  rate_limited : ℕ → ℕ → String → Response
  unconfirmed : Confirmation → Response
  success : ℕ → Response
  failure : DeleteError → Response

-- The value of the answer's key `success`
unfoldable pub reports_success : Response → Bool
reports_success nothing_to_delete = true
reports_success (success n) = true
reports_success _ = false

-- What the tool calls and reads: the environment, the digest, the arguments of the log,
-- and the connector.
pub record Services (P W : Type 0) : Type 0 where
  pub unicode : Unicode
  pub environ : Environ
  pub script : Text → ScriptResult
  pub as_parameters : Violation → P
  pub count_parameters : ℕ → P
  pub delete_parameters : ℕ → Option Text → Option Text → Bool → P
  pub fingerprint : String → P → Text → Text
  pub mail_delete_messages : List Text → Bool → Option Text → Option Text → W → Deletion × W

-- The readings of the clock, and their printed forms.
pub record Times : Type 0 where
  pub time : ℕ
  pub safety_now : String
  pub rate_now : String
  pub confirm_now : String
  pub done_now : String

pub record Request : Type 0 where
  pub message_ids : List Text
  pub permanent : Bool
  pub account : Option Text
  pub source_mailbox : Option Text
  pub context : Option Context

unfoldable pub location : Option Text → Option Text → Text
location (some account) (some mailbox) =
    if is_empty account || is_empty mailbox
    then codes "across all mailboxes"
    else account ++ codes "/" ++ mailbox
location _ _ = codes "across all mailboxes"

abbrev pub lacks_scope : Option Text → Option Text → Bool
lacks_scope (some account) (some mailbox) = false
lacks_scope _ _ = true

module _ {P W : Type 0} (services : Services P W) (times : Times) (request : Request) where
  abbrev pub delete_count : ℕ
  delete_count = length request.message_ids

  unfoldable pub summary : Text
  unfolding location
  summary =
      let n = decimal delete_count in
      let place = location request.account request.source_mailbox in
      if request.permanent
      then codes "Permanently delete "
        ++ n
        ++ codes " message(s) from "
        ++ place
        ++ codes "?\n\nThis cannot be undone."
      else codes "Move "
        ++ n
        ++ codes " message(s) to Trash from "
        ++ place
        ++ codes "?\n\nRecoverable from the account's Trash until that mailbox is emptied."

  abbrev pub logged_parameters : ℕ → P
  logged_parameters n =
      services.delete_parameters n request.account request.source_mailbox request.permanent

  -- The gate of the test mode, which is asked where there is an account.
  unfoldable pub safety_gate : Globals P → Option Violation × Globals P
  safety_gate g = elim request.account [
    | none ↦ (none, g)
    | some account ↦
        let (v, log) =
          check_test_mode_safety services.as_parameters services.unicode services.environ
            services.script times.safety_now "delete_messages" (some account) none none g.log in
        (v, record g { log = log })
  ]

  abbrev pub rate_gate : Globals P → Verdict × Globals P
  rate_gate =
      check_rate_limit times.time times.rate_now "delete_messages"
        (services.count_parameters delete_count)

  abbrev pub confirmation : Globals P → Confirmation × Globals P
  confirmation =
      elicit_confirmation services.fingerprint times.confirm_now request.context summary
        "delete_messages" (logged_parameters delete_count)

  -- The connector's call and what is made of its end.
  unfoldable pub answer_deletion : Deletion × W → Globals P → Response × Globals P × W
  answer_deletion (deleted n, w) g = (
    success n,
    record g {
      log = log_operation times.done_now "delete_messages" (logged_parameters n) "success" g.log;
    },
    w,
  )
  answer_deletion (raised e, w) g = (failure e, g, w)

  abbrev pub connector_call : W → Deletion × W
  connector_call =
      services.mail_delete_messages request.message_ids request.permanent request.account
        request.source_mailbox

  unfoldable pub after_confirmation : Confirmation × Globals P → W → Response × Globals P × W
  unfolding answer_deletion
  after_confirmation (confirmed, g) w = answer_deletion (connector_call w) g
  after_confirmation (input_required f, g) w = (unconfirmed (input_required f), g, w)
  after_confirmation (confirmation_required, g) w = (unconfirmed confirmation_required, g, w)
  after_confirmation (cancelled, g) w = (unconfirmed cancelled, g, w)

  unfoldable pub after_rate : Verdict × Globals P → W → Response × Globals P × W
  unfolding after_confirmation
  after_rate (Verdict.limited calls window tier, g) w = (rate_limited calls window tier, g, w)
  after_rate (Verdict.key_error, g) w = (failure other_error, g, w)
  after_rate (Verdict.allowed, g) w =
      if ltb 100 delete_count then (too_many, g, w) else after_confirmation (confirmation g) w

  unfoldable pub after_safety : Option Violation × Globals P → W → Response × Globals P × W
  unfolding after_rate
  after_safety (some v, g) w = (violation v, g, w)
  after_safety (none, g) w = after_rate (rate_gate g) w

  -- The tool `delete_messages`.
  unfoldable pub delete_messages_tool : Globals P → W → Response × Globals P × W
  unfolding after_safety safety_gate
  delete_messages_tool g w =
      if is_empty request.message_ids
      then (nothing_to_delete, g, w)
      else if request.permanent && lacks_scope request.account request.source_mailbox
      then (needs_scope, g, w)
      else after_safety (safety_gate g) w
