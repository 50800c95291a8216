-- ===== src/Server/Tests.antt =====
-- The theorem on the tool at concrete requests.
use apple_mail_fast_mcp.Base.{ℕ, suc, ◌⊎◌, true, none, some, [], ◌∷◌}
use apple_mail_fast_mcp.Text.{Unicode, codes}
use apple_mail_fast_mcp.Security.RateLimit.{init}
use apple_mail_fast_mcp.Security.Audit.{Globals}
use apple_mail_fast_mcp.Security.Safety.{ScriptResult}
use apple_mail_fast_mcp.Server.{
  accepted, asks, Services, Times, Request, deleted, delete_messages_tool,
}
use apple_mail_fast_mcp.Server.Gated.{
  IsIdle, IsRefused, IsAdmitted, delete_messages_tool-IsAdmitted,
}

abbrev ascii : Unicode
ascii = record { lower_at = λ before c after. c ∷ [] }

-- The mail is the number of messages that were deleted.
abbrev services : Services ℕ ℕ
services = record {
  unicode = ascii;
  environ = λ name. none;
  script = λ account. ScriptResult.not_run;
  as_parameters = λ v. 0;
  count_parameters = λ n. n;
  delete_parameters = λ n account mailbox permanent. n;
  fingerprint = λ operation params summary. summary;
  mail_delete_messages = λ ids permanent account mailbox w. (deleted 1, suc w);
}

abbrev times : Times
times = record { time = 5; safety_now = "a"; rate_now = "b"; confirm_now = "c"; done_now = "d" }

abbrev request : Request
request = record {
  message_ids = codes "12345" ∷ [];
  permanent = true;
  account = some (codes "Work");
  source_mailbox = some (codes "INBOX");
  context = some (asks (accepted true));
}

abbrev fresh : Globals ℕ
fresh = record { windows = init; log = [] }

delete_messages_tool-IsAdmitted_example :
    IsIdle services times request fresh 0 (delete_messages_tool services times request fresh 0)
    ⊎ IsRefused services times request 0 (delete_messages_tool services times request fresh 0)
    ⊎ IsAdmitted services times request fresh 0
        (delete_messages_tool services times request fresh 0)
delete_messages_tool-IsAdmitted_example =
    delete_messages_tool-IsAdmitted services times request fresh 0
