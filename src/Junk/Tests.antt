-- ===== src/Junk/Tests.antt =====
-- The theorems on the junk cleaner at concrete inputs.
use Prim.Native.Nat.{min}
use apple_mail_fast_mcp.Base.{
  ℕ, zero, suc, ◌+◌, ◌-◌, ◌≤◌, ◌≡◌, refl, Bool, true, false, ◌||◌, Option, none, some, List, [],
  ◌∷◌, arith, length, if◌then◌else◌,
}
use apple_mail_fast_mcp.Text.{Text, Unicode, codes, text_eq, text_member}
use apple_mail_fast_mcp.Junk.Campaigns.{
  Store, record_messages, auto_delete_domains, was_deleted, record_action,
}
use apple_mail_fast_mcp.Junk.Evidence.{CharClasses, MessageRow, JunkMessage}
use apple_mail_fast_mcp.Junk.Campaigns.Learned.{flags_domain, auto_delete_domains-record_messages}
use apple_mail_fast_mcp.Junk.Campaigns.Deleted.{IsKeyed, same_key, was_deleted-record_action}
use apple_mail_fast_mcp.Junk.Cleaner.{
  ProviderAccount, JunkCleanerConfig, returned, raised, Outside, message_ids, clear_junk_flags,
}
use apple_mail_fast_mcp.Junk.Cleaner.Run.{State, Inventory, fresh_result, clean_mailboxes}
use apple_mail_fast_mcp.Junk.Cleaner.Flags.{
  Unflags, clear_junk_flags_clears, clear_junk_flags_raises,
}
use apple_mail_fast_mcp.Junk.Cleaner.Budget.{clean_mailboxes_budget}
use apple_mail_fast_mcp.Junk.Cleaner.Spending.{CountsDeletions}
use apple_mail_fast_mcp.Junk.Health.{
  HealthCheck, passed, caught, HealthReport, check_provider_health,
}
use apple_mail_fast_mcp.Junk.Health.Transitions.{IsSteady, check_provider_health_again}

abbrev ascii : Unicode
ascii = record { lower_at = λ before c after. c ∷ [] }

abbrev classes : CharClasses
classes = record { is_digit = λ c. false; is_alnum = λ c. true; is_alpha = λ c. true }

abbrev address_only : Text → Text
address_only sender = sender

abbrev empty_store : Store
empty_store = record { observations = []; domains = []; actions = []; health = [] }

abbrev flagged_row : MessageRow
flagged_row = record {
  id = some (codes "7");
  rfc_message_id = some (codes "<m@x.com>");
  sender = some (codes "win@x.com");
  flagged = true;
}

abbrev rows : List MessageRow
rows = flagged_row ∷ []

auto_delete_domains-record_messages_example :
    let (evidence, store') =
      record_messages ascii address_only 5 (codes "a") (codes "Junk") rows empty_store in
    text_member (codes "x.com") (auto_delete_domains store') ≡ (
      text_member (codes "x.com") (auto_delete_domains empty_store)
      || flags_domain 5 rows (codes "x.com") evidence)
auto_delete_domains-record_messages_example =
    auto_delete_domains-record_messages ascii address_only 5 (codes "a") (codes "Junk") rows
      empty_store (codes "x.com")

abbrev junk_message : JunkMessage
junk_message = record {
  account = codes "a";
  mailbox = codes "Junk";
  connector_id = codes "7";
  rfc_message_id = codes "m@x.com";
  fingerprint = record { local_part = codes "win"; domain = codes "x.com" };
}

empty-IsKeyed : IsKeyed []
empty-IsKeyed m = omega arith

was_deleted-record_action_example :
    let store' = record_action 5 junk_message (codes "deleted") [] empty_store in
    IsKeyed store'.actions
    × ((other : JunkMessage)
        → was_deleted other store' ≡ (
            if same_key other junk_message
            then text_eq (codes "deleted") (codes "deleted")
            else was_deleted other empty_store))
was_deleted-record_action_example =
    was_deleted-record_action 5 junk_message (codes "deleted") [] empty_store empty-IsKeyed

-- A mailbox with a number of flagged messages, and a provider that deletes each message once.
record Sim : Type 0 where
  flags : ℕ
  deletions : ℕ

copies : ℕ → List MessageRow
copies zero = []
copies (suc n) = flagged_row ∷ copies n

length-copies : (n : ℕ) → length (message_ids (copies n)) ≡ n
unfolding copies message_ids
length-copies zero = refl
length-copies (suc n) = ground (arith, length-copies n)

abbrev sim : Outside Sim ℕ
sim = record {
  list_accounts = λ w. (returned [], w);
  list_mailboxes = λ account w. (returned [], w);
  search_messages = λ account mailbox w. (returned [], w);
  search_flagged = λ account mailbox w. (returned (copies (min 100 w.flags)), w);
  unflag =
      λ ids account mailbox w. (returned (length ids), record w { flags = w.flags - length ids });
  build_purger = λ provider account mailbox w. (returned 0, w);
  permanently_delete = λ purger id w. (returned 1, record w { deletions = w.deletions + 1 });
  clock = λ w. 0;
}

sim-Unflags : Unflags sim (codes "a") (codes "Junk") (λ w. w.flags)
sim-Unflags = record {
  search = λ w. (copies (min 100 w.flags), refl, length-copies (min 100 w.flags));
  update = λ ids w. (record w { flags = w.flags - length ids }, refl, refl);
}

clear_junk_flags_clears_example :
    (w' : Sim) × (clear_junk_flags sim
        (codes "a")
        (codes "Junk")
        (record { flags = 250; deletions = 0 })
      ≡ (returned 250, w'))
    × (w'.flags ≡ 0)
clear_junk_flags_clears_example =
    clear_junk_flags_clears sim (codes "a") (codes "Junk") (λ w. w.flags) sim-Unflags
      (record { flags = 250; deletions = 0 }) (omega arith)

clear_junk_flags_raises_example :
    (w' : Sim) × (clear_junk_flags sim
        (codes "a")
        (codes "Junk")
        (record { flags = 9950; deletions = 0 })
      ≡ (raised, w'))
    × (w'.flags ≡ 9950 - 10000)
clear_junk_flags_raises_example =
    clear_junk_flags_raises sim (codes "a") (codes "Junk") (λ w. w.flags) sim-Unflags
      (record { flags = 9950; deletions = 0 }) (omega arith)

sim-CountsDeletions : CountsDeletions sim (λ w. w.deletions)
sim-CountsDeletions = record { build = λ a e m w. refl; purge = λ p id w. refl }

abbrev gmail : ProviderAccount
gmail = record { kind = "gmail"; credential = codes "a" }

abbrev config : JunkCleanerConfig
config = record {
  mode = "delete";
  minimum_domains = 3;
  minimum_messages = 3;
  observation_window_days = 30;
  maximum_deletions_per_run = 25;
  provider_of = λ account. some gmail;
  providers = gmail ∷ [];
}

abbrev learned_state : State Sim
learned_state = record {
  store = (record_messages ascii address_only 5 (codes "a") (codes "Junk") rows empty_store).1;
  world = record { flags = 0; deletions = 0 };
}

abbrev one_inventory : List Inventory
one_inventory =
    record {
      result = fresh_result sim (record {
        connector_account = codes "a";
        provider_account = codes "a";
        path = codes "Junk";
      });
      junk_mailbox = record {
        connector_account = codes "a";
        provider_account = codes "a";
        path = codes "Junk";
      };
      evidence = some (junk_message ∷ []);
    }
    ∷ []

clean_mailboxes_budget_example :
    (clean_mailboxes sim classes config
      (λ account. true)
      one_inventory
      25
      learned_state).1.world.deletions
    ≤ 0 + 25
clean_mailboxes_budget_example =
    clean_mailboxes_budget sim (λ w. w.deletions) sim-CountsDeletions classes config
      (λ account. true) one_inventory 25 learned_state

abbrev observing : JunkCleanerConfig
observing = record config { mode = "observe" }

-- One account that passes its checks, and one that does not.
abbrev well : Text → Bool
well account = text_eq account (codes "a")

abbrev check : Text → ProviderAccount → Option Text → Sim → HealthCheck × Sim
check account p m w = ((if well account then passed else caught (codes "expired")), w)

check-IsSteady : IsSteady check well (λ account. codes "expired")
check-IsSteady = record { outcome = λ account p m w. refl }

abbrev two_accounts : List (Text × ProviderAccount)
two_accounts = (codes "b", gmail) ∷ (codes "a", gmail) ∷ []

check_provider_health_again_example :
    let (first, s') =
      check_provider_health check (λ w. 0) (λ account. none) two_accounts true learned_state in
    (again : HealthReport) × ((check_provider_health check
        (λ w. 0)
        (λ account. none)
        two_accounts
        true
        s').0
      ≡ returned again)
    × (again.notified ≡ none)
check_provider_health_again_example =
    check_provider_health_again check (λ w. 0) (λ account. none) well (λ account. codes "expired")
      check-IsSteady two_accounts true learned_state
