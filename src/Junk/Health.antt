-- ===== src/Junk/Health.antt =====
-- `check_provider_health` of junk_health.py: it checks each provider, and notifies of changes alone.
pub mod Transitions
use apple_mail_fast_mcp.Base.{
  ℕ, Bool, true, false, not, ◌&&◌, ◌||◌, Option, none, some, List, [], ◌∷◌, ltb, ◌==◌, is_empty,
  take, if◌then◌else◌,
}
use apple_mail_fast_mcp.Text.{Text, text_lt}
use apple_mail_fast_mcp.Junk.Campaigns.{Store, record_provider_health}
use apple_mail_fast_mcp.Junk.Cleaner.{ProviderAccount, Attempt, returned, raised, and_then}
use apple_mail_fast_mcp.Junk.Cleaner.Run.{State}

-- How `_check_account` ended: it returned, it raised one of the exceptions that are caught, with its
-- text, or another one.
pub data HealthCheck : Type 0 where
  passed : HealthCheck
  caught : Text → HealthCheck
  escaped : HealthCheck

pub data Transition : Type 0 where
  recovered failed : Transition

pub record HealthResult : Type 0 where
  pub account : Text
  pub healthy : Bool
  pub detail : Text
  pub transition : Option Transition

-- The answer, with the accounts that `notify` was called with (those that failed, those that
-- recovered), where it was.
pub record HealthReport : Type 0 where
  pub results : List HealthResult
  pub notified : Option (List Text × List Text)

-- `sorted(providers.items())`, of which no two have one account
unfoldable pub insert_by_account :
    Text × ProviderAccount → List (Text × ProviderAccount) → List (Text × ProviderAccount)
unfolding text_lt
insert_by_account e [] = e ∷ []
insert_by_account e (f ∷ es) = if text_lt f.0 e.0 then f ∷ insert_by_account e es else e ∷ f ∷ es

unfoldable pub sorted_items : List (Text × ProviderAccount) → List (Text × ProviderAccount)
unfolding insert_by_account
sorted_items [] = []
sorted_items (e ∷ es) = insert_by_account e (sorted_items es)

-- `transitioned` and `first_failure`
unfoldable pub transition_of : Option Bool → Bool → Option Transition
transition_of none true = none
transition_of none false = some Transition.failed
transition_of (some true) true = none
transition_of (some true) false = some Transition.failed
transition_of (some false) true = some Transition.recovered
transition_of (some false) false = none

-- The accounts of `failed_transitions` and of `recovered_transitions`
unfoldable pub failed_accounts : List HealthResult → List Text
failed_accounts [] = []
failed_accounts (r ∷ rs) = elim r.transition [
  | none ↦ failed_accounts rs
  | some t ↦ elim t [ recovered ↦ failed_accounts rs | failed ↦ r.account ∷ failed_accounts rs ]
]

unfoldable pub recovered_accounts : List HealthResult → List Text
recovered_accounts [] = []
recovered_accounts (r ∷ rs) = elim r.transition [
  | none ↦ recovered_accounts rs
  | some t ↦ elim t [
    | recovered ↦ r.account ∷ recovered_accounts rs
    | failed ↦ recovered_accounts rs
  ]
]

module _ {W : Type 0} (check : Text → ProviderAccount → Option Text → W → HealthCheck × W)
    (clock : W → ℕ) (mailbox_of : Text → Option Text) where
  -- The end of the loop's body: the state is recorded, and the change, if it is one, found.
  unfoldable pub record_health : Text → Bool → Text → State W → Attempt HealthResult × State W
  record_health account healthy detail s =
      let (previous, store') =
        record_provider_health (clock s.world) account healthy detail s.store in
      (
        returned (record {
          account = account;
          healthy = healthy;
          detail = detail;
          transition = transition_of previous healthy;
        }),
        record s { store = store' },
      )

  -- The body of the loop
  unfoldable pub check_one : Text × ProviderAccount → State W → Attempt HealthResult × State W
  unfolding record_health
  check_one (account, provider) s =
      let (outcome, w') = check account provider (mailbox_of account) s.world in
      let s' : State W = record s { world = w' } in
      elim outcome [
        | passed ↦ record_health account true [] s'
        | caught e ↦ record_health account false (take 500 e) s'
        | escaped ↦ (raised, s')
      ]

  -- The loop
  unfoldable pub check_all :
      List (Text × ProviderAccount) → State W → Attempt (List HealthResult) × State W
  check_all [] s = (returned [], s)
  check_all (e ∷ es) s =
      and_then (check_one e s)
        (λ r s'. and_then (check_all es s') (λ rs s''. (returned (r ∷ rs), s'')))

  -- `check_provider_health`, with a notifier or without. What a notifier raises, of the kinds that are
  -- caught, does not change the answer.
  unfoldable pub check_provider_health :
      List (Text × ProviderAccount) → Bool → State W → Attempt HealthReport × State W
  unfolding check_all failed_accounts recovered_accounts sorted_items
  check_provider_health providers has_notifier s =
      and_then (check_all (sorted_items providers) s) (λ results s'. (
        returned (record {
          results = results;
          notified =
              if has_notifier
                && (not (is_empty (failed_accounts results))
                    || not (is_empty (recovered_accounts results)))
              then some (failed_accounts results, recovered_accounts results)
              else none;
        }),
        s',
      ))
