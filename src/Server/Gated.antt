-- ===== src/Server/Gated.antt =====
-- No message is deleted that the gates and the user have not let through.
use apple_mail_fast_mcp.Base.{
  ◌≤◌, String, ◌≡◌, refl, ap, ◌⊎◌, inl, inr, Bool, true, false, ◌&&◌, Option, none, some, ◌++◌,
  arith, ltb, is_empty, Bool-cases, if◌then◌else◌,
}
use apple_mail_fast_mcp.Text.{Text, codes}
use apple_mail_fast_mcp.Text.Search.{text_eq→eq}
use apple_mail_fast_mcp.Security.Audit.{Verdict, Globals}
use apple_mail_fast_mcp.Security.Safety.{Violation}
use apple_mail_fast_mcp.Server.{
  accepted, not_accepted, elicitation_failed, Context, with_responses, asks, Confirmation,
  confirmed, input_required, confirmation_required, cancelled, response_at, is_state, read_response,
  elicit_confirmation, Services, Times, Request, Response, summary, lacks_scope, delete_count,
  logged_parameters, safety_gate, rate_gate, confirmation, nothing_to_delete, reports_success,
  answer_deletion, connector_call, after_confirmation, after_rate, after_safety,
  delete_messages_tool,
}

-- The user was asked and said yes, or the request carries their yes to this question.
abbrev pub IsAffirmed : Option Context → Text → Type 0
IsAffirmed none f = ⊥
IsAffirmed (some (asks e)) f = e ≡ accepted true
IsAffirmed (some (with_responses state responses)) f =
    (state ≡ some f) × (response_at (codes "confirm_" ++ f) responses ≡ some true)

is_state-eq : (f : Text) (state : Option Text) → is_state f state ≡ true → state ≡ some f
unfolding is_state
is_state-eq f none h = cc
is_state-eq f (some state) h = ap some (text_eq→eq state f h)

read_response-confirmed :
    (f : Text) (r : Option Bool) → read_response f r ≡ confirmed → r ≡ some true
unfolding read_response
read_response-confirmed f none h = cc
read_response-confirmed f (some true) h = refl
read_response-confirmed f (some false) h = cc

with_state-confirmed :
    (b : Bool) (f : Text) (r : Option Bool)
    → (if b then read_response f r else input_required f) ≡ confirmed
    → (b ≡ true) × (r ≡ some true)
with_state-confirmed true f r h = (refl, read_response-confirmed f r h)
with_state-confirmed false f r h = cc

elicit_confirmation-IsAffirmed :
    {P : Type 0} (fingerprint : String → P → Text → Text) (now : String) (c : Option Context)
    (question : Text) (operation : String) (params : P) (g : Globals P)
    → (elicit_confirmation fingerprint now c question operation params g).0 ≡ confirmed
    → IsAffirmed c (fingerprint operation params question)
unfolding elicit_confirmation
elicit_confirmation-IsAffirmed fingerprint now none question operation params g h = cc
elicit_confirmation-IsAffirmed fingerprint now (some (with_responses state responses)) question
      operation params g h =
    let f = fingerprint operation params question in
    let (same, said) =
      with_state-confirmed (is_state f state) f (response_at (codes "confirm_" ++ f) responses) h in
    (is_state-eq f state same, said)
elicit_confirmation-IsAffirmed fingerprint now (some (asks (accepted true))) question operation
      params g h =
    refl
elicit_confirmation-IsAffirmed fingerprint now (some (asks (accepted false))) question operation
      params g h =
    cc
elicit_confirmation-IsAffirmed fingerprint now (some (asks not_accepted)) question operation params
      g h =
    cc
elicit_confirmation-IsAffirmed fingerprint now (some (asks elicitation_failed)) question operation
      params g h =
    cc

module _ {P W : Type 0} (services : Services P W) (times : Times) (request : Request) where
  -- The mail is as it was, and the answer reports no success.
  abbrev pub IsRefused : W → Response × Globals P × W → Type 0
  IsRefused w result = (result.2 ≡ w) × (reports_success result.0 ≡ false)

  abbrev call_result : W → Globals P → Response × Globals P × W
  call_result w g =
      answer_deletion services times request (connector_call services times request w) g

  after_confirmation-cases :
      (c : Confirmation × Globals P) (w : W)
      → IsRefused w (after_confirmation services times request c w)
        ⊎ ((c.0 ≡ confirmed) × (after_confirmation services times request c w ≡ call_result w c.1))
  unfolding after_confirmation reports_success
  after_confirmation-cases (confirmed, g) w = inr (refl, refl)
  after_confirmation-cases (input_required f, g) w = inl (refl, refl)
  after_confirmation-cases (confirmation_required, g) w = inl (refl, refl)
  after_confirmation-cases (cancelled, g) w = inl (refl, refl)

  after_rate-cases :
      (v : Verdict × Globals P) (w : W)
      → IsRefused w (after_rate services times request v w)
        ⊎ ((v.0 ≡ Verdict.allowed)
            × (ltb 100 (delete_count services times request) ≡ false)
            × ((confirmation services times request v.1).0 ≡ confirmed)
            × (after_rate services times request v w
                ≡ call_result w (confirmation services times request v.1).1))
  unfolding after_rate reports_success
  after_rate-cases (Verdict.limited calls window tier, g) w = inl (refl, refl)
  after_rate-cases (Verdict.key_error, g) w = inl (refl, refl)
  after_rate-cases (Verdict.allowed, g) w =
      elim (Bool-cases (ltb 100 (delete_count services times request))) [
        | inl many ↦ inl (rw many (refl, refl))
        | inr few ↦ elim (after_confirmation-cases (confirmation services times request g) w) [
          | inl kept ↦ inl (rw few kept)
          | inr (c, same) ↦ inr (refl, few, c, rw few same)
        ]
      ]

  -- Every gate let the request through, and the answer is what the connector's call gave.
  pub record IsAdmitted (g : Globals P) (w : W) (result : Response × Globals P × W) : Type 0 where
    pub asks_some : is_empty request.message_ids ≡ false
    pub count_bound : delete_count services times request ≤ 100
    pub has_scope :
        (request.permanent && lacks_scope request.account request.source_mailbox) ≡ false
    pub is_safe : (safety_gate services times request g).0 ≡ none
    pub is_allowed :
        (rate_gate services times request (safety_gate services times request g).1).0
        ≡ Verdict.allowed
    pub is_affirmed : IsAffirmed request.context (
        services.fingerprint "delete_messages"
          (logged_parameters services times request (delete_count services times request))
          (summary services times request))
    pub globals : Globals P
    pub is_called :
        result
        ≡ answer_deletion services times request (connector_call services times request w) globals

  after_safety-cases :
      (v : Option Violation × Globals P) (w : W)
      → IsRefused w (after_safety services times request v w)
        ⊎ ((v.0 ≡ none)
            × ((rate_gate services times request v.1).0 ≡ Verdict.allowed)
            × (ltb 100 (delete_count services times request) ≡ false)
            × ((confirmation services times request (rate_gate services times request v.1).1).0
                ≡ confirmed)
            × (after_safety services times request v w
                ≡ call_result w
                    (confirmation services times request
                      (rate_gate services times request v.1).1).1))
  unfolding after_safety reports_success
  after_safety-cases (some e, g) w = inl (refl, refl)
  after_safety-cases (none, g) w = elim (after_rate-cases (rate_gate services times request g) w) [
    | inl kept ↦ inl kept
    | inr (allowed, few, ok, same) ↦ inr (refl, allowed, few, ok, same)
  ]

  -- There was nothing to delete: the answer says so, and nothing changes, the log and the limits
  -- included.
  abbrev pub IsIdle : Globals P → W → Response × Globals P × W → Type 0
  IsIdle g w result = (is_empty request.message_ids ≡ true) × (result ≡ (nothing_to_delete, g, w))

  -- A call of the tool `delete_messages` has no message and changes nothing, which it reports as a
  -- success with the count 0; or it leaves the mail as it was and reports no success; or it calls the
  -- connector once, with the arguments that it was given, and answers by how that ended. Then there is a message, there are at most a hundred, a permanent deletion names its account and
  -- mailbox, both gates let the call through, and the user has affirmed the question, which has the
  -- number and the place of the messages.
  pub delete_messages_tool-IsAdmitted :
      (g : Globals P) (w : W)
      → IsIdle g w (delete_messages_tool services times request g w)
        ⊎ IsRefused w (delete_messages_tool services times request g w)
        ⊎ IsAdmitted g w (delete_messages_tool services times request g w)
  unfolding delete_messages_tool reports_success
  delete_messages_tool-IsAdmitted g w = elim (Bool-cases (is_empty request.message_ids)) [
    | inl e ↦ inl (e, rw e refl)
    | inr e ↦
        elim (Bool-cases
          (request.permanent && lacks_scope request.account request.source_mailbox)) [
            | inl s ↦ inr (inl (rw (e, s) (refl, refl)))
            | inr s ↦ elim (after_safety-cases (safety_gate services times request g) w) [
              | inl kept ↦ inr (inl (rw (e, s) kept))
              | inr (safe, allowed, few, ok, same) ↦ inr (
                  inr (record {
                    asks_some = e;
                    count_bound = ground (arith);
                    has_scope = s;
                    is_safe = safe;
                    is_allowed = allowed;
                    is_affirmed =
                        elicit_confirmation-IsAffirmed services.fingerprint times.confirm_now
                          request.context _ _ _ _ ok;
                    globals =
                        (confirmation services times request
                          (rate_gate services times request
                            (safety_gate services times request g).1).1).1;
                    is_called = rw (e, s) same;
                  }))
            ]
          ]
  ]
