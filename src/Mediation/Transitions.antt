-- ===== src/Mediation/Transitions.antt =====
-- The transitions of a mediation, and the effect of the methods along them.
pub mod Quiet
use test_lib.Common.{
  String, Option, none, some, ◌≡◌, refl, sym, ap, ◌∙◌, ◌==◌, eq_iff, if◌then◌else◌, ◌⊎◌, inl, inr,
}
use test_lib.Exec.{Result, Exec, ◌>>◌}
use test_lib.Connection.Record.{ConnectionRecord}
use test_lib.Connection.Inbound.{InboundMessageContext}
use test_lib.Exchange
use test_lib.Exchange.Effect.{
  of, HasEffect, HasEffect-bind, HasEffect-assert, HasEffect-update, HasEffect-save,
  HasEffect-save_pair, HasEffect-quiet_throw, Effect-of_self,
}
use test_lib.Mediation.Record.{
  MediationRecord, MediationState, requested, granted, denied, state_name, assert_state, new_record,
}
use test_lib.Mediation.Base.{World, Config, mediation_states}
use test_lib.Mediation.Mediator.{
  MediationRequestMessage, MediationGrantMessage, process_mediation_request,
}
use test_lib.Mediation.Recipient.{
  create_request, process_mediation_grant, process_mediation_deny, deny_of,
}
use test_lib.Mediation.Transitions.Quiet.{quiet_rules}

-- RFC 0211: a mediation is requested, and then granted or denied.
pub data Transition : Option MediationState → MediationState → Type 0 where
  request : Transition none requested
  grant : Transition (some requested) granted
  deny : Transition (some requested) denied

of_name : String → MediationState
of_name s = if s == "requested" then requested else if s == "granted" then granted else denied

of_name-state_name : (s : MediationState) → of_name (state_name s) ≡ s
unfolding of_name state_name
of_name-state_name requested = refl
of_name-state_name _ = refl

state_name-injective : (a b : MediationState) → state_name a ≡ state_name b → a ≡ b
state_name-injective a b e = sym (of_name-state_name a) ∙ ap of_name e ∙ of_name-state_name b

-- the methods that change the state of a record, and that write it last
pub data Operation (M : Type 0) : Type 0 where
  ask_for_mediation : ConnectionRecord → Operation M
  receive_request : InboundMessageContext MediationRequestMessage → Operation M
  receive_grant : InboundMessageContext MediationGrantMessage → Operation M
  receive_denial : InboundMessageContext M → Operation M

module _ {RS CS CQ KS KQ MS Y : Type 0} (config : Config RS CS CQ KS KQ MS Y) where
  open config use {mediation_storage}

  asserted :
      (expected : MediationState) (r : MediationRecord)
      (m : Exec (World RS CS KS MS Y) MediationRecord)
      → (r.state ≡ expected → HasEffect mediation_storage mediation_states Transition (λ r. r) m)
      → HasEffect mediation_storage mediation_states Transition
          (λ r. r)
          (assert_state expected r >> m)
  unfolding assert_state
  asserted expected r m h =
      HasEffect-assert (state_name expected == state_name r.state) _ m
        (λ e. h (sym (state_name-injective _ _ ((eq_iff _ _).0 e))))

  process_mediation_request-HasEffect :
      (context : InboundMessageContext MediationRequestMessage)
      → HasEffect mediation_storage mediation_states Transition
          (λ r. r)
          (process_mediation_request config context)
  unfolding process_mediation_request new_record
  process_mediation_request-HasEffect context =
      HasEffect-bind _ _ (search quiet_rules)
        λ _. HasEffect-bind _ _ (search quiet_rules) λ _. HasEffect-save _ request

  create_request-HasEffect :
      (connection : ConnectionRecord)
      → HasEffect mediation_storage mediation_states Transition
          (λ p. p.0)
          (create_request config connection)
  unfolding create_request new_record
  create_request-HasEffect connection = HasEffect-bind _ _ (search quiet_rules) λ _.
      HasEffect-bind _ _ (search quiet_rules)
        λ _. HasEffect-bind _ _ (search quiet_rules) λ _. HasEffect-save_pair _ _ request

  process_mediation_grant-HasEffect :
      (context : InboundMessageContext MediationGrantMessage)
      → HasEffect mediation_storage mediation_states Transition
          (λ r. r)
          (process_mediation_grant config context)
  unfolding process_mediation_grant
  process_mediation_grant-HasEffect context = HasEffect-bind _ _ (search quiet_rules) λ _.
      HasEffect-bind _ _ (search quiet_rules) λ r. asserted _ r _ λ at.
        HasEffect-bind _ _ (search quiet_rules) λ _.
          HasEffect-bind _ _ (search quiet_rules)
            λ _. HasEffect-bind _ _ (search quiet_rules) λ _. HasEffect-update _ _ at grant

  deny_of-HasEffect :
      (found : Option MediationRecord)
      → HasEffect mediation_storage mediation_states Transition (λ r. r) (deny_of config found)
  deny_of-HasEffect none = HasEffect-quiet_throw _
  deny_of-HasEffect (some r) =
      HasEffect-bind _ _ (search quiet_rules) λ _. asserted _ r _ λ at. HasEffect-update _ _ at deny

  process_mediation_deny-HasEffect :
      {M : Type 0} (context : InboundMessageContext M)
      → HasEffect mediation_storage mediation_states Transition
          (λ r. r)
          (process_mediation_deny config context)
  unfolding process_mediation_deny
  process_mediation_deny-HasEffect context =
      HasEffect-bind _ _ (search quiet_rules)
        λ _. HasEffect-bind _ _ (search quiet_rules) λ found. deny_of-HasEffect found

  abbrev pub perform : {M : Type 0} → Operation M → Exec (World RS CS KS MS Y) MediationRecord
  perform (ask_for_mediation connection) =
      λ w. let (result, w') = create_request config connection w in (of (λ p. p.0) result, w')
  perform (receive_request context) = process_mediation_request config context
  perform (receive_grant context) = process_mediation_grant config context
  perform (receive_denial context) = process_mediation_deny config context

  -- Each of these methods of the mediation is atomic towards the records and the events: it fails
  -- and leaves both as they were, or it has written the record that it returns and told of one
  -- event, of a new request, or of a request that is granted or denied.
  pub perform-Effect :
      {M : Type 0} (operation : Operation M) (w : World RS CS KS MS Y)
      → Exchange.Effect.Effect mediation_storage mediation_states Transition w
          (perform operation w).0
          (perform operation w).1
  perform-Effect (ask_for_mediation connection) w = (create_request-HasEffect connection).at w
  perform-Effect (receive_request context) w =
      Effect-of_self _ (process_mediation_request-HasEffect context) w
  perform-Effect (receive_grant context) w =
      Effect-of_self _ (process_mediation_grant-HasEffect context) w
  perform-Effect (receive_denial context) w =
      Effect-of_self _ (process_mediation_deny-HasEffect context) w
