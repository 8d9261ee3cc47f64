-- ===== src/Credential/Protocol/Transitions/Received.antt =====
-- The methods that take a message in move an exchange along the transitions of the protocol only.
use test_lib.Common.{Option, none, some, List, refl}
use test_lib.Message.{AgentMessage, AckMessage, ProblemReportMessage}
use test_lib.Connection.Inbound.{InboundMessageContext}
use test_lib.Credential.Record.{CredentialExchangeRecord, new_record}
use test_lib.Credential.Format.{CredentialFormatService}
use test_lib.Credential.Protocol.Base.{Config, process_problem_report}
use test_lib.Exchange.Effect.{HasEffect-bind, HasEffect-update, HasEffect-save}
use test_lib.Credential.Protocol.Effect.{HasEffect, HasEffect-assert_state}
use test_lib.Credential.Protocol.Quiet.{quiet_rules}
use test_lib.Credential.Protocol.Proposal
use test_lib.Credential.Protocol.Offer
use test_lib.Credential.Protocol.Request
use test_lib.Credential.Protocol.Issue
use test_lib.Credential.Protocol.Transitions.{
  Transition, receive_proposal, receive_offer, receive_request, proposal_again, offer_again,
  request_received_on_offer, receive_credential, receive_ack, abandon,
}

module _ {CS MS X : Type 0} (config : Config CS MS X) where
  pub proposal_by_record-HasEffect :
      (format_services : List (CredentialFormatService X))
      (context : InboundMessageContext AgentMessage) (existing : Option CredentialExchangeRecord)
      → HasEffect config Transition
          (λ r. r)
          (Proposal.proposal_by_record config format_services context existing)
  unfolding Proposal.proposal_on_exchange Proposal.proposal_on_new_thread new_record
  proposal_by_record-HasEffect format_services context (some r) =
      HasEffect-bind _ _ (search quiet_rules) λ _. HasEffect-bind _ _ (search quiet_rules) λ _.
        HasEffect-bind _ _ (search quiet_rules) λ _. HasEffect-assert_state _ r _ λ at.
          HasEffect-bind _ _ (search quiet_rules)
            λ _. HasEffect-bind _ _ (search quiet_rules) λ _. HasEffect-update _ _ at proposal_again
  proposal_by_record-HasEffect format_services context none =
      HasEffect-bind _ _ (search quiet_rules) λ _.
        HasEffect-bind _ _ (search quiet_rules)
          λ _. HasEffect-bind _ _ (search quiet_rules) λ _. HasEffect-save _ receive_proposal

  pub process_proposal-HasEffect :
      (context : InboundMessageContext AgentMessage)
      → HasEffect config Transition (λ r. r) (Proposal.process_proposal config context)
  unfolding Proposal.process_proposal
  process_proposal-HasEffect context = HasEffect-bind _ _ (search quiet_rules) λ existing.
      HasEffect-bind _ _ (search quiet_rules) λ _. proposal_by_record-HasEffect _ context existing

  pub offer_by_record-HasEffect :
      (format_services : List (CredentialFormatService X))
      (context : InboundMessageContext AgentMessage) (existing : Option CredentialExchangeRecord)
      → HasEffect config Transition
          (λ r. r)
          (Offer.offer_by_record config format_services context existing)
  unfolding Offer.offer_on_exchange Offer.offer_on_new_thread new_record
  offer_by_record-HasEffect format_services context (some r) =
      HasEffect-bind _ _ (search quiet_rules) λ _. HasEffect-bind _ _ (search quiet_rules) λ _.
        HasEffect-bind _ _ (search quiet_rules) λ _. HasEffect-assert_state _ r _ λ at.
          HasEffect-bind _ _ (search quiet_rules)
            λ _. HasEffect-bind _ _ (search quiet_rules) λ _. HasEffect-update _ _ at offer_again
  offer_by_record-HasEffect format_services context none =
      HasEffect-bind _ _ (search quiet_rules) λ _.
        HasEffect-bind _ _ (search quiet_rules)
          λ _. HasEffect-bind _ _ (search quiet_rules) λ _. HasEffect-save _ receive_offer

  pub process_offer-HasEffect :
      (context : InboundMessageContext AgentMessage)
      → HasEffect config Transition (λ r. r) (Offer.process_offer config context)
  unfolding Offer.process_offer
  process_offer-HasEffect context = HasEffect-bind _ _ (search quiet_rules) λ existing.
      HasEffect-bind _ _ (search quiet_rules) λ _. offer_by_record-HasEffect _ context existing

  pub request_by_record-HasEffect :
      (format_services : List (CredentialFormatService X))
      (context : InboundMessageContext AgentMessage) (existing : Option CredentialExchangeRecord)
      → HasEffect config Transition
          (λ r. r)
          (Request.request_by_record config format_services context existing)
  unfolding Request.request_on_exchange Request.request_on_new_thread new_record
  request_by_record-HasEffect format_services context (some r) =
      HasEffect-bind _ _ (search quiet_rules) λ _. HasEffect-bind _ _ (search quiet_rules) λ _.
        HasEffect-bind _ _ (search quiet_rules) λ _. HasEffect-assert_state _ r _ λ at.
          HasEffect-bind _ _ (search quiet_rules) λ _.
            HasEffect-bind _ _ (search quiet_rules)
              λ _. HasEffect-update _ _ at request_received_on_offer
  request_by_record-HasEffect format_services context none =
      HasEffect-bind _ _ (search quiet_rules) λ _.
        HasEffect-bind _ _ (search quiet_rules)
          λ _. HasEffect-bind _ _ (search quiet_rules) λ _. HasEffect-save _ receive_request

  pub process_request-HasEffect :
      (context : InboundMessageContext AgentMessage)
      → HasEffect config Transition (λ r. r) (Request.process_request config context)
  unfolding Request.process_request
  process_request-HasEffect context = HasEffect-bind _ _ (search quiet_rules) λ existing.
      HasEffect-bind _ _ (search quiet_rules) λ _. request_by_record-HasEffect _ context existing

  pub process_credential-HasEffect :
      (context : InboundMessageContext AgentMessage)
      → HasEffect config Transition (λ r. r) (Issue.process_credential config context)
  unfolding Issue.process_credential
  process_credential-HasEffect context = HasEffect-bind _ _ (search quiet_rules) λ r.
      HasEffect-bind _ _ (search quiet_rules) λ _. HasEffect-bind _ _ (search quiet_rules) λ _.
        HasEffect-bind _ _ (search quiet_rules) λ _. HasEffect-assert_state _ r _ λ at.
          HasEffect-bind _ _ (search quiet_rules) λ _. HasEffect-bind _ _ (search quiet_rules) λ _.
            HasEffect-bind _ _ (search quiet_rules) λ _. HasEffect-update _ _ at receive_credential

  pub process_ack-HasEffect :
      (context : InboundMessageContext AckMessage)
      → HasEffect config Transition (λ r. r) (Issue.process_ack config context)
  unfolding Issue.process_ack
  process_ack-HasEffect context = HasEffect-bind _ _ (search quiet_rules) λ r.
      HasEffect-bind _ _ (search quiet_rules) λ _. HasEffect-bind _ _ (search quiet_rules) λ _.
        HasEffect-bind _ _ (search quiet_rules) λ _.
          HasEffect-assert_state _ _ _
            λ at. HasEffect-bind _ _ (search quiet_rules) λ _. HasEffect-update _ _ at receive_ack

  pub process_problem_report-HasEffect :
      (context : InboundMessageContext ProblemReportMessage)
      → HasEffect config Transition (λ r. r) (process_problem_report config context)
  unfolding process_problem_report
  process_problem_report-HasEffect context =
      HasEffect-bind _ _ (search quiet_rules)
        λ _. HasEffect-bind _ _ (search quiet_rules) λ r. HasEffect-update _ _ refl abandon
