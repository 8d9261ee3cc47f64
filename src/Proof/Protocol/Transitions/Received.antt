-- ===== src/Proof/Protocol/Transitions/Received.antt =====
-- The methods that take a message in move an exchange along the transitions of the protocol only.
use test_lib.Common.{Option, none, some, List, refl}
use test_lib.Message.{AgentMessage, AckMessage, ProblemReportMessage}
use test_lib.Connection.Inbound.{InboundMessageContext}
use test_lib.Exchange.Effect.{HasEffect-bind, HasEffect-update, HasEffect-save}
use test_lib.Proof.Record.{ProofExchangeRecord, new_record}
use test_lib.Proof.Format.{ProofFormatService}
use test_lib.Proof.Protocol.Base.{Config, process_problem_report}
use test_lib.Proof.Protocol.Effect.{HasEffect, HasEffect-assert_state}
use test_lib.Proof.Protocol.Quiet.{quiet_rules}
use test_lib.Proof.Protocol.Proposal
use test_lib.Proof.Protocol.Request
use test_lib.Proof.Protocol.Presentation
use test_lib.Proof.Protocol.Transitions.{
  Transition, receive_proposal, receive_request, proposal_again, request_again,
  receive_presentation, receive_ack, abandon,
}

module _ {PS MS X : Type 0} (config : Config PS MS X) where
  proposal_by_record-HasEffect :
      (format_services : List (ProofFormatService X)) (context : InboundMessageContext AgentMessage)
      (existing : Option ProofExchangeRecord)
      → HasEffect config Transition
          (λ r. r)
          (Proposal.proposal_by_record config format_services context existing)
  unfolding Proposal.proposal_on_exchange Proposal.proposal_on_new_thread new_record
  proposal_by_record-HasEffect format_services context (some r) =
      HasEffect-bind _ _ (search quiet_rules) λ _. HasEffect-bind _ _ (search quiet_rules) λ _.
        HasEffect-bind _ _ (search quiet_rules) λ _. HasEffect-assert_state _ r _ λ at.
          HasEffect-bind _ _ (search quiet_rules)
            λ _. HasEffect-bind _ _ (search quiet_rules) λ _. HasEffect-update _ _ at proposal_again
  proposal_by_record-HasEffect format_services context none =
      HasEffect-bind _ _ (search quiet_rules) λ _.
        HasEffect-bind _ _ (search quiet_rules)
          λ _. HasEffect-bind _ _ (search quiet_rules) λ _. HasEffect-save _ receive_proposal

  pub process_proposal-HasEffect :
      (context : InboundMessageContext AgentMessage)
      → HasEffect config Transition (λ r. r) (Proposal.process_proposal config context)
  unfolding Proposal.process_proposal
  process_proposal-HasEffect context = HasEffect-bind _ _ (search quiet_rules) λ existing.
      HasEffect-bind _ _ (search quiet_rules) λ _. proposal_by_record-HasEffect _ context existing

  request_by_record-HasEffect :
      (format_services : List (ProofFormatService X)) (context : InboundMessageContext AgentMessage)
      (existing : Option ProofExchangeRecord)
      → HasEffect config Transition
          (λ r. r)
          (Request.request_by_record config format_services context existing)
  unfolding Request.request_on_exchange Request.request_on_new_thread new_record
  request_by_record-HasEffect format_services context (some r) =
      HasEffect-bind _ _ (search quiet_rules) λ _. HasEffect-bind _ _ (search quiet_rules) λ _.
        HasEffect-bind _ _ (search quiet_rules) λ _. HasEffect-assert_state _ r _ λ at.
          HasEffect-bind _ _ (search quiet_rules)
            λ _. HasEffect-bind _ _ (search quiet_rules) λ _. HasEffect-update _ _ at request_again
  request_by_record-HasEffect format_services context none =
      HasEffect-bind _ _ (search quiet_rules) λ _.
        HasEffect-bind _ _ (search quiet_rules)
          λ _. HasEffect-bind _ _ (search quiet_rules) λ _. HasEffect-save _ receive_request

  pub process_request-HasEffect :
      (context : InboundMessageContext AgentMessage)
      → HasEffect config Transition (λ r. r) (Request.process_request config context)
  unfolding Request.process_request
  process_request-HasEffect context = HasEffect-bind _ _ (search quiet_rules) λ existing.
      HasEffect-bind _ _ (search quiet_rules) λ _. request_by_record-HasEffect _ context existing

  pub process_presentation-HasEffect :
      (context : InboundMessageContext AgentMessage)
      → HasEffect config Transition (λ r. r) (Presentation.process_presentation config context)
  unfolding Presentation.process_presentation
  process_presentation-HasEffect context = HasEffect-bind _ _ (search quiet_rules) λ r.
      HasEffect-bind _ _ (search quiet_rules) λ _. HasEffect-bind _ _ (search quiet_rules) λ _.
        HasEffect-bind _ _ (search quiet_rules) λ _. HasEffect-assert_state _ r _ λ at.
          HasEffect-bind _ _ (search quiet_rules) λ _. HasEffect-bind _ _ (search quiet_rules) λ _.
            HasEffect-bind _ _ (search quiet_rules)
              λ _. HasEffect-update _ _ at receive_presentation

  pub process_ack-HasEffect :
      (context : InboundMessageContext AckMessage)
      → HasEffect config Transition (λ r. r) (Presentation.process_ack config context)
  unfolding Presentation.process_ack
  process_ack-HasEffect context = HasEffect-bind _ _ (search quiet_rules) λ r.
      HasEffect-bind _ _ (search quiet_rules) λ _. HasEffect-bind _ _ (search quiet_rules) λ _.
        HasEffect-bind _ _ (search quiet_rules) λ _.
          HasEffect-assert_state _ _ _
            λ at. HasEffect-bind _ _ (search quiet_rules) λ _. HasEffect-update _ _ at receive_ack

  pub process_problem_report-HasEffect :
      (context : InboundMessageContext ProblemReportMessage)
      → HasEffect config Transition (λ r. r) (process_problem_report config context)
  unfolding process_problem_report
  process_problem_report-HasEffect context =
      HasEffect-bind _ _ (search quiet_rules) λ r. HasEffect-update _ _ refl abandon
