-- ===== src/Proof/Protocol/Transitions/Sent.antt =====
-- The methods that answer the user move an exchange along the transitions of the protocol only.
use test_lib.Common.{String, Option}
use test_lib.Connection.Record.{ConnectionRecord}
use test_lib.Exchange.Effect.{HasEffect-bind, HasEffect-update_pair, HasEffect-save_pair}
use test_lib.Proof.Record.{ProofExchangeRecord, new_record}
use test_lib.Proof.Format.{ProofPayload}
use test_lib.Proof.Protocol.Base.{Config}
use test_lib.Proof.Protocol.Effect.{HasEffect, HasEffect-assert_state}
use test_lib.Proof.Protocol.Quiet.{quiet_rules}
use test_lib.Proof.Protocol.Proposal
use test_lib.Proof.Protocol.Proposal.{SendOptions}
use test_lib.Proof.Protocol.Request
use test_lib.Proof.Protocol.Presentation
use test_lib.Proof.Protocol.Transitions.{
  Transition, send_proposal, send_request, request_on_proposal, proposal_on_request, present,
  send_ack, record_of,
}

module _ {PS MS X : Type 0} (config : Config PS MS X) where
  pub create_proposal-HasEffect :
      (connection : ConnectionRecord) (payload : ProofPayload) (parent_thread : Option String)
      (options : SendOptions)
      → HasEffect config Transition record_of
          (Proposal.create_proposal config connection payload parent_thread options)
  unfolding Proposal.create_proposal new_record
  create_proposal-HasEffect connection payload parent_thread options =
      HasEffect-bind _ _ (search quiet_rules) λ _. HasEffect-bind _ _ (search quiet_rules) λ _.
        HasEffect-bind _ _ (search quiet_rules)
          λ _. HasEffect-bind _ _ (search quiet_rules) λ _. HasEffect-save_pair _ _ send_proposal

  pub create_request-HasEffect :
      (connection : Option ConnectionRecord) (payload : ProofPayload)
      (parent_thread : Option String) (options : SendOptions)
      → HasEffect config Transition record_of
          (Request.create_request config connection payload parent_thread options)
  unfolding Request.create_request new_record
  create_request-HasEffect connection payload parent_thread options =
      HasEffect-bind _ _ (search quiet_rules) λ _. HasEffect-bind _ _ (search quiet_rules) λ _.
        HasEffect-bind _ _ (search quiet_rules)
          λ _. HasEffect-bind _ _ (search quiet_rules) λ _. HasEffect-save_pair _ _ send_request

  pub accept_proposal-HasEffect :
      (r : ProofExchangeRecord) (payload : Option ProofPayload) (options : SendOptions)
      → HasEffect config Transition record_of (Proposal.accept_proposal config r payload options)
  unfolding Proposal.accept_proposal
  accept_proposal-HasEffect r payload options = HasEffect-bind _ _ (search quiet_rules) λ _.
      HasEffect-assert_state _ r _ λ at. HasEffect-bind _ _ (search quiet_rules) λ _.
        HasEffect-bind _ _ (search quiet_rules)
          λ _. HasEffect-update_pair _ _ _ at request_on_proposal

  pub accept_request-HasEffect :
      (r : ProofExchangeRecord) (payload : Option ProofPayload) (options : SendOptions)
      → HasEffect config Transition record_of (Request.accept_request config r payload options)
  unfolding Request.accept_request
  accept_request-HasEffect r payload options = HasEffect-bind _ _ (search quiet_rules) λ _.
      HasEffect-assert_state _ r _ λ at.
        HasEffect-bind _ _ (search quiet_rules)
          λ _. HasEffect-bind _ _ (search quiet_rules) λ _. HasEffect-update_pair _ _ _ at present

  pub negotiate_proposal-HasEffect :
      (r : ProofExchangeRecord) (payload : ProofPayload) (options : SendOptions)
      → HasEffect config Transition record_of (Proposal.negotiate_proposal config r payload options)
  unfolding Proposal.negotiate_proposal
  negotiate_proposal-HasEffect r payload options = HasEffect-bind _ _ (search quiet_rules) λ _.
      HasEffect-assert_state _ r _ λ at. HasEffect-bind _ _ (search quiet_rules) λ _.
        HasEffect-bind _ _ (search quiet_rules) λ _.
          HasEffect-bind _ _ (search quiet_rules)
            λ _. HasEffect-update_pair _ _ _ at request_on_proposal

  pub negotiate_request-HasEffect :
      (r : ProofExchangeRecord) (payload : ProofPayload) (options : SendOptions)
      → HasEffect config Transition record_of (Request.negotiate_request config r payload options)
  unfolding Request.negotiate_request
  negotiate_request-HasEffect r payload options = HasEffect-bind _ _ (search quiet_rules) λ _.
      HasEffect-assert_state _ r _ λ at. HasEffect-bind _ _ (search quiet_rules) λ _.
        HasEffect-bind _ _ (search quiet_rules) λ _.
          HasEffect-bind _ _ (search quiet_rules)
            λ _. HasEffect-update_pair _ _ _ at proposal_on_request

  pub accept_presentation-HasEffect :
      (r : ProofExchangeRecord)
      → HasEffect config Transition record_of (Presentation.accept_presentation config r)
  unfolding Presentation.accept_presentation
  accept_presentation-HasEffect r = HasEffect-bind _ _ (search quiet_rules) λ _.
      HasEffect-assert_state _ r _ λ at. HasEffect-bind _ _ (search quiet_rules) λ _.
        HasEffect-bind _ _ (search quiet_rules)
          λ _. HasEffect-bind _ _ (search quiet_rules) λ _. HasEffect-update_pair _ _ _ at send_ack
