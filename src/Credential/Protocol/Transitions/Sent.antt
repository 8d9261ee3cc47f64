-- ===== src/Credential/Protocol/Transitions/Sent.antt =====
-- The methods that answer the user move an exchange along the transitions of the protocol only.
use test_lib.Common.{String, Option}
use test_lib.Connection.Record.{ConnectionRecord}
use test_lib.Credential.Record.{CredentialExchangeRecord, AutoAcceptCredential, new_record}
use test_lib.Credential.Format.{FormatPayload}
use test_lib.Credential.Protocol.Base.{Config}
use test_lib.Exchange.Effect.{HasEffect-bind, HasEffect-update_pair, HasEffect-save_pair}
use test_lib.Credential.Protocol.Effect.{HasEffect, HasEffect-assert_state}
use test_lib.Credential.Protocol.Quiet.{quiet_rules}
use test_lib.Credential.Protocol.Proposal
use test_lib.Credential.Protocol.Offer
use test_lib.Credential.Protocol.Request
use test_lib.Credential.Protocol.Issue
use test_lib.Credential.Protocol.Transitions.{
  Transition, send_proposal, send_offer, send_request, offer_on_proposal, proposal_on_offer,
  request_on_offer, issue, send_ack, record_of,
}

module _ {CS MS X : Type 0} (config : Config CS MS X) where
  pub create_proposal-HasEffect :
      (connection : ConnectionRecord) (payload : FormatPayload) (comment : Option String)
      (auto_accept : Option AutoAcceptCredential)
      → HasEffect config Transition record_of
          (Proposal.create_proposal config connection payload comment auto_accept)
  unfolding Proposal.create_proposal new_record
  create_proposal-HasEffect connection payload comment auto_accept =
      HasEffect-bind _ _ (search quiet_rules) λ _. HasEffect-bind _ _ (search quiet_rules) λ _.
        HasEffect-bind _ _ (search quiet_rules)
          λ _. HasEffect-bind _ _ (search quiet_rules) λ _. HasEffect-save_pair _ _ send_proposal

  pub accept_proposal-HasEffect :
      (r : CredentialExchangeRecord) (payload : Option FormatPayload)
      (auto_accept : Option AutoAcceptCredential) (comment : Option String)
      → HasEffect config Transition record_of
          (Proposal.accept_proposal config r payload auto_accept comment)
  unfolding Proposal.accept_proposal
  accept_proposal-HasEffect r payload auto_accept comment =
      HasEffect-bind _ _ (search quiet_rules) λ _. HasEffect-assert_state _ r _ λ at.
        HasEffect-bind _ _ (search quiet_rules) λ _.
          HasEffect-bind _ _ (search quiet_rules)
            λ _. HasEffect-update_pair _ _ _ at offer_on_proposal

  pub negotiate_proposal-HasEffect :
      (r : CredentialExchangeRecord) (payload : FormatPayload)
      (auto_accept : Option AutoAcceptCredential) (comment : Option String)
      → HasEffect config Transition record_of
          (Proposal.negotiate_proposal config r payload auto_accept comment)
  unfolding Proposal.negotiate_proposal
  negotiate_proposal-HasEffect r payload auto_accept comment =
      HasEffect-bind _ _ (search quiet_rules) λ _. HasEffect-assert_state _ r _ λ at.
        HasEffect-bind _ _ (search quiet_rules) λ _. HasEffect-bind _ _ (search quiet_rules) λ _.
          HasEffect-bind _ _ (search quiet_rules)
            λ _. HasEffect-update_pair _ _ _ at offer_on_proposal

  pub create_offer-HasEffect :
      (connection : Option ConnectionRecord) (payload : FormatPayload) (comment : Option String)
      (auto_accept : Option AutoAcceptCredential)
      → HasEffect config Transition record_of
          (Offer.create_offer config connection payload comment auto_accept)
  unfolding Offer.create_offer new_record
  create_offer-HasEffect connection payload comment auto_accept =
      HasEffect-bind _ _ (search quiet_rules) λ _. HasEffect-bind _ _ (search quiet_rules) λ _.
        HasEffect-bind _ _ (search quiet_rules)
          λ _. HasEffect-bind _ _ (search quiet_rules) λ _. HasEffect-save_pair _ _ send_offer

  pub accept_offer-HasEffect :
      (r : CredentialExchangeRecord) (payload : Option FormatPayload)
      (auto_accept : Option AutoAcceptCredential) (comment : Option String)
      → HasEffect config Transition record_of
          (Offer.accept_offer config r payload auto_accept comment)
  unfolding Offer.accept_offer
  accept_offer-HasEffect r payload auto_accept comment =
      HasEffect-bind _ _ (search quiet_rules) λ _. HasEffect-assert_state _ r _ λ at.
        HasEffect-bind _ _ (search quiet_rules) λ _.
          HasEffect-bind _ _ (search quiet_rules)
            λ _. HasEffect-update_pair _ _ _ at request_on_offer

  pub negotiate_offer-HasEffect :
      (r : CredentialExchangeRecord) (payload : FormatPayload)
      (auto_accept : Option AutoAcceptCredential) (comment : Option String)
      → HasEffect config Transition record_of
          (Offer.negotiate_offer config r payload auto_accept comment)
  unfolding Offer.negotiate_offer
  negotiate_offer-HasEffect r payload auto_accept comment =
      HasEffect-bind _ _ (search quiet_rules) λ _. HasEffect-assert_state _ r _ λ at.
        HasEffect-bind _ _ (search quiet_rules) λ _. HasEffect-bind _ _ (search quiet_rules) λ _.
          HasEffect-bind _ _ (search quiet_rules)
            λ _. HasEffect-update_pair _ _ _ at proposal_on_offer

  pub create_request-HasEffect :
      (connection : ConnectionRecord) (payload : FormatPayload) (comment : Option String)
      (auto_accept : Option AutoAcceptCredential)
      → HasEffect config Transition record_of
          (Request.create_request config connection payload comment auto_accept)
  unfolding Request.create_request new_record
  create_request-HasEffect connection payload comment auto_accept =
      HasEffect-bind _ _ (search quiet_rules) λ _. HasEffect-bind _ _ (search quiet_rules) λ _.
        HasEffect-bind _ _ (search quiet_rules)
          λ _. HasEffect-bind _ _ (search quiet_rules) λ _. HasEffect-save_pair _ _ send_request

  pub accept_request-HasEffect :
      (r : CredentialExchangeRecord) (payload : Option FormatPayload)
      (auto_accept : Option AutoAcceptCredential) (comment : Option String)
      → HasEffect config Transition record_of
          (Request.accept_request config r payload auto_accept comment)
  unfolding Request.accept_request
  accept_request-HasEffect r payload auto_accept comment =
      HasEffect-bind _ _ (search quiet_rules) λ _. HasEffect-assert_state _ r _ λ at.
        HasEffect-bind _ _ (search quiet_rules)
          λ _. HasEffect-bind _ _ (search quiet_rules) λ _. HasEffect-update_pair _ _ _ at issue

  pub accept_credential-HasEffect :
      (r : CredentialExchangeRecord)
      → HasEffect config Transition record_of (Issue.accept_credential config r)
  unfolding Issue.accept_credential
  accept_credential-HasEffect r = HasEffect-bind _ _ (search quiet_rules) λ _.
      HasEffect-assert_state _ r _
        λ at. HasEffect-bind _ _ (search quiet_rules) λ _. HasEffect-update_pair _ _ _ at send_ack
