-- ===== src/Credential/Protocol/AutoAccept.antt =====
-- `shouldAutoRespondToProposal`, `-Offer`, `-Request` and `-Credential` of V2CredentialProtocol.ts,
-- and the `find...Message` methods that they use.
pub mod Laws
pub mod Approval
use test_lib.Common.{String, Bool, true, false, Option, none, some, List, [], ◌∷◌, is_defined, ◌||◌}
use test_lib.Exec.{Exec, pure, lift, ◌>>=◌}
use test_lib.Message.{
  AgentMessage, PreviewAttribute, propose_credential, offer_credential, request_credential,
  issue_credential,
}
use test_lib.Storage.DidComm
use test_lib.Exchange.AutoAccept.{all_respond, if_found}
use test_lib.Storage.DidComm.{Stores}
use test_lib.Credential.Record.{
  CredentialExchangeRecord, AutoAcceptCredential, always, content_approved, never,
  compose_auto_accept,
}
use test_lib.Credential.Preview.{are_preview_attributes_equal}
use test_lib.Credential.Format.{CredentialFormatService}
use test_lib.Credential.Coordinator.Attachments.{get_attachment_for_service}
use test_lib.Credential.Coordinator.Build.{on_rest}
use test_lib.Credential.Coordinator.Accept.{attachment_if_sent}
use test_lib.Credential.Protocol.Base.{Config}
use test_lib.Credential.Protocol.Formats.{get_format_services_from_message}

-- `a?.attributes ?? []`
abbrev pub attributes_or_empty : Option (List PreviewAttribute) → List PreviewAttribute
attributes_or_empty none = []
attributes_or_empty (some attributes) = attributes

-- `if (!responded) return false`, before the previews
abbrev pub and_then : Bool → Bool → Bool
and_then true b = b
and_then false b = false

-- the end of `shouldAutoRespondToProposal`: the previews of the proposal and of the offer
unfoldable pub previews_agree_on_proposal :
    Option (List PreviewAttribute) → Option (List PreviewAttribute) → Bool
previews_agree_on_proposal none none = true
previews_agree_on_proposal (some proposed) (some offered) =
    are_preview_attributes_equal proposed offered
previews_agree_on_proposal _ _ = false

-- the end of `shouldAutoRespondToOffer`
unfoldable pub previews_agree_on_offer :
    Option (List PreviewAttribute) → Option (List PreviewAttribute) → Bool
previews_agree_on_offer none none = true
previews_agree_on_offer proposed offered =
    are_preview_attributes_equal (attributes_or_empty proposed) (attributes_or_empty offered)

module _ {MS X : Type 0} where
  -- the bodies of the loops: one format service is asked about its attachments
  unfoldable pub ask_on_proposal :
      CredentialExchangeRecord
      → AgentMessage
      → AgentMessage
      → CredentialFormatService X
      → Exec (Stores MS X) Bool
  ask_on_proposal r proposal offer service = do
    offer_attachment ← lift (get_attachment_for_service service offer.formats offer.attachments)
    proposal_attachment ←
        lift (get_attachment_for_service service proposal.formats proposal.attachments)
    on_rest (service.should_auto_respond_to_proposal r offer_attachment proposal_attachment)

  unfoldable pub ask_on_offer :
      CredentialExchangeRecord
      → AgentMessage
      → AgentMessage
      → CredentialFormatService X
      → Exec (Stores MS X) Bool
  ask_on_offer r offer proposal service = do
    offer_attachment ← lift (get_attachment_for_service service offer.formats offer.attachments)
    proposal_attachment ←
        lift (get_attachment_for_service service proposal.formats proposal.attachments)
    on_rest (service.should_auto_respond_to_offer r offer_attachment proposal_attachment)

  unfoldable pub ask_on_request :
      CredentialExchangeRecord
      → AgentMessage
      → Option AgentMessage
      → AgentMessage
      → CredentialFormatService X
      → Exec (Stores MS X) Bool
  ask_on_request r request proposal offer service = do
    offer_attachment ← lift (get_attachment_for_service service offer.formats offer.attachments)
    proposal_attachment ← lift (attachment_if_sent service proposal)
    request_attachment ←
        lift (get_attachment_for_service service request.formats request.attachments)
    on_rest (
        service.should_auto_respond_to_request r offer_attachment request_attachment
          proposal_attachment)

  unfoldable pub ask_on_credential :
      CredentialExchangeRecord
      → AgentMessage
      → Option AgentMessage
      → Option AgentMessage
      → AgentMessage
      → CredentialFormatService X
      → Exec (Stores MS X) Bool
  ask_on_credential r credential proposal offer request service = do
    offer_attachment ← lift (attachment_if_sent service offer)
    proposal_attachment ← lift (attachment_if_sent service proposal)
    request_attachment ←
        lift (get_attachment_for_service service request.formats request.attachments)
    credential_attachment ←
        lift (get_attachment_for_service service credential.formats credential.attachments)
    on_rest (
        service.should_auto_respond_to_credential r offer_attachment credential_attachment
          request_attachment proposal_attachment)

  -- the always and never cases, and the comparison of the contents
  abbrev pub by_auto_accept :
      AutoAcceptCredential → Exec (Stores MS X) Bool → Exec (Stores MS X) Bool
  by_auto_accept always compare = pure true
  by_auto_accept never compare = pure false
  by_auto_accept content_approved compare = compare

module _ {CS MS X : Type 0} (config : Config CS MS X) where
  open config use {externals, credential_formats, auto_accept_credentials}

  unfoldable pub find_proposal_message : String → Exec (Stores MS X) (Option AgentMessage)
  find_proposal_message id = DidComm.find_agent_message externals id propose_credential

  unfoldable pub find_offer_message : String → Exec (Stores MS X) (Option AgentMessage)
  find_offer_message id = DidComm.find_agent_message externals id offer_credential

  unfoldable pub find_request_message : String → Exec (Stores MS X) (Option AgentMessage)
  find_request_message id = DidComm.find_agent_message externals id request_credential

  unfoldable pub find_credential_message : String → Exec (Stores MS X) (Option AgentMessage)
  find_credential_message id = DidComm.find_agent_message externals id issue_credential

  unfoldable pub compare_proposal :
      CredentialExchangeRecord → AgentMessage → AgentMessage → Exec (Stores MS X) Bool
  compare_proposal r proposal offer = do
    responded ←
        all_respond (ask_on_proposal r proposal offer)
          (get_format_services_from_message credential_formats offer.formats)
    pure (
        and_then responded
          (previews_agree_on_proposal proposal.credential_preview offer.credential_preview))

  unfoldable pub should_auto_respond_to_proposal :
      CredentialExchangeRecord → AgentMessage → Exec (Stores MS X) Bool
  should_auto_respond_to_proposal r proposal =
      by_auto_accept (compose_auto_accept r.auto_accept_credential auto_accept_credentials)
        do found ← find_offer_message r.id; if_found found (compare_proposal r proposal)

  unfoldable pub compare_offer :
      CredentialExchangeRecord → AgentMessage → AgentMessage → Exec (Stores MS X) Bool
  compare_offer r offer proposal = do
    responded ←
        all_respond (ask_on_offer r offer proposal)
          (get_format_services_from_message credential_formats proposal.formats)
    pure (
        and_then responded
          (previews_agree_on_offer proposal.credential_preview offer.credential_preview))

  unfoldable pub should_auto_respond_to_offer :
      CredentialExchangeRecord → AgentMessage → Exec (Stores MS X) Bool
  should_auto_respond_to_offer r offer =
      by_auto_accept (compose_auto_accept r.auto_accept_credential auto_accept_credentials)
        do found ← find_proposal_message r.id; if_found found (compare_offer r offer)

  unfoldable pub compare_request :
      CredentialExchangeRecord
      → AgentMessage
      → Option AgentMessage
      → AgentMessage
      → Exec (Stores MS X) Bool
  compare_request r request proposal offer =
      all_respond (ask_on_request r request proposal offer)
        (get_format_services_from_message credential_formats offer.formats)

  unfoldable pub should_auto_respond_to_request :
      CredentialExchangeRecord → AgentMessage → Exec (Stores MS X) Bool
  should_auto_respond_to_request r request =
      by_auto_accept (compose_auto_accept r.auto_accept_credential auto_accept_credentials) do
        proposal ← find_proposal_message r.id
        found ← find_offer_message r.id
        if_found found (compare_request r request proposal)

  unfoldable pub compare_credential :
      CredentialExchangeRecord
      → AgentMessage
      → Option AgentMessage
      → Option AgentMessage
      → AgentMessage
      → Exec (Stores MS X) Bool
  compare_credential r credential proposal offer request =
      all_respond (ask_on_credential r credential proposal offer request)
        (get_format_services_from_message credential_formats request.formats)

  unfoldable pub should_auto_respond_to_credential :
      CredentialExchangeRecord → AgentMessage → Exec (Stores MS X) Bool
  should_auto_respond_to_credential r credential =
      by_auto_accept (compose_auto_accept r.auto_accept_credential auto_accept_credentials) do
        proposal ← find_proposal_message r.id
        offer ← find_offer_message r.id
        found ← find_request_message r.id
        if_found found (compare_credential r credential proposal offer)
