-- ===== src/Proof/Protocol/AutoAccept.antt =====
-- `shouldAutoRespondToProposal`, `-Request` and `-Presentation` of V2ProofProtocol.ts, and the
-- `find...Message` methods that they use.
pub mod Laws
use test_lib.Common.{String, Bool, true, false, Option, none, some, List}
use test_lib.Exec.{Exec, pure, lift, ◌>>=◌}
use test_lib.Message.{AgentMessage, propose_presentation, request_presentation, presentation}
use test_lib.Storage.DidComm
use test_lib.Storage.DidComm.{Stores}
use test_lib.Exchange.AutoAccept.{all_respond, if_found}
use test_lib.Proof.Record.{
  ProofExchangeRecord, AutoAcceptProof, always, content_approved, never, compose_auto_accept,
}
use test_lib.Proof.Format.{ProofFormatService}
use test_lib.Proof.Coordinator.Build.{on_rest, attachment_of, attachment_if_sent}
use test_lib.Proof.Protocol.Base.{Config}
use test_lib.Proof.Protocol.Formats.{get_format_services_from_message}

module _ {MS X : Type 0} where
  -- the bodies of the loops: one format service is asked about its attachments
  unfoldable pub ask_on_proposal :
      ProofExchangeRecord
      → AgentMessage
      → AgentMessage
      → ProofFormatService X
      → Exec (Stores MS X) Bool
  ask_on_proposal r proposal request service = do
    request_attachment ← attachment_of service request
    proposal_attachment ← attachment_of service proposal
    on_rest (service.should_auto_respond_to_proposal r request_attachment proposal_attachment)

  unfoldable pub ask_on_request :
      ProofExchangeRecord
      → AgentMessage
      → AgentMessage
      → ProofFormatService X
      → Exec (Stores MS X) Bool
  ask_on_request r request proposal service = do
    proposal_attachment ← attachment_of service proposal
    request_attachment ← attachment_of service request
    on_rest (service.should_auto_respond_to_request r request_attachment proposal_attachment)

  unfoldable pub ask_on_presentation :
      ProofExchangeRecord
      → AgentMessage
      → Option AgentMessage
      → AgentMessage
      → ProofFormatService X
      → Exec (Stores MS X) Bool
  ask_on_presentation r message proposal request service = do
    proposal_attachment ← attachment_if_sent service proposal
    request_attachment ← attachment_of service request
    presentation_attachment ← attachment_of service message
    on_rest (
        service.should_auto_respond_to_presentation r presentation_attachment request_attachment
          proposal_attachment)

  -- the always and never cases, and the comparison of the contents
  abbrev pub by_auto_accept : AutoAcceptProof → Exec (Stores MS X) Bool → Exec (Stores MS X) Bool
  by_auto_accept always compare = pure true
  by_auto_accept never compare = pure false
  by_auto_accept content_approved compare = compare

  -- `if (!flag) return false`
  abbrev pub only_if : Bool → Exec (Stores MS X) Bool → Exec (Stores MS X) Bool
  only_if true further = further
  only_if false further = pure false

module _ {PS MS X : Type 0} (config : Config PS MS X) where
  open config use {externals, proof_formats, auto_accept_proofs}

  unfoldable pub find_proposal_message : String → Exec (Stores MS X) (Option AgentMessage)
  find_proposal_message id = DidComm.find_agent_message externals id propose_presentation

  unfoldable pub find_request_message : String → Exec (Stores MS X) (Option AgentMessage)
  find_request_message id = DidComm.find_agent_message externals id request_presentation

  unfoldable pub find_presentation_message : String → Exec (Stores MS X) (Option AgentMessage)
  find_presentation_message id = DidComm.find_agent_message externals id presentation

  unfoldable pub should_auto_respond_to_proposal :
      ProofExchangeRecord → AgentMessage → Exec (Stores MS X) Bool
  should_auto_respond_to_proposal r proposal =
      by_auto_accept (compose_auto_accept r.auto_accept_proof auto_accept_proofs) do
        found ← find_request_message r.id
        if_found found λ request.
            all_respond (ask_on_proposal r proposal request)
              (get_format_services_from_message proof_formats request.formats)

  unfoldable pub should_auto_respond_to_request :
      ProofExchangeRecord → AgentMessage → Exec (Stores MS X) Bool
  should_auto_respond_to_request r request =
      by_auto_accept (compose_auto_accept r.auto_accept_proof auto_accept_proofs) do
        found ← find_proposal_message r.id
        if_found found λ proposal.
            all_respond (ask_on_request r request proposal)
              (get_format_services_from_message proof_formats proposal.formats)

  -- A presentation is not the last one, or the request asked for no confirmation: no answer.
  unfoldable pub should_auto_respond_to_presentation :
      ProofExchangeRecord → AgentMessage → Exec (Stores MS X) Bool
  should_auto_respond_to_presentation r message = only_if message.last_presentation (
      by_auto_accept (compose_auto_accept r.auto_accept_proof auto_accept_proofs) do
        proposal ← find_proposal_message r.id
        found ← find_request_message r.id
        if_found found λ request. only_if request.will_confirm (
            all_respond (ask_on_presentation r message proposal request)
              (get_format_services_from_message proof_formats request.formats)))
