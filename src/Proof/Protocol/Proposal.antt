-- ===== src/Proof/Protocol/Proposal.antt =====
-- `createProposal`, `processProposal`, `acceptProposal` and `negotiateProposal` of
-- V2ProofProtocol.ts.
use test_lib.Common.{String, Bool, false, Option, none, some, List, or_else, is_truthy}
use test_lib.Exec.{Exec, pure, assert, ◌>>=◌, ◌>>◌}
use test_lib.Message.{AgentMessage, propose_presentation, request_presentation, thread_id}
use test_lib.Connection.Record.{ConnectionRecord}
use test_lib.Connection.Inbound.{InboundMessageContext, assert_connection_or_service_decorator}
use test_lib.Storage.DidComm
use test_lib.Proof.Format.{ProofPayload, ProofFormatService}
use test_lib.Proof.Record.{
  ProofExchangeRecord, AutoAcceptProof, proposal_sent, proposal_received, request_sent,
  assert_protocol_version, assert_state, new_record,
}
use test_lib.Proof.Coordinator.Create
use test_lib.Proof.Coordinator.Accept
use test_lib.Proof.Coordinator.Process
use test_lib.Proof.Protocol.Base.{
  World, Config, on_stores, update_state, save_new, find_by_thread_and_connection_id, connection_id,
}
use test_lib.Proof.Protocol.Formats.{
  get_format_services, get_format_services_from_message, some_of, services_to_accept,
}

-- The options of the methods that send a message, beside the formats.
pub record SendOptions : Type 0 where
  pub auto_accept : Option AutoAcceptProof
  pub comment : Option String
  pub goal_code : Option String
  -- of the methods that send a request
  pub will_confirm : Option Bool

-- `proofRecord.autoAcceptProof = autoAcceptProof ?? proofRecord.autoAcceptProof`
abbrev pub with_auto_accept : SendOptions → ProofExchangeRecord → ProofExchangeRecord
with_auto_accept options r = record r {
  auto_accept_proof = or_else options.auto_accept r.auto_accept_proof;
}

module _ {PS MS X : Type 0} (config : Config PS MS X) where
  open config use {externals, proof_formats}

  unfoldable pub create_proposal :
      ConnectionRecord
      → ProofPayload
      → Option String
      → SendOptions
      → Exec (World PS MS X) (ProofExchangeRecord × AgentMessage)
  create_proposal connection payload parent_thread options = do
    let format_services = get_format_services proof_formats payload
    some_of config "Unable to create proposal. No supported formats" format_services
    thread ← on_stores (DidComm.new_uuid externals)
    id ← on_stores (DidComm.new_uuid externals)
    let r =
        new_record id (some connection.id) thread parent_thread proposal_sent options.auto_accept
    message ← on_stores (
        Create.create_proposal externals payload format_services r options.comment
          options.goal_code)
    save_new config r
    pure (r, message)

  -- the branch of `processProposal` for an exchange that exists
  unfoldable pub proposal_on_exchange :
      List (ProofFormatService X)
      → InboundMessageContext AgentMessage
      → ProofExchangeRecord
      → Exec (World PS MS X) ProofExchangeRecord
  proposal_on_exchange format_services context r = do
    let message = context.message
    received ← on_stores (DidComm.find_agent_message externals r.id propose_presentation)
    sent ← on_stores (DidComm.find_agent_message externals r.id request_presentation)
    assert_protocol_version "v2" r
    assert_state request_sent r
    assert_connection_or_service_decorator context message.service sent received
    on_stores (Process.process_proposal externals format_services r message)
    update_state config r proposal_received

  -- the branch of `processProposal` for a new thread
  unfoldable pub proposal_on_new_thread :
      List (ProofFormatService X)
      → InboundMessageContext AgentMessage
      → Exec (World PS MS X) ProofExchangeRecord
  proposal_on_new_thread format_services context = do
    let message = context.message
    assert_connection_or_service_decorator context message.service none none
    id ← on_stores (DidComm.new_uuid externals)
    let r =
        new_record id (connection_id context) (thread_id message) message.parent_thread
          proposal_received none
    on_stores (Process.process_proposal externals format_services r message)
    save_new config r
    pure r

  abbrev pub proposal_by_record :
      List (ProofFormatService X)
      → InboundMessageContext AgentMessage
      → Option ProofExchangeRecord
      → Exec (World PS MS X) ProofExchangeRecord
  proposal_by_record format_services context (some r) =
      proposal_on_exchange format_services context r
  proposal_by_record format_services context none = proposal_on_new_thread format_services context

  unfoldable pub process_proposal :
      InboundMessageContext AgentMessage → Exec (World PS MS X) ProofExchangeRecord
  process_proposal context = do
    let message = context.message
    existing ← find_by_thread_and_connection_id config (thread_id message) (connection_id context)
    let format_services = get_format_services_from_message proof_formats message.formats
    some_of config "Unable to process proposal. No supported formats" format_services
    proposal_by_record format_services context existing

  unfoldable pub accept_proposal :
      ProofExchangeRecord
      → Option ProofPayload
      → SendOptions
      → Exec (World PS MS X) (ProofExchangeRecord × AgentMessage)
  accept_proposal r payload options = do
    assert_protocol_version "v2" r
    assert_state proposal_received r
    format_services ←
        services_to_accept config
          "Unable to accept proposal. No supported formats provided as input or in proposal message"
          payload r propose_presentation
    message ← on_stores (
        Accept.accept_proposal externals payload format_services r options.comment options.goal_code
          (some false) options.will_confirm)
    r' ← update_state config (with_auto_accept options r) request_sent
    pure (r', message)

  unfoldable pub negotiate_proposal :
      ProofExchangeRecord
      → ProofPayload
      → SendOptions
      → Exec (World PS MS X) (ProofExchangeRecord × AgentMessage)
  negotiate_proposal r payload options = do
    assert_protocol_version "v2" r
    assert_state proposal_received r
    assert (is_truthy r.connection_id) "No connectionId found for proof record"
    let format_services = get_format_services proof_formats payload
    some_of config "Unable to create request. No supported formats" format_services
    message ← on_stores (
        Create.create_request externals payload format_services r options.comment options.goal_code
          (some false) options.will_confirm)
    r' ← update_state config (with_auto_accept options r) request_sent
    pure (r', message)
