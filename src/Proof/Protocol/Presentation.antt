-- ===== src/Proof/Protocol/Presentation.antt =====
-- `processPresentation`, `acceptPresentation`, `processAck` and `createProblemReport` of
-- V2ProofProtocol.ts.
pub mod Verified
use test_lib.Common.{String, none, some}
use test_lib.Exec.{Exec, pure, assert, ◌>>=◌, ◌>>◌}
use test_lib.Message.{
  AgentMessage, AckMessage, ProblemReportMessage, propose_presentation, request_presentation,
  presentation, thread_id, thread_or_id,
}
use test_lib.Connection.Inbound.{InboundMessageContext, assert_connection_or_service_decorator}
use test_lib.Storage.DidComm
use test_lib.Proof.Record.{
  ProofExchangeRecord, request_sent, presentation_sent, presentation_received, done,
  assert_protocol_version, assert_state,
}
use test_lib.Proof.Coordinator.Process
use test_lib.Proof.Protocol.Base.{
  World, Config, on_stores, update_state, get_by_thread_and_connection_id, connection_id,
}
use test_lib.Proof.Protocol.Formats.{get_format_services_from_message, some_of}

module _ {PS MS X : Type 0} (config : Config PS MS X) where
  open config use {externals, proof_formats}

  unfoldable pub process_presentation :
      InboundMessageContext AgentMessage → Exec (World PS MS X) ProofExchangeRecord
  process_presentation context = do
    let message = context.message
    r ← get_by_thread_and_connection_id config (thread_id message) (connection_id context)
    request ← on_stores (DidComm.get_agent_message externals r.id request_presentation)
    proposal ← on_stores (DidComm.find_agent_message externals r.id propose_presentation)
    assert_protocol_version "v2" r
    assert_state request_sent r
    assert_connection_or_service_decorator context message.service (some request) proposal
    let format_services = get_format_services_from_message proof_formats message.formats
    some_of config "Unable to process presentation. No supported formats" format_services
    is_valid ← on_stores (Process.process_presentation externals format_services r message request)
    update_state config (record r { is_verified = some is_valid }) presentation_received

  unfoldable pub accept_presentation :
      ProofExchangeRecord → Exec (World PS MS X) (ProofExchangeRecord × AckMessage)
  accept_presentation r = do
    assert_protocol_version "v2" r
    assert_state presentation_received r
    stored ← on_stores (DidComm.get_agent_message externals r.id presentation)
    assert stored.last_presentation
        "Trying to send an ack message while this is not the last presentation"
    id ← on_stores (DidComm.new_uuid externals)
    let message : AckMessage = record { id = id; thread = some r.thread_id; service = none }
    r' ← update_state config r done
    pure (r', message)

  unfoldable pub process_ack :
      InboundMessageContext AckMessage → Exec (World PS MS X) ProofExchangeRecord
  process_ack context = do
    let message = context.message
    found ←
        get_by_thread_and_connection_id config (thread_or_id message.thread message.id)
          (connection_id context)
    let r = record found { connection_id = connection_id context }
    request ← on_stores (DidComm.get_agent_message externals r.id request_presentation)
    sent ← on_stores (DidComm.get_agent_message externals r.id presentation)
    assert_protocol_version "v2" r
    assert_state presentation_sent r
    assert_connection_or_service_decorator context message.service (some sent) (some request)
    update_state config r done

  -- the report that abandons the exchange; it changes neither the record nor the stores
  unfoldable pub create_problem_report :
      ProofExchangeRecord
      → String
      → Exec (World PS MS X) (ProofExchangeRecord × ProblemReportMessage)
  create_problem_report r description = do
    id ← on_stores (DidComm.new_uuid externals)
    let message : ProblemReportMessage = record {
      id = id;
      thread = some r.thread_id;
      parent_thread = r.parent_thread_id;
      code = "abandoned";
      en = description;
    }
    pure (r, message)
