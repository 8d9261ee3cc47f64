-- ===== src/Credential/Protocol/Issue.antt =====
-- `processCredential`, `acceptCredential`, `processAck` and `createProblemReport` of
-- V2CredentialProtocol.ts.
use test_lib.Common.{String, none, some}
use test_lib.Exec.{Exec, pure, ◌>>=◌, ◌>>◌}
use test_lib.Message.{
  AgentMessage, AckMessage, ProblemReportMessage, request_credential, offer_credential,
  issue_credential, thread_id, thread_or_id,
}
use test_lib.Connection.Inbound.{InboundMessageContext, assert_connection_or_service_decorator}
use test_lib.Storage.DidComm
use test_lib.Credential.Record.{
  CredentialExchangeRecord, request_sent, credential_issued, credential_received, done,
  assert_protocol_version, assert_state,
}
use test_lib.Credential.Coordinator.Process
use test_lib.Credential.Protocol.Base.{
  World, Config, on_stores, update_state, get_by_thread_and_connection_id, connection_id,
}
use test_lib.Credential.Protocol.Formats.{get_format_services_from_message, some_of}

module _ {CS MS X : Type 0} (config : Config CS MS X) where
  open config use {externals, credential_formats}

  unfoldable pub process_credential :
      InboundMessageContext AgentMessage → Exec (World CS MS X) CredentialExchangeRecord
  process_credential context = do
    let message = context.message
    r ← get_by_thread_and_connection_id config (thread_id message) (connection_id context)
    request ← on_stores (DidComm.get_agent_message externals r.id request_credential)
    offer ← on_stores (DidComm.find_agent_message externals r.id offer_credential)
    assert_protocol_version "v2" r
    assert_state request_sent r
    assert_connection_or_service_decorator context message.service (some request) offer
    let format_services = get_format_services_from_message credential_formats message.formats
    some_of config "Unable to process credential. No supported formats" format_services
    contents ← on_stores (Process.process_credential externals format_services r message request)
    update_state config (record r { contents = contents }) credential_received

  unfoldable pub accept_credential :
      CredentialExchangeRecord → Exec (World CS MS X) (CredentialExchangeRecord × AckMessage)
  accept_credential r = do
    assert_protocol_version "v2" r
    assert_state credential_received r
    id ← on_stores (DidComm.new_uuid externals)
    let message : AckMessage = record { id = id; thread = some r.thread_id; service = none }
    r' ← update_state config r done
    pure (r', message)

  unfoldable pub process_ack :
      InboundMessageContext AckMessage → Exec (World CS MS X) CredentialExchangeRecord
  process_ack context = do
    let message = context.message
    stored ←
        get_by_thread_and_connection_id config (thread_or_id message.thread message.id)
          (connection_id context)
    let r = record stored { connection_id = connection_id context }
    request ← on_stores (DidComm.get_agent_message externals r.id request_credential)
    credential ← on_stores (DidComm.get_agent_message externals r.id issue_credential)
    assert_protocol_version "v2" r
    assert_state credential_issued r
    assert_connection_or_service_decorator context message.service (some credential) (some request)
    update_state config r done

  -- the report that abandons the issuance; it changes neither the record nor the stores
  unfoldable pub create_problem_report :
      CredentialExchangeRecord
      → String
      → Exec (World CS MS X) (CredentialExchangeRecord × ProblemReportMessage)
  create_problem_report r description = do
    id ← on_stores (DidComm.new_uuid externals)
    let message : ProblemReportMessage = record {
      id = id;
      thread = some r.thread_id;
      parent_thread = none;
      code = "issuance-abandoned";
      en = description;
    }
    pure (r, message)
