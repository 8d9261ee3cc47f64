-- ===== src/Credential/Protocol/Request.antt =====
-- `createRequest`, `processRequest` and `acceptRequest` of
-- V2CredentialProtocol.ts.
use test_lib.Common.{String, Option, none, some, List, or_else}
use test_lib.Exec.{Exec, pure, ◌>>=◌, ◌>>◌}
use test_lib.Message.{
  AgentMessage, propose_credential, offer_credential, request_credential, thread_id,
}
use test_lib.Connection.Record.{ConnectionRecord}
use test_lib.Connection.Inbound.{InboundMessageContext, assert_connection_or_service_decorator}
use test_lib.Storage.DidComm
use test_lib.Credential.Format.{FormatPayload, CredentialFormatService}
use test_lib.Credential.Record.{
  CredentialExchangeRecord, AutoAcceptCredential, offer_sent, request_sent, request_received,
  credential_issued, assert_protocol_version, assert_state, new_record,
}
use test_lib.Credential.Coordinator.Create
use test_lib.Credential.Coordinator.Accept
use test_lib.Credential.Coordinator.Process
use test_lib.Credential.Protocol.Base.{
  World, Config, on_stores, update_state, save_new, find_by_thread_and_connection_id, connection_id,
}
use test_lib.Credential.Protocol.Formats.{
  get_format_services, get_format_services_from_message, some_of, services_to_accept,
}

module _ {CS MS X : Type 0} (config : Config CS MS X) where
  open config use {externals, credential_formats}

  unfoldable pub create_request :
      ConnectionRecord
      → FormatPayload
      → Option String
      → Option AutoAcceptCredential
      → Exec (World CS MS X) (CredentialExchangeRecord × AgentMessage)
  create_request connection payload comment auto_accept = do
    let format_services = get_format_services credential_formats payload
    some_of config "Unable to create request. No supported formats" format_services
    thread ← on_stores (DidComm.new_uuid externals)
    id ← on_stores (DidComm.new_uuid externals)
    let r = new_record id (some connection.id) thread request_sent auto_accept
    (contents, message) ←
        on_stores (Create.create_request externals payload format_services r comment)
    let r' = record r { contents = contents }
    save_new config r'
    pure (r', message)

  -- the branch of `processRequest` for an exchange that exists
  unfoldable pub request_on_exchange :
      List (CredentialFormatService X)
      → InboundMessageContext AgentMessage
      → CredentialExchangeRecord
      → Exec (World CS MS X) CredentialExchangeRecord
  request_on_exchange format_services context r = do
    let message = context.message
    proposal ← on_stores (DidComm.find_agent_message externals r.id propose_credential)
    offer ← on_stores (DidComm.find_agent_message externals r.id offer_credential)
    assert_protocol_version "v2" r
    assert_state offer_sent r
    assert_connection_or_service_decorator context message.service offer proposal
    contents ← on_stores (Process.process_request externals format_services r message)
    update_state config (record r { contents = contents }) request_received

  -- the branch of `processRequest` for a new thread
  unfoldable pub request_on_new_thread :
      List (CredentialFormatService X)
      → InboundMessageContext AgentMessage
      → Exec (World CS MS X) CredentialExchangeRecord
  request_on_new_thread format_services context = do
    let message = context.message
    assert_connection_or_service_decorator context message.service none none
    id ← on_stores (DidComm.new_uuid externals)
    let r = new_record id (connection_id context) (thread_id message) request_received none
    contents ← on_stores (Process.process_request externals format_services r message)
    let r' = record r { contents = contents }
    save_new config r'
    pure r'

  abbrev pub request_by_record :
      List (CredentialFormatService X)
      → InboundMessageContext AgentMessage
      → Option CredentialExchangeRecord
      → Exec (World CS MS X) CredentialExchangeRecord
  request_by_record format_services context (some r) = request_on_exchange format_services context r
  request_by_record format_services context none = request_on_new_thread format_services context

  unfoldable pub process_request :
      InboundMessageContext AgentMessage → Exec (World CS MS X) CredentialExchangeRecord
  process_request context = do
    let message = context.message
    existing ← find_by_thread_and_connection_id config (thread_id message) (connection_id context)
    let format_services = get_format_services_from_message credential_formats message.formats
    some_of config "Unable to process request. No supported formats" format_services
    request_by_record format_services context existing

  unfoldable pub accept_request :
      CredentialExchangeRecord
      → Option FormatPayload
      → Option AutoAcceptCredential
      → Option String
      → Exec (World CS MS X) (CredentialExchangeRecord × AgentMessage)
  accept_request r payload auto_accept comment = do
    assert_protocol_version "v2" r
    assert_state request_received r
    format_services ←
        services_to_accept config
          "Unable to accept request. No supported formats provided as input or in request message"
          payload r request_credential
    (contents, message) ←
        on_stores (Accept.accept_request externals payload format_services r comment)
    let r' = record r {
      contents = contents;
      auto_accept_credential = or_else auto_accept r.auto_accept_credential;
    }
    r'' ← update_state config r' credential_issued
    pure (r'', message)
