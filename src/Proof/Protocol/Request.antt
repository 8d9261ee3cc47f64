-- ===== src/Proof/Protocol/Request.antt =====
-- `createRequest`, `processRequest`, `acceptRequest`, `negotiateRequest`, `getCredentialsForRequest`
-- and `selectCredentialsForRequest` of V2ProofProtocol.ts.
use test_lib.Common.{String, true, Option, none, some, List, is_truthy}
use test_lib.Exec.{Exec, pure, assert, ◌>>=◌, ◌>>◌}
use test_lib.Message.{AgentMessage, propose_credential, request_presentation, thread_id}
use test_lib.Connection.Record.{ConnectionRecord}
use test_lib.Connection.Inbound.{InboundMessageContext, assert_connection_or_service_decorator}
use test_lib.Storage.DidComm
use test_lib.Proof.Format.{ProofPayload, ProofFormatService}
use test_lib.Proof.Record.{
  ProofExchangeRecord, proposal_sent, request_sent, request_received, presentation_sent,
  assert_protocol_version, assert_state, new_record,
}
use test_lib.Proof.Coordinator.Create
use test_lib.Proof.Coordinator.Accept
use test_lib.Proof.Coordinator.Process
use test_lib.Proof.Protocol.Base.{
  World, Config, on_stores, update_state, save_new, find_by_thread_and_connection_id, connection_id,
}
use test_lib.Proof.Protocol.Formats.{
  get_format_services, get_format_services_from_message, some_of, services_to_accept,
}
use test_lib.Proof.Protocol.Proposal.{SendOptions, with_auto_accept}

-- `connectionRecord?.id`
abbrev id_of : Option ConnectionRecord → Option String
id_of none = none
id_of (some connection) = some connection.id

module _ {PS MS X : Type 0} (config : Config PS MS X) where
  open config use {externals, proof_formats}

  unfoldable pub create_request :
      Option ConnectionRecord
      → ProofPayload
      → Option String
      → SendOptions
      → Exec (World PS MS X) (ProofExchangeRecord × AgentMessage)
  create_request connection payload parent_thread options = do
    let format_services = get_format_services proof_formats payload
    some_of config "Unable to create request. No supported formats" format_services
    thread ← on_stores (DidComm.new_uuid externals)
    id ← on_stores (DidComm.new_uuid externals)
    let r = new_record id (id_of connection) thread parent_thread request_sent options.auto_accept
    message ← on_stores (
        Create.create_request externals payload format_services r options.comment options.goal_code
          none options.will_confirm)
    save_new config r
    pure (r, message)

  -- The branch of `processRequest` for an exchange that exists. The message that was sent before is
  -- looked for under the class of the credential proposals.
  unfoldable pub request_on_exchange :
      List (ProofFormatService X)
      → InboundMessageContext AgentMessage
      → ProofExchangeRecord
      → Exec (World PS MS X) ProofExchangeRecord
  request_on_exchange format_services context r = do
    let message = context.message
    sent ← on_stores (DidComm.find_agent_message externals r.id propose_credential)
    received ← on_stores (DidComm.find_agent_message externals r.id request_presentation)
    assert_protocol_version "v2" r
    assert_state proposal_sent r
    assert_connection_or_service_decorator context message.service sent received
    on_stores (Process.process_request externals format_services r message)
    update_state config r request_received

  -- the branch of `processRequest` for a new thread
  unfoldable pub request_on_new_thread :
      List (ProofFormatService X)
      → InboundMessageContext AgentMessage
      → Exec (World PS MS X) ProofExchangeRecord
  request_on_new_thread format_services context = do
    let message = context.message
    assert_connection_or_service_decorator context message.service none none
    id ← on_stores (DidComm.new_uuid externals)
    let r =
        new_record id (connection_id context) (thread_id message) message.parent_thread
          request_received none
    on_stores (Process.process_request externals format_services r message)
    save_new config r
    pure r

  abbrev pub request_by_record :
      List (ProofFormatService X)
      → InboundMessageContext AgentMessage
      → Option ProofExchangeRecord
      → Exec (World PS MS X) ProofExchangeRecord
  request_by_record format_services context (some r) = request_on_exchange format_services context r
  request_by_record format_services context none = request_on_new_thread format_services context

  unfoldable pub process_request :
      InboundMessageContext AgentMessage → Exec (World PS MS X) ProofExchangeRecord
  process_request context = do
    let message = context.message
    existing ← find_by_thread_and_connection_id config (thread_id message) (connection_id context)
    let format_services = get_format_services_from_message proof_formats message.formats
    some_of config "Unable to process request. No supported formats" format_services
    request_by_record format_services context existing

  unfoldable pub accept_request :
      ProofExchangeRecord
      → Option ProofPayload
      → SendOptions
      → Exec (World PS MS X) (ProofExchangeRecord × AgentMessage)
  accept_request r payload options = do
    assert_protocol_version "v2" r
    assert_state request_received r
    format_services ←
        services_to_accept config
          "Unable to accept request. No supported formats provided as input or in request message"
          payload r request_presentation
    message ← on_stores (
        Accept.accept_request externals payload format_services r options.comment (some true)
          options.goal_code)
    r' ← update_state config (with_auto_accept options r) presentation_sent
    pure (r', message)

  unfoldable pub negotiate_request :
      ProofExchangeRecord
      → ProofPayload
      → SendOptions
      → Exec (World PS MS X) (ProofExchangeRecord × AgentMessage)
  negotiate_request r payload options = do
    assert_protocol_version "v2" r
    assert_state request_received r
    assert (is_truthy r.connection_id) "No connectionId found for proof record"
    let format_services = get_format_services proof_formats payload
    some_of config "Unable to create proposal. No supported formats" format_services
    message ← on_stores (
        Create.create_proposal externals payload format_services r options.comment
          options.goal_code)
    r' ← update_state config (with_auto_accept options r) proposal_sent
    pure (r', message)

  unfoldable pub get_credentials_for_request :
      ProofExchangeRecord → Option ProofPayload → Exec (World PS MS X) (List (String × String))
  get_credentials_for_request r payload = do
    assert_protocol_version "v2" r
    assert_state request_received r
    format_services ←
        services_to_accept config "Unable to get credentials for request. No supported formats"
          payload r request_presentation
    on_stores (Accept.get_credentials_for_request externals payload format_services r)

  unfoldable pub select_credentials_for_request :
      ProofExchangeRecord → Option ProofPayload → Exec (World PS MS X) (List (String × String))
  select_credentials_for_request r payload = do
    assert_protocol_version "v2" r
    assert_state request_received r
    format_services ←
        services_to_accept config "Unable to get credentials for request. No supported formats"
          payload r request_presentation
    on_stores (Accept.select_credentials_for_request externals payload format_services r)
