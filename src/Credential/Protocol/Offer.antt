-- ===== src/Credential/Protocol/Offer.antt =====
-- `createOffer`, `processOffer`, `acceptOffer` and `negotiateOffer` of
-- V2CredentialProtocol.ts.
use test_lib.Common.{String, Option, none, some, List, or_else, is_truthy}
use test_lib.Exec.{Exec, pure, assert, ◌>>=◌, ◌>>◌}
use test_lib.Message.{AgentMessage, propose_credential, offer_credential, thread_id}
use test_lib.Connection.Record.{ConnectionRecord}
use test_lib.Connection.Inbound.{InboundMessageContext, assert_connection_or_service_decorator}
use test_lib.Storage.DidComm
use test_lib.Credential.Format.{FormatPayload, CredentialFormatService}
use test_lib.Credential.Record.{
  CredentialExchangeRecord, AutoAcceptCredential, proposal_sent, offer_sent, offer_received,
  request_sent, assert_protocol_version, assert_state, new_record,
}
use test_lib.Credential.Coordinator.Create
use test_lib.Credential.Coordinator.Accept
use test_lib.Credential.Coordinator.Process
use test_lib.Credential.Protocol.Base.{
  World, Config, on_stores, update_state, save_new, find_by_thread_and_connection_id, connection_id,
}
use test_lib.Credential.Protocol.Formats.{
  get_format_services, get_format_services_from_message, some_of, services_to_accept,
}

-- the connection of the options, if any
abbrev id_of : Option ConnectionRecord → Option String
id_of none = none
id_of (some connection) = some connection.id

module _ {CS MS X : Type 0} (config : Config CS MS X) where
  open config use {externals, credential_formats}

  unfoldable pub create_offer :
      Option ConnectionRecord
      → FormatPayload
      → Option String
      → Option AutoAcceptCredential
      → Exec (World CS MS X) (CredentialExchangeRecord × AgentMessage)
  create_offer connection payload comment auto_accept = do
    let format_services = get_format_services credential_formats payload
    some_of config "Unable to create offer. No supported formats" format_services
    thread ← on_stores (DidComm.new_uuid externals)
    id ← on_stores (DidComm.new_uuid externals)
    let r = new_record id (id_of connection) thread offer_sent auto_accept
    (contents, message) ←
        on_stores (Create.create_offer externals payload format_services r comment)
    let r' = record r { contents = contents }
    save_new config r'
    pure (r', message)

  -- the branch of `processOffer` for an exchange that exists
  unfoldable pub offer_on_exchange :
      List (CredentialFormatService X)
      → InboundMessageContext AgentMessage
      → CredentialExchangeRecord
      → Exec (World CS MS X) CredentialExchangeRecord
  offer_on_exchange format_services context r = do
    let message = context.message
    proposal ← on_stores (DidComm.find_agent_message externals r.id propose_credential)
    offer ← on_stores (DidComm.find_agent_message externals r.id offer_credential)
    assert_protocol_version "v2" r
    assert_state proposal_sent r
    assert_connection_or_service_decorator context message.service proposal offer
    contents ← on_stores (Process.process_offer externals format_services r message)
    update_state config (record r { contents = contents }) offer_received

  -- the branch of `processOffer` for a new thread
  unfoldable pub offer_on_new_thread :
      List (CredentialFormatService X)
      → InboundMessageContext AgentMessage
      → Exec (World CS MS X) CredentialExchangeRecord
  offer_on_new_thread format_services context = do
    let message = context.message
    assert_connection_or_service_decorator context message.service none none
    id ← on_stores (DidComm.new_uuid externals)
    let r = new_record id (connection_id context) (thread_id message) offer_received none
    contents ← on_stores (Process.process_offer externals format_services r message)
    let r' = record r { contents = contents }
    save_new config r'
    pure r'

  abbrev pub offer_by_record :
      List (CredentialFormatService X)
      → InboundMessageContext AgentMessage
      → Option CredentialExchangeRecord
      → Exec (World CS MS X) CredentialExchangeRecord
  offer_by_record format_services context (some r) = offer_on_exchange format_services context r
  offer_by_record format_services context none = offer_on_new_thread format_services context

  unfoldable pub process_offer :
      InboundMessageContext AgentMessage → Exec (World CS MS X) CredentialExchangeRecord
  process_offer context = do
    let message = context.message
    existing ← find_by_thread_and_connection_id config (thread_id message) (connection_id context)
    let format_services = get_format_services_from_message credential_formats message.formats
    some_of config "Unable to process offer. No supported formats" format_services
    offer_by_record format_services context existing

  unfoldable pub accept_offer :
      CredentialExchangeRecord
      → Option FormatPayload
      → Option AutoAcceptCredential
      → Option String
      → Exec (World CS MS X) (CredentialExchangeRecord × AgentMessage)
  accept_offer r payload auto_accept comment = do
    assert_protocol_version "v2" r
    assert_state offer_received r
    format_services ←
        services_to_accept config
          "Unable to accept offer. No supported formats provided as input or in offer message"
          payload r offer_credential
    (contents, message) ←
        on_stores (Accept.accept_offer externals payload format_services r comment)
    let r' = record r {
      contents = contents;
      auto_accept_credential = or_else auto_accept r.auto_accept_credential;
    }
    r'' ← update_state config r' request_sent
    pure (r'', message)

  unfoldable pub negotiate_offer :
      CredentialExchangeRecord
      → FormatPayload
      → Option AutoAcceptCredential
      → Option String
      → Exec (World CS MS X) (CredentialExchangeRecord × AgentMessage)
  negotiate_offer r payload auto_accept comment = do
    assert_protocol_version "v2" r
    assert_state offer_received r
    assert (is_truthy r.connection_id) "No connectionId found for credential record"
    let format_services = get_format_services credential_formats payload
    some_of config "Unable to create proposal. No supported formats" format_services
    (contents, message) ←
        on_stores (Create.create_proposal externals payload format_services r comment)
    let r' = record r {
      contents = contents;
      auto_accept_credential = or_else auto_accept r.auto_accept_credential;
    }
    r'' ← update_state config r' proposal_sent
    pure (r'', message)
