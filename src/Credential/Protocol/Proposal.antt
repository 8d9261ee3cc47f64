-- ===== src/Credential/Protocol/Proposal.antt =====
-- `createProposal`, `processProposal`, `acceptProposal` and `negotiateProposal` of
-- V2CredentialProtocol.ts.
use test_lib.Common.{String, Option, none, some, List, or_else, is_truthy}
use test_lib.Exec.{Exec, pure, assert, ◌>>=◌, ◌>>◌}
use test_lib.Message.{AgentMessage, propose_credential, offer_credential, thread_id}
use test_lib.Connection.Record.{ConnectionRecord}
use test_lib.Connection.Inbound.{InboundMessageContext, assert_connection_or_service_decorator}
use test_lib.Storage.DidComm
use test_lib.Credential.Format.{FormatPayload, CredentialFormatService}
use test_lib.Credential.Record.{
  CredentialExchangeRecord, AutoAcceptCredential, proposal_sent, proposal_received, offer_sent,
  assert_protocol_version, assert_state, new_record,
}
use test_lib.Credential.Coordinator.Create
use test_lib.Credential.Coordinator.Accept
use test_lib.Credential.Coordinator.Process
use test_lib.Credential.Protocol.Base.{
  World, Config, on_stores, update_state, save_new, find_by_thread_and_connection_id, connection_id,
}
use test_lib.Credential.Protocol.Formats.{
  get_format_services, get_format_services_from_message, some_of, services_to_accept,
}

module _ {CS MS X : Type 0} (config : Config CS MS X) where
  open config use {externals, credential_formats}

  unfoldable pub create_proposal :
      ConnectionRecord
      → FormatPayload
      → Option String
      → Option AutoAcceptCredential
      → Exec (World CS MS X) (CredentialExchangeRecord × AgentMessage)
  create_proposal connection payload comment auto_accept = do
    let format_services = get_format_services credential_formats payload
    some_of config "Unable to create proposal. No supported formats" format_services
    thread ← on_stores (DidComm.new_uuid externals)
    id ← on_stores (DidComm.new_uuid externals)
    let r = new_record id (some connection.id) thread proposal_sent auto_accept
    (contents, message) ←
        on_stores (Create.create_proposal externals payload format_services r comment)
    let r' = record r { contents = contents }
    save_new config r'
    pure (r', message)

  -- the branch of `processProposal` for an exchange that exists
  unfoldable pub proposal_on_exchange :
      List (CredentialFormatService X)
      → InboundMessageContext AgentMessage
      → CredentialExchangeRecord
      → Exec (World CS MS X) CredentialExchangeRecord
  proposal_on_exchange format_services context r = do
    let message = context.message
    proposal ← on_stores (DidComm.find_agent_message externals r.id propose_credential)
    offer ← on_stores (DidComm.find_agent_message externals r.id offer_credential)
    assert_protocol_version "v2" r
    assert_state offer_sent r
    assert_connection_or_service_decorator context message.service offer proposal
    contents ← on_stores (Process.process_proposal externals format_services r message)
    update_state config (record r { contents = contents }) proposal_received

  -- the branch of `processProposal` for a new thread
  unfoldable pub proposal_on_new_thread :
      List (CredentialFormatService X)
      → InboundMessageContext AgentMessage
      → Exec (World CS MS X) CredentialExchangeRecord
  proposal_on_new_thread format_services context = do
    let message = context.message
    assert_connection_or_service_decorator context message.service none none
    id ← on_stores (DidComm.new_uuid externals)
    let r = new_record id (connection_id context) (thread_id message) proposal_received none
    contents ← on_stores (Process.process_proposal externals format_services r message)
    let r' = record r { contents = contents }
    save_new config r'
    pure r'

  abbrev pub proposal_by_record :
      List (CredentialFormatService X)
      → InboundMessageContext AgentMessage
      → Option CredentialExchangeRecord
      → Exec (World CS MS X) CredentialExchangeRecord
  proposal_by_record format_services context (some r) =
      proposal_on_exchange format_services context r
  proposal_by_record format_services context none = proposal_on_new_thread format_services context

  unfoldable pub process_proposal :
      InboundMessageContext AgentMessage → Exec (World CS MS X) CredentialExchangeRecord
  process_proposal context = do
    let message = context.message
    existing ← find_by_thread_and_connection_id config (thread_id message) (connection_id context)
    let format_services = get_format_services_from_message credential_formats message.formats
    some_of config "Unable to process proposal. No supported formats" format_services
    proposal_by_record format_services context existing

  unfoldable pub accept_proposal :
      CredentialExchangeRecord
      → Option FormatPayload
      → Option AutoAcceptCredential
      → Option String
      → Exec (World CS MS X) (CredentialExchangeRecord × AgentMessage)
  accept_proposal r payload auto_accept comment = do
    assert_protocol_version "v2" r
    assert_state proposal_received r
    format_services ←
        services_to_accept config
          "Unable to accept proposal. No supported formats provided as input or in proposal message"
          payload r propose_credential
    (contents, message) ←
        on_stores (Accept.accept_proposal externals payload format_services r comment)
    let r' = record r {
      contents = contents;
      auto_accept_credential = or_else auto_accept r.auto_accept_credential;
    }
    r'' ← update_state config r' offer_sent
    pure (r'', message)

  unfoldable pub negotiate_proposal :
      CredentialExchangeRecord
      → FormatPayload
      → Option AutoAcceptCredential
      → Option String
      → Exec (World CS MS X) (CredentialExchangeRecord × AgentMessage)
  negotiate_proposal r payload auto_accept comment = do
    assert_protocol_version "v2" r
    assert_state proposal_received r
    assert (is_truthy r.connection_id) "No connectionId found for credential record"
    let format_services = get_format_services credential_formats payload
    some_of config "Unable to create offer. No supported formats" format_services
    (contents, message) ←
        on_stores (Create.create_offer externals payload format_services r comment)
    let r' = record r {
      contents = contents;
      auto_accept_credential = or_else auto_accept r.auto_accept_credential;
    }
    r'' ← update_state config r' offer_sent
    pure (r'', message)
