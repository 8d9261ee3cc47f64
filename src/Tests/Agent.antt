-- ===== src/Tests/Agent.antt =====
-- An agent with one credential format, over storages in memory.
mod Answers
mod Building
mod Credential
use Prim.Native.String
use test_lib.Common.{
  ℕ, zero, suc, String, Bool, true, false, Option, none, some, List, [], ◌∷◌, ◌==◌, ◌&&◌,
}
use test_lib.Exec.{pure, ◌>>=◌}
use test_lib.Message.{MessageClass, message_name, can_handle}
use test_lib.Connection.Record.{ConnectionRecord, completed, requester, is_ready, assert_ready}
use test_lib.Connection.Inbound.{
  service_includes, check_previous, check_service, assert_connection_or_service_decorator,
  assert_ready_connection,
}
use test_lib.Storage.Repository
use test_lib.Storage.DidComm
use test_lib.Storage.DidComm.{
  DidCommMessageRecord, MessageQuery, Externals, get_message_instance, instance_or_null,
}
use test_lib.Credential.Record.{
  Contents, CredentialExchangeRecord, content_approved, state_name, new_record,
  assert_protocol_version, assert_state,
}
use test_lib.Credential.Format.{CreateReturn, CredentialFormatService}
use test_lib.Credential.Coordinator.Build.{add, build, process_each}
use test_lib.Credential.Coordinator.Create
use test_lib.Credential.Coordinator.Accept
use test_lib.Credential.Coordinator.Process
use test_lib.Credential.Protocol.Formats.{
  get_format_service_for_format_key, get_format_service_for_format, get_format_services,
  get_format_services_from_message, some_of, services_to_accept,
}
use test_lib.Credential.Protocol.Proposal
use test_lib.Credential.Protocol.Offer
use test_lib.Credential.Protocol.Request
use test_lib.Credential.Protocol.Issue
use test_lib.Credential.Protocol.Base.{CredentialQuery, World, Config, process_problem_report}
use test_lib.Exchange.{
  emit_state_changed_event, update_state, save_new, find_by_thread_and_connection_id,
  get_by_thread_and_connection_id,
}
use test_lib.Exchange.Selection.{numbered, has_place, add_to_set, collect}
use test_lib.Exchange.Attachments.{get_attachment_id_for, get_attachment_for}
use test_lib.Tests.Memory.{memory}

abbrev pub same_option : Option String → Option String → Bool
same_option none none = true
same_option (some a) (some b) = a == b
same_option _ _ = false

abbrev pub credential_matches : CredentialQuery → CredentialExchangeRecord → Bool
credential_matches query r =
    query.thread_id == r.thread_id && same_option query.connection_id r.connection_id

abbrev pub is_of : Option MessageClass → MessageClass → Bool
is_of none given = true
is_of (some wanted) given = message_name wanted == message_name given

abbrev pub message_matches : MessageQuery → DidCommMessageRecord → Bool
message_matches query r =
    same_option (some query.associated_record_id) r.associated_record_id
    && is_of query.message_class r.message.message_class

-- the identifiers "u", "uu", ...
abbrev pub uuid_text : ℕ → String
uuid_text zero = "u"
uuid_text (suc n) = String.◌++◌ "u" (uuid_text n)

abbrev pub made : Contents → CreateReturn
made contents = record {
  contents = contents;
  format = record { attachment_id = "plain-0"; format = "plain" };
  attachment = record { id = "plain-0"; content = "{}" };
  preview_attributes = none;
}

abbrev pub plain : CredentialFormatService ℕ
plain = record {
  format_key = "plain";
  credential_record_type = "plain";
  supports_format = λ format. format == "plain";
  create_proposal = λ r _. pure (made r.contents);
  process_proposal = λ r _. pure r.contents;
  accept_proposal = λ r _ _. pure (made r.contents);
  create_offer = λ r _. pure (made r.contents);
  process_offer = λ r _. pure r.contents;
  accept_offer = λ r _ _. pure (made r.contents);
  create_request = λ r _. pure (made r.contents);
  process_request = λ r _. pure r.contents;
  accept_request = λ r _ _ _. pure (made r.contents);
  process_credential = λ r _ _. pure r.contents;
  should_auto_respond_to_proposal = λ _ _ _. pure true;
  should_auto_respond_to_offer = λ _ _ _. pure true;
  should_auto_respond_to_request = λ _ _ _ _. pure true;
  should_auto_respond_to_credential = λ _ _ _ _ _. pure true;
  delete_credential_by_id = λ _. pure tt;
}

abbrev pub externals : Externals (List DidCommMessageRecord) ℕ
externals = record {
  message_storage = memory (λ r. r.id) message_matches;
  uuid = λ n. (uuid_text n, suc n);
}

abbrev pub AgentConfig : Type 0
AgentConfig = Config (List CredentialExchangeRecord) (List DidCommMessageRecord) ℕ

abbrev pub config : AgentConfig
config = record {
  credential_storage = memory (λ r. r.id) credential_matches;
  externals = externals;
  credential_formats = plain ∷ [];
  auto_accept_credentials = some content_approved;
}

abbrev pub AgentWorld : Type 0
AgentWorld = World (List CredentialExchangeRecord) (List DidCommMessageRecord) ℕ

abbrev pub new_agent : AgentWorld
new_agent = record {
  records = record { store = []; emitted = [] };
  stores = record { messages = record { store = []; emitted = [] }; rest = 0 };
  events = [];
}

abbrev pub connection : ConnectionRecord
connection = record {
  id = "c";
  state = completed;
  role = requester;
  did = none;
  their_did = none;
  thread_id = none;
  error_message = none;
  connection_types = [];
  use_did_keys_for_protocol = [];
}

-- the definitions that a run of the agent computes with
unfoldable pub opened : Unit {0}
unfolding memory message_name can_handle get_message_instance instance_or_null ◌>>=◌ Repository.save
    Repository.update Repository.find_by_query Repository.find_single_by_query
    Repository.get_single_by_query DidComm.new_uuid DidComm.save_agent_message
    DidComm.save_or_update_agent_message DidComm.get_agent_message DidComm.find_agent_message
    state_name new_record assert_protocol_version assert_state is_ready assert_ready
    service_includes check_previous check_service assert_connection_or_service_decorator
    assert_ready_connection get_attachment_id_for get_attachment_for add build process_each
    Create.send_offer Create.create_proposal Create.create_offer Create.create_request
    Accept.attachment_if_sent Accept.accept_proposal Accept.accept_offer Accept.accept_request
    Process.process_proposal Process.process_offer Process.process_request
    Process.process_credential emit_state_changed_event update_state save_new
    find_by_thread_and_connection_id get_by_thread_and_connection_id process_problem_report numbered
    has_place add_to_set collect get_format_service_for_format_key get_format_service_for_format
    get_format_services get_format_services_from_message some_of services_to_accept
    Proposal.create_proposal Proposal.process_proposal Proposal.accept_proposal
    Proposal.negotiate_proposal Proposal.proposal_on_exchange Proposal.proposal_on_new_thread
    Offer.create_offer Offer.process_offer Offer.accept_offer Offer.negotiate_offer
    Offer.offer_on_exchange Offer.offer_on_new_thread Request.create_request Request.process_request
    Request.accept_request Request.request_on_exchange Request.request_on_new_thread
    Issue.process_credential Issue.accept_credential Issue.process_ack Issue.create_problem_report
opened = tt
