-- ===== src/Tests/Prover.antt =====
-- An agent with one proof format, over storages in memory.
mod Exchange
use test_lib.Common.{ℕ, true, some, none, List, [], ◌∷◌, ◌==◌, ◌&&◌, String, Bool}
use test_lib.Exec.{pure}
use test_lib.Exchange.{ThreadQuery}
use test_lib.Storage.DidComm.{DidCommMessageRecord}
use test_lib.Proof.Record.{
  ProofExchangeRecord, content_approved, new_record, assert_protocol_version, assert_state,
  state_name,
}
use test_lib.Proof.Format.{ProofCreateReturn, ProofFormatService}
use test_lib.Proof.Coordinator.Build.{add, build, process_each, verify_each, every}
use test_lib.Proof.Coordinator.Create
use test_lib.Proof.Coordinator.Accept
use test_lib.Proof.Coordinator.Process
use test_lib.Proof.Protocol.Base.{World, Config, process_problem_report}
use test_lib.Proof.Protocol.Formats.{
  get_format_service_for_format_key, get_format_service_for_format, get_format_services,
  get_format_services_from_message, some_of, services_to_accept,
}
use test_lib.Proof.Protocol.Proposal
use test_lib.Proof.Protocol.Request
use test_lib.Proof.Protocol.Presentation
use test_lib.Tests.Memory.{memory}
use test_lib.Tests.Agent.{same_option, externals, opened}

abbrev pub proof_matches : ThreadQuery → ProofExchangeRecord → Bool
proof_matches query r =
    query.thread_id == r.thread_id && same_option query.connection_id r.connection_id

abbrev pub made : ProofCreateReturn
made = record {
  format = record { attachment_id = "plain-0"; format = "plain" };
  attachment = record { id = "plain-0"; content = "{}" };
}

abbrev pub plain : ProofFormatService ℕ
plain = record {
  format_key = "plain";
  supports_format = λ format. format == "plain";
  create_proposal = λ _ _. pure made;
  process_proposal = λ _ _. pure tt;
  accept_proposal = λ _ _ _. pure made;
  create_request = λ _ _. pure made;
  process_request = λ _ _. pure tt;
  accept_request = λ _ _ _ _. pure made;
  process_presentation = λ _ _ _. pure true;
  get_credentials_for_request = λ _ _ _ _. pure "{}";
  select_credentials_for_request = λ _ _ _ _. pure "{}";
  should_auto_respond_to_proposal = λ _ _ _. pure true;
  should_auto_respond_to_request = λ _ _ _. pure true;
  should_auto_respond_to_presentation = λ _ _ _ _. pure true;
}

abbrev pub ProverConfig : Type 0
ProverConfig = Config (List ProofExchangeRecord) (List DidCommMessageRecord) ℕ

abbrev pub config : ProverConfig
config = record {
  proof_storage = memory (λ r. r.id) proof_matches;
  externals = externals;
  proof_formats = plain ∷ [];
  auto_accept_proofs = some content_approved;
}

abbrev pub ProverWorld : Type 0
ProverWorld = World (List ProofExchangeRecord) (List DidCommMessageRecord) ℕ

abbrev pub new_prover : ProverWorld
new_prover = record {
  records = record { store = []; emitted = [] };
  stores = record { messages = record { store = []; emitted = [] }; rest = 0 };
  events = [];
}

-- the definitions that a run of the agent computes with
unfoldable pub opened_proof : Unit {0}
unfolding opened state_name new_record assert_protocol_version assert_state add build process_each
    verify_each every Create.create_proposal Create.send_request Create.create_request
    Accept.accept_proposal Accept.accept_request Process.process_proposal Process.process_request
    Process.verify Process.process_presentation process_problem_report
    get_format_service_for_format_key get_format_service_for_format get_format_services
    get_format_services_from_message some_of services_to_accept Proposal.create_proposal
    Proposal.process_proposal Proposal.accept_proposal Proposal.negotiate_proposal
    Proposal.proposal_on_exchange Proposal.proposal_on_new_thread Request.create_request
    Request.process_request Request.accept_request Request.negotiate_request
    Request.request_on_exchange Request.request_on_new_thread Presentation.process_presentation
    Presentation.accept_presentation Presentation.process_ack
opened_proof = tt
