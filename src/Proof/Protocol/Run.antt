-- ===== src/Proof/Protocol/Run.antt =====
-- The methods of V2ProofProtocol.ts and of BaseProofProtocol.ts that send or receive a message of the
-- exchange, as one type of operations; `updateState`, `update` and `delete` by themselves are none.
pub mod Laws
pub mod Refusals
use test_lib.Common.{String, Option, List, [], ◌∷◌}
use test_lib.Exec.{Result, Exec}
use test_lib.Message.{AgentMessage, AckMessage, ProblemReportMessage}
use test_lib.Connection.Record.{ConnectionRecord}
use test_lib.Connection.Inbound.{InboundMessageContext}
use test_lib.Exchange.Effect.{of}
use test_lib.Proof.Record.{ProofExchangeRecord}
use test_lib.Proof.Format.{ProofPayload}
use test_lib.Proof.Protocol.Base.{World, Config, process_problem_report}
use test_lib.Proof.Protocol.Transitions.{record_of}
use test_lib.Proof.Protocol.Proposal
use test_lib.Proof.Protocol.Proposal.{SendOptions}
use test_lib.Proof.Protocol.Request
use test_lib.Proof.Protocol.Presentation

-- what the agent's user asks of a record: the options of the methods
pub data Answer : Type 0 where
  accept_proposal accept_request : Option ProofPayload → SendOptions → Answer
  negotiate_proposal negotiate_request : ProofPayload → SendOptions → Answer
  accept_presentation : Answer

pub data Operation : Type 0 where
  create_proposal : ConnectionRecord → ProofPayload → Option String → SendOptions → Operation
  create_request : Option ConnectionRecord → ProofPayload → Option String → SendOptions → Operation
  answer : ProofExchangeRecord → Answer → Operation
  process_proposal process_request process_presentation :
      InboundMessageContext AgentMessage → Operation
  process_ack : InboundMessageContext AckMessage → Operation
  receive_problem_report : InboundMessageContext ProblemReportMessage → Operation

module _ {PS MS X : Type 0} where
  -- the record that a method returns beside its message
  abbrev pub the_record :
      {M : Type 0}
      → Exec (World PS MS X) (ProofExchangeRecord × M)
      → Exec (World PS MS X) ProofExchangeRecord
  the_record m w = (of record_of (m w).0, (m w).1)

module _ {PS MS X : Type 0} (config : Config PS MS X) where
  abbrev pub give_answer : ProofExchangeRecord → Answer → Exec (World PS MS X) ProofExchangeRecord
  give_answer r (accept_proposal payload options) =
      the_record (Proposal.accept_proposal config r payload options)
  give_answer r (accept_request payload options) =
      the_record (Request.accept_request config r payload options)
  give_answer r (negotiate_proposal payload options) =
      the_record (Proposal.negotiate_proposal config r payload options)
  give_answer r (negotiate_request payload options) =
      the_record (Request.negotiate_request config r payload options)
  give_answer r accept_presentation = the_record (Presentation.accept_presentation config r)

  abbrev pub run_operation : Operation → Exec (World PS MS X) ProofExchangeRecord
  run_operation (create_proposal connection payload parent_thread options) =
      the_record (Proposal.create_proposal config connection payload parent_thread options)
  run_operation (create_request connection payload parent_thread options) =
      the_record (Request.create_request config connection payload parent_thread options)
  run_operation (answer r a) = give_answer r a
  run_operation (process_proposal context) = Proposal.process_proposal config context
  run_operation (process_request context) = Request.process_request config context
  run_operation (process_presentation context) = Presentation.process_presentation config context
  run_operation (process_ack context) = Presentation.process_ack config context
  run_operation (receive_problem_report context) = process_problem_report config context

  -- A sequence of operations; one that fails ends only itself.
  pub run_operations : List Operation → World PS MS X → World PS MS X
  run_operations [] w = w
  run_operations (operation ∷ operations) w =
      run_operations operations (run_operation operation w).1
