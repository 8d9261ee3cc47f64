-- ===== src/Credential/Protocol/Run.antt =====
-- The methods of V2CredentialProtocol.ts and of BaseCredentialProtocol.ts that send or receive a
-- message of the exchange, as one type of operations; `updateState`, `update` and `delete` by
-- themselves are none.
pub mod Laws
pub mod Refusals
use test_lib.Common.{String, Option, List, [], ◌∷◌}
use test_lib.Exec.{Result, Exec}
use test_lib.Message.{AgentMessage, AckMessage, ProblemReportMessage}
use test_lib.Connection.Record.{ConnectionRecord}
use test_lib.Connection.Inbound.{InboundMessageContext}
use test_lib.Credential.Record.{CredentialExchangeRecord, AutoAcceptCredential}
use test_lib.Credential.Format.{FormatPayload}
use test_lib.Credential.Protocol.Base.{World, Config, process_problem_report}
use test_lib.Exchange.Effect.{of}
use test_lib.Credential.Protocol.Transitions.{record_of}
use test_lib.Credential.Protocol.Proposal
use test_lib.Credential.Protocol.Offer
use test_lib.Credential.Protocol.Request
use test_lib.Credential.Protocol.Issue

-- what the agent's user asks of a record: the options of the methods
pub data Answer : Type 0 where
  accept_proposal accept_offer accept_request :
      Option FormatPayload → Option AutoAcceptCredential → Option String → Answer
  negotiate_proposal negotiate_offer :
      FormatPayload → Option AutoAcceptCredential → Option String → Answer
  accept_credential : Answer

pub data Operation : Type 0 where
  create_proposal :
      ConnectionRecord → FormatPayload → Option String → Option AutoAcceptCredential → Operation
  create_offer :
      Option ConnectionRecord
      → FormatPayload
      → Option String
      → Option AutoAcceptCredential
      → Operation
  create_request :
      ConnectionRecord → FormatPayload → Option String → Option AutoAcceptCredential → Operation
  answer : CredentialExchangeRecord → Answer → Operation
  process_proposal process_offer process_request process_credential :
      InboundMessageContext AgentMessage → Operation
  process_ack : InboundMessageContext AckMessage → Operation
  receive_problem_report : InboundMessageContext ProblemReportMessage → Operation

module _ {CS MS X : Type 0} where
  -- the record that a method returns beside its message
  abbrev pub the_record :
      {M : Type 0}
      → Exec (World CS MS X) (CredentialExchangeRecord × M)
      → Exec (World CS MS X) CredentialExchangeRecord
  the_record m w = (of record_of (m w).0, (m w).1)

module _ {CS MS X : Type 0} (config : Config CS MS X) where
  abbrev pub run_answer :
      CredentialExchangeRecord → Answer → Exec (World CS MS X) CredentialExchangeRecord
  run_answer r (accept_proposal payload auto_accept comment) =
      the_record (Proposal.accept_proposal config r payload auto_accept comment)
  run_answer r (accept_offer payload auto_accept comment) =
      the_record (Offer.accept_offer config r payload auto_accept comment)
  run_answer r (accept_request payload auto_accept comment) =
      the_record (Request.accept_request config r payload auto_accept comment)
  run_answer r (negotiate_proposal payload auto_accept comment) =
      the_record (Proposal.negotiate_proposal config r payload auto_accept comment)
  run_answer r (negotiate_offer payload auto_accept comment) =
      the_record (Offer.negotiate_offer config r payload auto_accept comment)
  run_answer r accept_credential = the_record (Issue.accept_credential config r)

  abbrev pub run : Operation → Exec (World CS MS X) CredentialExchangeRecord
  run (create_proposal connection payload comment auto_accept) =
      the_record (Proposal.create_proposal config connection payload comment auto_accept)
  run (create_offer connection payload comment auto_accept) =
      the_record (Offer.create_offer config connection payload comment auto_accept)
  run (create_request connection payload comment auto_accept) =
      the_record (Request.create_request config connection payload comment auto_accept)
  run (answer r a) = run_answer r a
  run (process_proposal context) = Proposal.process_proposal config context
  run (process_offer context) = Offer.process_offer config context
  run (process_request context) = Request.process_request config context
  run (process_credential context) = Issue.process_credential config context
  run (process_ack context) = Issue.process_ack config context
  run (receive_problem_report context) = process_problem_report config context

  -- A sequence of operations; one that fails ends only itself.
  pub run_all : List Operation → World CS MS X → World CS MS X
  run_all [] w = w
  run_all (operation ∷ operations) w = run_all operations (run operation w).1
