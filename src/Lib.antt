-- ===== src/Lib.antt =====
-- A model of the Aries Framework JavaScript core, the agent of src/. This library covers the
-- issue-credential and present-proof protocols, version 2, and what they stand on.
--
-- The parts and how they interact. An agent keeps exchange records (CredentialExchangeRecord,
-- ProofExchangeRecord) in a repository, and the messages of each exchange in another
-- (DidCommMessageRepository). A protocol (V2CredentialProtocol, V2ProofProtocol) has one method per
-- message that the user sends and one per message that comes in. It checks the record's state and
-- the connection, picks the format services that take part, lets the coordinator
-- (CredentialFormatCoordinator, ProofFormatCoordinator) call each of them and put the message
-- together, stores the record in its next state and emits an event.
-- A recipient asks a mediator for mediation (MediationRecipientService, MediatorService) and tells
-- it of its keys; the mediator queues what it cannot deliver (MessageRepository), and the recipient
-- picks the queue up (V1MessagePickupProtocol, V2MessagePickupProtocol).
--
-- Where each part is modelled:
--   Common, Common/Lists       tests of `if` and `===`, options for `undefined`, measures of lists
--   Exec                       asynchronous methods that may throw: `Exec S A = S → Result A × S`,
--                              src/error; Exec/Reads has the rules for methods that only read
--   Message                    src/agent/AgentMessage.ts, src/decorators, src/utils/messageType.ts
--   Storage/Service            src/storage/StorageService.ts and the laws of its contract
--   Storage/Repository         src/storage/Repository.ts
--   Storage/DidComm            src/storage/didcomm
--   Connection/Record, Inbound src/modules/connections/repository/ConnectionRecord.ts,
--                              src/agent/models/InboundMessageContext.ts and
--                              assertConnectionOrServiceDecorator of ConnectionService.ts
--   Connection/Exchange        src/modules/connections/DidExchangeStateMachine.ts
--   Storage/Migration          src/storage/migration/StorageUpdateService.ts, src/utils/version.ts
--                              and getNeededUpdates of UpdateAssistant.ts
--   Credential/Record, Preview src/modules/credentials/repository, models and util
--   Credential/Format          src/modules/credentials/formats/CredentialFormatService.ts
--   Credential/Coordinator     src/modules/credentials/protocol/v2/CredentialFormatCoordinator.ts
--   Credential/Protocol        src/modules/credentials/protocol/v2/V2CredentialProtocol.ts and
--                              protocol/BaseCredentialProtocol.ts; Formats picks the services,
--                              Proposal, Offer, Request and Issue have the methods of these
--                              messages, AutoAccept the automatic answers, Delete the
--                              deletion and the reads by id, and Run makes one type
--                              of operations of the methods that send or receive a message
--   Exchange                   what the two exchange protocols share: the record in its next state
--                              with its event, the sets of format services (Selection), their
--                              attachments, the loop of the automatic answers, and the rules for
--                              the effect of a method (Effect, Quiet)
--   Proof/Record, Format       src/modules/proofs/repository, models, utils and
--                              formats/ProofFormatService.ts
--   Proof/Coordinator          src/modules/proofs/protocol/v2/ProofFormatCoordinator.ts
--   Proof/Protocol             src/modules/proofs/protocol/v2/V2ProofProtocol.ts and
--                              protocol/BaseProofProtocol.ts, laid out as Credential/Protocol;
--                              Presentation/Verified is about the verification
--   Connection/Service         createTrustPing, processAck and updateState of ConnectionService.ts
--   Pickup/Queue, Slices       src/storage/MessageRepository.ts, InMemoryMessageRepository.ts
--   Pickup/Mediator, Recipient src/modules/message-pìckup/protocol, the methods of the two sides
--   Pickup/Rounds              the handlers of src/modules/message-pìckup/protocol/v2/handlers: each
--                              hands a message to a method and returns the next message
--   Pickup/Batches             the handlers of protocol/v1/handlers, and a pickup of version 1
--   Mediation/Record, Keylist  src/modules/routing/repository/MediationRecord.ts, the loops over a
--                              keylist update, and the keys of src/modules/dids/helpers.ts
--   Mediation/Mediator         src/modules/routing/services/MediatorService.ts
--   Mediation/Recipient        src/modules/routing/services/MediationRecipientService.ts
--   Tests                      agents with storages in memory, run at concrete inputs
--
-- How the state corresponds. A function keeps its name, in snake case. `World` has the two
-- repositories, each with its store and the events of its emitter, the events of the protocol, and
-- `rest`, the state of everything else: the wallet, what the format services keep, the source of
-- uuids. A method takes a `Config`: the storages, `uuid()`, the list of format services and the
-- module's configuration, which are parameters, since they are outside of this code or plugged
-- into it. What a theorem needs of a storage is `IsStorage`, the contract of StorageService.ts.
-- A storage call that throws leaves its store as it was.
--
-- Choices. A credential format service writes only the `Contents` of a record, and its own state; a
-- proof format service reads the record. A Set of
-- services is a list of their places in `credentialFormats`, which compares objects by identity.
-- Records are values: a method returns the record that the source changes in place, so what the
-- caller's object holds after a failing write is not modelled. Message classes are told apart by
-- their message name, since they share protocol and major version. Each emitter keeps its events in
-- order; the order between two emitters is not kept. A version is its numbers, parsed already. Texts
-- of errors that the source builds from templates are shortened to their fixed part. Loops are over
-- lists; only the rounds of a pickup take fuel, a number of rounds, and more rounds than there are
-- messages in the queue are enough.
--
-- Not modelled: the sending of messages, which is taken to succeed; creation dates, tags, and the metadata but for the flags
-- for did keys; revocation notifications, logging, JSON and its validation; the scripts of the
-- storage updates and their backups; the api and the handlers above the two exchange protocols;
-- getFormatData; out-of-band; the waiting for a keylist update, and with it the default mediator and
-- the routing of new keys; the creation of the mediator's routing record, whose keys come from the
-- wallet; DIDs, the wallet, transports, and the
-- agent's dispatch of messages.
pub mod Common
pub mod Exec
pub mod Message
pub mod Storage
pub mod Connection
pub mod Exchange
pub mod Credential
pub mod Proof
pub mod Pickup
pub mod Mediation
mod Tests
