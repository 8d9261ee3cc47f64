-- ===== src/Credential/Protocol/Run/Laws.antt =====
-- What holds of each operation, and of any sequence of operations.
use test_lib.Common.{List, [], ◌∷◌, ◌≡◌, All}
use test_lib.Exec.{ok}
use test_lib.Storage.Service.{IsStorage}
use test_lib.Credential.Record.{CredentialExchangeRecord}
use test_lib.Credential.Protocol.Base.{World, Config, CredentialStateChanged, credential_states}
use test_lib.Exchange.Effect.{Effect-of_self}
use test_lib.Exchange.Events.{Tells, Effect-All, Effect-stored}
use test_lib.Credential.Protocol.Effect.{Effect}
use test_lib.Credential.Protocol.Transitions.Sent
use test_lib.Credential.Protocol.Transitions.Received
use test_lib.Credential.Protocol.Transitions.{Transition}
use test_lib.Credential.Protocol.Run.{
  Answer, accept_proposal, accept_offer, accept_request, negotiate_proposal, negotiate_offer,
  accept_credential, Operation, create_proposal, create_offer, create_request, answer,
  process_proposal, process_offer, process_request, process_credential, process_ack,
  receive_problem_report, run_answer, run, run_all,
}

module _ {CS MS X : Type 0} (config : Config CS MS X) where
  run_answer-Effect :
      (r : CredentialExchangeRecord) (a : Answer) (w : World CS MS X)
      → Effect config Transition w (run_answer config r a w).0 (run_answer config r a w).1
  run_answer-Effect r (accept_proposal payload auto_accept comment) w =
      (Sent.accept_proposal-HasEffect config r payload auto_accept comment).at w
  run_answer-Effect r (accept_offer payload auto_accept comment) w =
      (Sent.accept_offer-HasEffect config r payload auto_accept comment).at w
  run_answer-Effect r (accept_request payload auto_accept comment) w =
      (Sent.accept_request-HasEffect config r payload auto_accept comment).at w
  run_answer-Effect r (negotiate_proposal payload auto_accept comment) w =
      (Sent.negotiate_proposal-HasEffect config r payload auto_accept comment).at w
  run_answer-Effect r (negotiate_offer payload auto_accept comment) w =
      (Sent.negotiate_offer-HasEffect config r payload auto_accept comment).at w
  run_answer-Effect r accept_credential w = (Sent.accept_credential-HasEffect config r).at w

  -- Every operation is atomic towards the records and the events. One that fails leaves both as
  -- they were. One that succeeds has written the record that it returns, and has emitted one
  -- event, with that record and the previous state, from which the protocol has a transition.
  pub run-Effect :
      (operation : Operation) (w : World CS MS X)
      → Effect config Transition w (run config operation w).0 (run config operation w).1
  run-Effect (create_proposal connection payload comment auto_accept) w =
      (Sent.create_proposal-HasEffect config connection payload comment auto_accept).at w
  run-Effect (create_offer connection payload comment auto_accept) w =
      (Sent.create_offer-HasEffect config connection payload comment auto_accept).at w
  run-Effect (create_request connection payload comment auto_accept) w =
      (Sent.create_request-HasEffect config connection payload comment auto_accept).at w
  run-Effect (answer r a) w = run_answer-Effect r a w
  run-Effect (process_proposal context) w =
      Effect-of_self _ (Received.process_proposal-HasEffect config context) w
  run-Effect (process_offer context) w =
      Effect-of_self _ (Received.process_offer-HasEffect config context) w
  run-Effect (process_request context) w =
      Effect-of_self _ (Received.process_request-HasEffect config context) w
  run-Effect (process_credential context) w =
      Effect-of_self _ (Received.process_credential-HasEffect config context) w
  run-Effect (process_ack context) w =
      Effect-of_self _ (Received.process_ack-HasEffect config context) w
  run-Effect (receive_problem_report context) w =
      Effect-of_self _ (Received.process_problem_report-HasEffect config context) w

-- an event that tells of a transition of the protocol
abbrev pub IsTransition : CredentialStateChanged → Type 0
IsTransition = Tells credential_states Transition

module _ {CS MS X : Type 0} (config : Config CS MS X) where
  -- Whatever the operations, failing ones included, the events tell of transitions of the protocol
  -- only, if they did so before.
  pub run_all-IsTransition :
      (operations : List Operation) (w : World CS MS X)
      → All IsTransition w.events
      → All IsTransition (run_all config operations w).events
  unfolding run_all
  run_all-IsTransition [] w h = h
  run_all-IsTransition (operation ∷ operations) w h =
      run_all-IsTransition operations (run config operation w).1 (
        Effect-All config.credential_storage credential_states Transition w _ _
          (run-Effect config operation w) h)

  -- Over a storage that keeps its contract, the record that a successful operation returns is the
  -- one that the storage holds under its id afterwards.
  pub run-stored :
      IsStorage (λ r. r.id) config.credential_storage
      → (operation : Operation) (w : World CS MS X) (r : CredentialExchangeRecord)
      → (run config operation w).0 ≡ ok r
      → config.credential_storage.get_by_id (run config operation w).1.records.store r.id ≡ ok r
  run-stored laws operation w r e =
      Effect-stored config.credential_storage credential_states Transition (λ r. r.id) laws w _ r
        (rw e at (run-Effect config operation w))
