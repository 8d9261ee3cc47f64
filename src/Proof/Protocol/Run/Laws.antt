-- ===== src/Proof/Protocol/Run/Laws.antt =====
-- What holds of each operation, and of any sequence of operations.
use test_lib.Common.{List, [], ◌∷◌, ◌≡◌, All}
use test_lib.Exec.{ok}
use test_lib.Storage.Service.{IsStorage}
use test_lib.Exchange.Effect.{Effect-of_self}
use test_lib.Exchange.Events.{Tells, Effect-All, Effect-stored}
use test_lib.Proof.Record.{ProofExchangeRecord}
use test_lib.Proof.Protocol.Base.{World, Config, ProofStateChanged, proof_states}
use test_lib.Proof.Protocol.Effect.{Effect}
use test_lib.Proof.Protocol.Transitions.Sent
use test_lib.Proof.Protocol.Transitions.Received
use test_lib.Proof.Protocol.Transitions.{Transition}
use test_lib.Proof.Protocol.Run.{
  Answer, accept_proposal, accept_request, negotiate_proposal, negotiate_request,
  accept_presentation, Operation, create_proposal, create_request, answer, process_proposal,
  process_request, process_presentation, process_ack, receive_problem_report, give_answer,
  run_operation, run_operations,
}

module _ {PS MS X : Type 0} (config : Config PS MS X) where
  give_answer-Effect :
      (r : ProofExchangeRecord) (a : Answer) (w : World PS MS X)
      → Effect config Transition w (give_answer config r a w).0 (give_answer config r a w).1
  give_answer-Effect r (accept_proposal payload options) w =
      (Sent.accept_proposal-HasEffect config r payload options).at w
  give_answer-Effect r (accept_request payload options) w =
      (Sent.accept_request-HasEffect config r payload options).at w
  give_answer-Effect r (negotiate_proposal payload options) w =
      (Sent.negotiate_proposal-HasEffect config r payload options).at w
  give_answer-Effect r (negotiate_request payload options) w =
      (Sent.negotiate_request-HasEffect config r payload options).at w
  give_answer-Effect r accept_presentation w = (Sent.accept_presentation-HasEffect config r).at w

  -- Every operation of the present-proof protocol is atomic towards the records and the events.
  -- One that fails leaves both as they were. One that succeeds has written the record that it
  -- returns, and has emitted one event, with that record and the previous state, from which the
  -- protocol has a transition.
  pub run_operation-Effect :
      (operation : Operation) (w : World PS MS X)
      → Effect config Transition w
          (run_operation config operation w).0
          (run_operation config operation w).1
  run_operation-Effect (create_proposal connection payload parent_thread options) w =
      (Sent.create_proposal-HasEffect config connection payload parent_thread options).at w
  run_operation-Effect (create_request connection payload parent_thread options) w =
      (Sent.create_request-HasEffect config connection payload parent_thread options).at w
  run_operation-Effect (answer r a) w = give_answer-Effect r a w
  run_operation-Effect (process_proposal context) w =
      Effect-of_self _ (Received.process_proposal-HasEffect config context) w
  run_operation-Effect (process_request context) w =
      Effect-of_self _ (Received.process_request-HasEffect config context) w
  run_operation-Effect (process_presentation context) w =
      Effect-of_self _ (Received.process_presentation-HasEffect config context) w
  run_operation-Effect (process_ack context) w =
      Effect-of_self _ (Received.process_ack-HasEffect config context) w
  run_operation-Effect (receive_problem_report context) w =
      Effect-of_self _ (Received.process_problem_report-HasEffect config context) w

-- an event that tells of a transition of the protocol
abbrev pub IsTransition : ProofStateChanged → Type 0
IsTransition = Tells proof_states Transition

module _ {PS MS X : Type 0} (config : Config PS MS X) where
  -- Whatever operations of the present-proof protocol run, failing ones included, the events tell
  -- of transitions of the protocol only, if they did so before.
  pub run_operations-IsTransition :
      (operations : List Operation) (w : World PS MS X)
      → All IsTransition w.events
      → All IsTransition (run_operations config operations w).events
  unfolding run_operations
  run_operations-IsTransition [] w h = h
  run_operations-IsTransition (operation ∷ operations) w h =
      run_operations-IsTransition operations (run_operation config operation w).1 (
        Effect-All config.proof_storage proof_states Transition w _ _
          (run_operation-Effect config operation w) h)

  -- Over a storage that keeps its contract, the proof record that a successful operation returns
  -- is the one that the storage holds under its id afterwards.
  pub run_operation-stored :
      IsStorage (λ r. r.id) config.proof_storage
      → (operation : Operation) (w : World PS MS X) (r : ProofExchangeRecord)
      → (run_operation config operation w).0 ≡ ok r
      → config.proof_storage.get_by_id (run_operation config operation w).1.records.store r.id
        ≡ ok r
  run_operation-stored laws operation w r e =
      Effect-stored config.proof_storage proof_states Transition (λ r. r.id) laws w _ r
        (rw e at (run_operation-Effect config operation w))
