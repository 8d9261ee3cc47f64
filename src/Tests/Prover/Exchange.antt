-- ===== src/Tests/Prover/Exchange.antt =====
-- The proof exchange at concrete inputs.
use test_lib.Common.{
  ℕ, Bool, true, false, none, some, List, [], ◌∷◌, ◌≡◌, ◌≢◌, ◌⊎◌, refl, ap, arith, inr, All,
}
use test_lib.Exec.{ok, err, Error, record_not_found}
use test_lib.Message.{AgentMessage, new_agent_message, presentation}
use test_lib.Connection.Inbound.{InboundMessageContext}
use test_lib.Storage.DidComm.{DidCommMessageRecord, Stores}
use test_lib.Exchange.AutoAccept.{all_respond}
use test_lib.Proof.Record.{
  ProofState, ProofExchangeRecord, request_sent, presentation_received, content_approved,
  new_record,
}
use test_lib.Proof.Protocol.Effect.{Effect}
use test_lib.Proof.Protocol.Transitions.{Transition}
use test_lib.Proof.Protocol.Proposal.{SendOptions}
use test_lib.Proof.Protocol.Presentation.Verified.{Verified, process_presentation-Verified}
use test_lib.Proof.Protocol.AutoAccept.{
  ask_on_presentation, find_proposal_message, find_request_message,
  should_auto_respond_to_presentation,
}
use test_lib.Proof.Protocol.AutoAccept.Laws.{
  on_presentation, should_auto_respond, setting, IsAnswerable, Agreed, should_auto_respond-Agreed,
}
use test_lib.Proof.Record.{always}
use test_lib.Proof.Protocol.Delete.{delete}
use test_lib.Proof.Protocol.Delete.Laws.{delete-forgotten}
use test_lib.Proof.Protocol.Run.{
  Operation, create_request, process_presentation, accept_presentation, give_answer, run_operation,
  run_operations,
}
use test_lib.Proof.Protocol.Run.Laws.{
  run_operation-Effect, run_operations-IsTransition, run_operation-stored, IsTransition,
}
use test_lib.Proof.Protocol.Run.Refusals.{Refuses, give_answer-Refuses}
use test_lib.Proof.Protocol.Presentation
use test_lib.Tests.Memory.{memory-IsStorage}
use test_lib.Tests.Agent.{connection}
use test_lib.Tests.Prover.{config, new_prover, ProverWorld, proof_matches, opened_proof}

abbrev options : SendOptions
options = record { auto_accept = none; comment = none; goal_code = none; will_confirm = none }

abbrev request : Operation
request = create_request (some connection) (("plain", "{}") ∷ []) none options

abbrev requested : ProofExchangeRecord
requested = new_record "uu" (some "c") "u" none request_sent none

request_result : (run_operation config request new_prover).0 ≡ ok requested
unfolding opened_proof
request_result = refl

abbrev waiting : ProverWorld
waiting = (run_operation config request new_prover).1

abbrev presented : InboundMessageContext AgentMessage
presented = record {
  message = record (new_agent_message presentation "m") {
    thread = some "u";
    formats = record { attachment_id = "x"; format = "plain" } ∷ [];
    attachments = record { id = "x"; content = "{}" } ∷ [];
  };
  connection = some connection;
  sender_key = none;
  recipient_key = none;
}

abbrev verified : ProofExchangeRecord
verified = record requested { is_verified = some true; state = presentation_received }

abbrev checked : ProverWorld
checked = (Presentation.process_presentation config presented waiting).1

presented_result :
    Presentation.process_presentation config presented waiting ≡ (ok verified, checked)
unfolding opened_proof
presented_result = refl

process_presentation-Verified_example : Verified config presented verified waiting checked
process_presentation-Verified_example =
    process_presentation-Verified config presented verified waiting checked presented_result

run_operation-Effect_example :
    Effect config Transition new_prover
      (run_operation config request new_prover).0
      (run_operation config request new_prover).1
run_operation-Effect_example = run_operation-Effect config request new_prover

abbrev script : List Operation
script = request ∷ process_presentation presented ∷ []

run_operations-IsTransition_example :
    All IsTransition (run_operations config script new_prover).events
run_operations-IsTransition_example = run_operations-IsTransition config script new_prover tt

run_operation-stored_example :
    config.proof_storage.get_by_id
      (run_operation config request new_prover).1.records.store
      requested.id
    ≡ ok requested
run_operation-stored_example =
    run_operation-stored config (memory-IsStorage (λ r. r.id) proof_matches) request new_prover
      requested request_result

abbrev is_request_sent : ProofState → Bool
is_request_sent request_sent = true
is_request_sent _ = false

state_ne : requested.state ≢ presentation_received
unfolding new_record
state_ne e = let clash : true ≡ false = ap is_request_sent e in absurd (ground (arith, clash))

give_answer-Refuses_example : Refuses (give_answer config requested accept_presentation) new_prover
give_answer-Refuses_example =
    give_answer-Refuses config requested accept_presentation new_prover (inr state_ne)

abbrev stores : Stores (List DidCommMessageRecord) ℕ
stores = waiting.stores

responds :
    should_auto_respond config on_presentation requested presented.message stores
    ≡ (ok true, stores)
unfolding opened_proof all_respond ask_on_presentation find_proposal_message find_request_message
    should_auto_respond_to_presentation
responds = refl

should_auto_respond-Agreed_example :
    IsAnswerable on_presentation presented.message
    × ((setting config requested ≡ always)
        ⊎ ((setting config requested ≡ content_approved)
            × Agreed config requested presented.message stores stores on_presentation))
should_auto_respond-Agreed_example =
    should_auto_respond-Agreed config on_presentation requested presented.message stores stores
      responds

delete-forgotten_example :
    ((e : Error) × (delete config requested none waiting ≡ (err e, waiting)))
    ⊎ ((config.proof_storage.get_by_id
            (delete config requested none waiting).1.records.store
            requested.id
          ≡ err record_not_found)
        × ((delete config requested none waiting).1.events ≡ waiting.events))
delete-forgotten_example =
    delete-forgotten config (memory-IsStorage (λ r. r.id) proof_matches) requested none waiting
