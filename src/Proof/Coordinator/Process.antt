-- ===== src/Proof/Coordinator/Process.antt =====
-- `processProposal`, `processRequest` and `processPresentation` of ProofFormatCoordinator.ts.
pub mod Laws
use test_lib.Common.{Bool, List, []}
use test_lib.Exec.{Exec, pure, ◌>>=◌, ◌>>◌}
use test_lib.Message.{AgentMessage}
use test_lib.Storage.DidComm
use test_lib.Storage.DidComm.{receiver, Stores, Externals}
use test_lib.Proof.Record.{ProofExchangeRecord}
use test_lib.Proof.Format.{ProofFormatService}
use test_lib.Proof.Coordinator.Build.{process_each, verify_each, every, on_rest, attachment_of}

module _ {MS X : Type 0} where
  -- the body of the loop of `processPresentation`: a service verifies its part of the presentation
  -- against its part of the request
  unfoldable pub verify :
      ProofExchangeRecord
      → AgentMessage
      → AgentMessage
      → ProofFormatService X
      → Exec (Stores MS X) Bool
  verify r message request service = do
    attachment ← attachment_of service message
    request_attachment ← attachment_of service request
    on_rest (service.process_presentation r attachment request_attachment)

module _ {MS X : Type 0} (externals : Externals MS X) where
  unfoldable pub process_proposal :
      List (ProofFormatService X) → ProofExchangeRecord → AgentMessage → Exec (Stores MS X) Unit
  process_proposal format_services r message = do
    process_each
        (λ service. do
          attachment ← attachment_of service message
          on_rest (service.process_proposal r attachment))
        format_services
    DidComm.save_or_update_agent_message externals receiver message r.id

  unfoldable pub process_request :
      List (ProofFormatService X) → ProofExchangeRecord → AgentMessage → Exec (Stores MS X) Unit
  process_request format_services r message = do
    process_each
        (λ service. do
          attachment ← attachment_of service message
          on_rest (service.process_request r attachment))
        format_services
    DidComm.save_or_update_agent_message externals receiver message r.id

  -- the presentation, and the request that it answers
  unfoldable pub process_presentation :
      List (ProofFormatService X)
      → ProofExchangeRecord
      → AgentMessage
      → AgentMessage
      → Exec (Stores MS X) Bool
  process_presentation format_services r message request = do
    results ← verify_each (verify r message request) format_services []
    DidComm.save_or_update_agent_message externals receiver message r.id
    pure (every results)
