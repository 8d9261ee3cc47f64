-- ===== src/Proof/Coordinator/Create.antt =====
-- `createProposal` and `createRequest` of ProofFormatCoordinator.ts, and the messages that it makes.
use test_lib.Common.{String, Bool, true, false, Option, none, some, List}
use test_lib.Exec.{Exec, pure, ◌>>=◌, ◌>>◌}
use test_lib.Message.{
  MessageClass, propose_presentation, request_presentation, AgentMessage, new_agent_message,
  set_thread_with_parent,
}
use test_lib.Storage.DidComm
use test_lib.Storage.DidComm.{sender, Stores, Externals}
use test_lib.Proof.Record.{ProofExchangeRecord}
use test_lib.Proof.Format.{ProofPayload, ProofFormatService}
use test_lib.Proof.Coordinator.Build.{Draft, empty_draft, build, on_rest}

-- the new message of a class, from what the loop has gathered
abbrev pub new_message :
    MessageClass → String → Option String → Option String → Draft → AgentMessage
new_message message_class id comment goal_code draft = record (new_agent_message message_class id) {
  comment = comment;
  goal_code = goal_code;
  formats = draft.formats;
  attachments = draft.attachments;
}

-- `flag ?? otherwise`
abbrev pub flag_or : Bool → Option Bool → Bool
flag_or otherwise none = otherwise
flag_or otherwise (some flag) = flag

module _ {MS X : Type 0} (externals : Externals MS X) where
  unfoldable pub create_proposal :
      ProofPayload
      → List (ProofFormatService X)
      → ProofExchangeRecord
      → Option String
      → Option String
      → Exec (Stores MS X) AgentMessage
  create_proposal proof_formats format_services r comment goal_code = do
    draft ←
        build (λ service. on_rest (service.create_proposal r proof_formats)) format_services
          empty_draft
    let plain = new_message propose_presentation r.thread_id comment goal_code draft
    let message = set_thread_with_parent r.thread_id r.parent_thread_id plain
    DidComm.save_or_update_agent_message externals sender message r.id
    pure message

  -- the request with its flags, in the thread of the exchange
  unfoldable pub send_request :
      ProofExchangeRecord
      → Option String
      → Option String
      → Option Bool
      → Option Bool
      → Draft
      → Exec (Stores MS X) AgentMessage
  send_request r comment goal_code present_multiple will_confirm draft = do
    id ← DidComm.new_uuid externals
    let plain = new_message request_presentation id comment goal_code draft
    let message = set_thread_with_parent r.thread_id r.parent_thread_id (record plain {
      will_confirm = flag_or true will_confirm;
      present_multiple = flag_or false present_multiple;
    })
    DidComm.save_or_update_agent_message externals sender message r.id
    pure message

  unfoldable pub create_request :
      ProofPayload
      → List (ProofFormatService X)
      → ProofExchangeRecord
      → Option String
      → Option String
      → Option Bool
      → Option Bool
      → Exec (Stores MS X) AgentMessage
  create_request proof_formats format_services r comment goal_code present_multiple will_confirm =
      do
        draft ←
            build (λ service. on_rest (service.create_request r proof_formats)) format_services
              empty_draft
        send_request r comment goal_code present_multiple will_confirm draft
