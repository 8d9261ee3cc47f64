-- ===== src/Proof/Protocol/Base.antt =====
-- The state and the shared methods of the protocol: protocol/BaseProofProtocol.ts.
use Prim.Native.String
use test_lib.Common.{String, Option, some, List, refl}
use test_lib.Exec.{Exec, ◌>>=◌}
use test_lib.Message.{ProblemReportMessage, thread_or_id}
use test_lib.Connection.Inbound.{InboundMessageContext}
use test_lib.Storage.Service.{StorageService}
use test_lib.Storage.DidComm.{Externals}
use test_lib.Exchange
use test_lib.Exchange.{States, StateChanged, ThreadQuery}
use test_lib.Proof.Record.{ProofState, AutoAcceptProof, ProofExchangeRecord, abandoned}
use test_lib.Proof.Format.{ProofFormatService}
pub use test_lib.Exchange.{connection_id, on_stores, on_records}

-- the states of an exchange record
abbrev pub proof_states : States ProofExchangeRecord ProofState
proof_states = record {
  state_of = λ r. r.state;
  with_state = λ s r. record r { state = s };
  state_of-with_state = λ s r. refl;
}

-- `ProofStateChangedEvent`
abbrev pub ProofStateChanged : Type 0
ProofStateChanged = StateChanged ProofExchangeRecord ProofState

abbrev pub World : Type 0 → Type 0 → Type 0 → Type 0
World PS MS X = Exchange.World PS ProofExchangeRecord ProofState MS X

-- What the protocol is given: the storages, the format services and the module's configuration.
pub record Config (PS MS X : Type 0) : Type 0 where
  pub proof_storage : StorageService PS ProofExchangeRecord ThreadQuery
  pub externals : Externals MS X
  pub proof_formats : List (ProofFormatService X)
  pub auto_accept_proofs : Option AutoAcceptProof

module _ {PS MS X : Type 0} (config : Config PS MS X) where
  open config use {proof_storage}

  abbrev pub update_state :
      ProofExchangeRecord → ProofState → Exec (World PS MS X) ProofExchangeRecord
  update_state = Exchange.update_state proof_storage proof_states

  abbrev pub save_new : ProofExchangeRecord → Exec (World PS MS X) Unit
  save_new = Exchange.save_new proof_storage

  abbrev pub find_by_thread_and_connection_id :
      String → Option String → Exec (World PS MS X) (Option ProofExchangeRecord)
  find_by_thread_and_connection_id = Exchange.find_by_thread_and_connection_id proof_storage

  abbrev pub get_by_thread_and_connection_id :
      String → Option String → Exec (World PS MS X) ProofExchangeRecord
  get_by_thread_and_connection_id = Exchange.get_by_thread_and_connection_id proof_storage

  -- The connection of the report is not asserted to be ready.
  unfoldable pub process_problem_report :
      InboundMessageContext ProblemReportMessage → Exec (World PS MS X) ProofExchangeRecord
  process_problem_report context = do
    let message = context.message
    r ←
        get_by_thread_and_connection_id (thread_or_id message.thread message.id)
          (connection_id context)
    let text = String.◌++◌ message.code (String.◌++◌ ": " message.en)
    update_state (record r { error_message = some text }) abandoned
