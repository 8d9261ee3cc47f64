-- ===== src/Credential/Protocol/Base.antt =====
-- The state and the shared methods of the protocol: protocol/BaseCredentialProtocol.ts.
use Prim.Native.String
use test_lib.Common.{String, Option, some, List, refl}
use test_lib.Exec.{Exec, ◌>>=◌}
use test_lib.Message.{ProblemReportMessage, thread_or_id}
use test_lib.Connection.Inbound.{InboundMessageContext, assert_ready_connection}
use test_lib.Storage.Service.{StorageService}
use test_lib.Storage.DidComm.{Externals}
use test_lib.Exchange
use test_lib.Exchange.{States, StateChanged, ThreadQuery}
use test_lib.Credential.Record.{
  CredentialState, AutoAcceptCredential, CredentialExchangeRecord, abandoned,
}
use test_lib.Credential.Format.{CredentialFormatService}
pub use test_lib.Exchange.{connection_id, on_stores, on_records}

abbrev pub CredentialQuery : Type 0
CredentialQuery = ThreadQuery

-- the states of an exchange record
abbrev pub credential_states : States CredentialExchangeRecord CredentialState
credential_states = record {
  state_of = λ r. r.state;
  with_state = λ s r. record r { state = s };
  state_of-with_state = λ s r. refl;
}

-- `CredentialStateChangedEvent`
abbrev pub CredentialStateChanged : Type 0
CredentialStateChanged = StateChanged CredentialExchangeRecord CredentialState

abbrev pub World : Type 0 → Type 0 → Type 0 → Type 0
World CS MS X = Exchange.World CS CredentialExchangeRecord CredentialState MS X

-- What the protocol is given: the storages, the format services and the module's configuration.
pub record Config (CS MS X : Type 0) : Type 0 where
  pub credential_storage : StorageService CS CredentialExchangeRecord CredentialQuery
  pub externals : Externals MS X
  pub credential_formats : List (CredentialFormatService X)
  pub auto_accept_credentials : Option AutoAcceptCredential

module _ {CS MS X : Type 0} (config : Config CS MS X) where
  open config use {credential_storage}

  abbrev pub update_state :
      CredentialExchangeRecord → CredentialState → Exec (World CS MS X) CredentialExchangeRecord
  update_state = Exchange.update_state credential_storage credential_states

  abbrev pub save_new : CredentialExchangeRecord → Exec (World CS MS X) Unit
  save_new = Exchange.save_new credential_storage

  abbrev pub find_by_thread_and_connection_id :
      String → Option String → Exec (World CS MS X) (Option CredentialExchangeRecord)
  find_by_thread_and_connection_id = Exchange.find_by_thread_and_connection_id credential_storage

  abbrev pub get_by_thread_and_connection_id :
      String → Option String → Exec (World CS MS X) CredentialExchangeRecord
  get_by_thread_and_connection_id = Exchange.get_by_thread_and_connection_id credential_storage

  unfoldable pub process_problem_report :
      InboundMessageContext ProblemReportMessage → Exec (World CS MS X) CredentialExchangeRecord
  process_problem_report context = do
    let message = context.message
    connection ← assert_ready_connection context
    r ←
        get_by_thread_and_connection_id (thread_or_id message.thread message.id)
          (some connection.id)
    let text = String.◌++◌ message.code (String.◌++◌ ": " message.en)
    update_state (record r { error_message = some text }) abandoned
