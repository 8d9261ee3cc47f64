-- ===== src/Tests/Mediation.antt =====
-- A mediation at concrete inputs.
use Prim.Native.String
use test_lib.Common.{ℕ, suc, true, none, List, [], ◌∷◌, ◌≡◌, refl}
use test_lib.Exec.{ok, err, aries_framework_error, record_not_found}
use test_lib.Connection.Record.{ConnectionRecord}
use test_lib.Storage.DidComm.{DidCommMessageRecord}
use test_lib.Exchange
use test_lib.Storage.Repository
use test_lib.Exchange.Effect
use test_lib.Mediation.Record.{
  MediationRecord, assert_ready, assert_role, requested, granted, mediator, add_recipient_key,
  remove_recipient_key,
}
use test_lib.Mediation.Keylist.{
  KeylistUpdate, KeylistUpdated, add, remove, success, no_change, is_did_key, did_key_to_verkey,
  update_keys, process_updates, process_results,
}
use test_lib.Mediation.Keylist.Laws.{process_results-process_updates}
use test_lib.Mediation.Base.{
  by_recipient_key, get_single_by_recipient_key, MediatorRoutingRecord, Config, World,
  mediation_states,
}
use test_lib.Mediation.Mediator.{
  ForwardMessage, process_forward_message, create_grant_mediation_message,
}
use test_lib.Mediation.Mediator.Forward.{process_forward_message-allowed}
use test_lib.Mediation.Mediator.Uninitialised.{with_granted, create_grant_mediation_message-throws}
use test_lib.Mediation.Transitions.{
  Operation, ask_for_mediation, perform, Transition, perform-Effect,
}
use test_lib.Tests.Memory.{memory, get, if_there, replace, select}
use test_lib.Tests.Agent.{connection, externals, uuid_text}

abbrev Connections : Type 0
Connections = List ConnectionRecord

abbrev Messages : Type 0
Messages = List DidCommMessageRecord

abbrev config :
    Config (List MediationRecord) Connections Unit (List MediatorRoutingRecord) Unit Messages ℕ
config = record {
  mediation_storage = memory (λ r. r.id) (λ _ _. true);
  connection_storage = memory (λ c. c.id) (λ _ _. true);
  routing_storage = memory (λ r. r.id) (λ _ _. true);
  externals = record {
    message_storage = externals.message_storage;
    uuid = λ rest. (uuid_text rest.others, record rest { others = suc rest.others });
  };
  from_did = λ did. ok did;
  to_did = λ key. ok (String.◌++◌ "did:key:" key);
  use_did_key_in_protocols = true;
  endpoints = "https" ∷ [];
}

abbrev Agent : Type 0
Agent = World (List MediationRecord) Connections (List MediatorRoutingRecord) Messages ℕ

abbrev start : Agent
start = record {
  records = record { store = []; emitted = [] };
  stores = record {
    messages = record { store = []; emitted = [] };
    rest = record {
      connections = record { store = connection ∷ []; emitted = [] };
      routing_records = record { store = []; emitted = [] };
      keylists_updated = [];
      others = 0;
    };
  };
  events = [];
}

abbrev asked : Operation Unit
asked = ask_for_mediation connection

perform-Effect_example :
    Exchange.Effect.Effect config.mediation_storage mediation_states Transition start
      (perform config asked start).0
      (perform config asked start).1
perform-Effect_example = perform-Effect config asked start

abbrev rest : ℕ
rest = 0

abbrev updates : List KeylistUpdate
updates =
    record { recipient_key = "b"; action = add }
    ∷ record { recipient_key = "a"; action = remove }
    ∷ record { recipient_key = "x"; action = remove }
    ∷ []

abbrev updated : List KeylistUpdated
updated =
    record { recipient_key = "b"; action = add; result = success }
    ∷ record { recipient_key = "a"; action = remove; result = success }
    ∷ record { recipient_key = "x"; action = remove; result = no_change }
    ∷ []

updated_result :
    process_updates config.from_did updates ("a" ∷ "a" ∷ []) rest
    ≡ (ok ("a" ∷ "b" ∷ [], updated), rest)
unfolding process_updates did_key_to_verkey is_did_key update_keys add_recipient_key
    remove_recipient_key test_lib.Exec.◌>>=◌
updated_result = refl

process_results-process_updates_example :
    process_results config.from_did updated ("a" ∷ "a" ∷ []) tt ≡ (ok ("a" ∷ "b" ∷ []), tt)
process_results-process_updates_example =
    process_results-process_updates config.from_did updates _ _ updated rest rest tt updated_result

abbrev asking : MediationRecord
asking = record {
  id = "m";
  connection_id = "c";
  thread_id = "t";
  recipient_keys = [];
  routing_keys = [];
  state = requested;
  role = mediator;
  endpoint = none;
}

abbrev mediating : Agent
mediating = record start { records = record { store = asking ∷ []; emitted = [] } }

abbrev granting : List MediationRecord
granting = record asking { state = granted } ∷ []

stored :
    config.mediation_storage.update mediating.records.store (record asking { state = granted })
    ≡ ok granting
unfolding memory get if_there replace
stored = refl

missing :
    config.routing_storage.get_by_id mediating.stores.rest.routing_records.store
      "MEDIATOR_ROUTING_RECORD"
    ≡ err record_not_found
unfolding memory get
missing = refl

create_grant_mediation_message-throws_example :
    create_grant_mediation_message config asking mediating ≡ (
      err (aries_framework_error "Mediator has not been initialized yet."),
      with_granted config asking granting mediating,
    )
create_grant_mediation_message-throws_example =
    create_grant_mediation_message-throws config asking mediating granting refl refl stored missing

abbrev serving : Agent
serving = record start { records = record { store = granting; emitted = [] } }

abbrev forwarded : ForwardMessage
forwarded = record { to = "a"; message = "packed" }

forwarded_result :
    process_forward_message config forwarded serving
    ≡ (ok (record asking { state = granted }, "packed"), serving)
unfolding process_forward_message get_single_by_recipient_key Repository.get_single_by_query
    Repository.find_single_by_query Repository.find_by_query memory select assert_ready assert_role
    test_lib.Exec.◌>>=◌
forwarded_result = refl

process_forward_message-allowed_example :
    (config.mediation_storage.find_by_query serving.records.store (by_recipient_key "a")
      ≡ ok granting)
    × (granted ≡ granted)
    × (mediator ≡ mediator)
    × ("packed" ≡ forwarded.message)
    × (serving ≡ serving)
process_forward_message-allowed_example =
    process_forward_message-allowed config forwarded _ "packed" serving serving forwarded_result
