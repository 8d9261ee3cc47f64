-- ===== src/Tests/Agent/Credential.antt =====
-- The credential exchange at concrete inputs.
use test_lib.Common.{none, some, List, [], ◌∷◌, ◌≡◌, refl, All}
use test_lib.Exec.{ok}
use test_lib.Credential.Record.{CredentialExchangeRecord, offer_sent, new_record}
use test_lib.Credential.Protocol.Effect.{Effect}
use test_lib.Credential.Protocol.Transitions.{Transition}
use test_lib.Credential.Protocol.Run.{
  Operation, create_offer, answer, accept_proposal, run, run_all,
}
use test_lib.Credential.Protocol.Run.Laws.{
  run-Effect, run_all-IsTransition, run-stored, IsTransition,
}
use test_lib.Tests.Memory.{memory-IsStorage}
use test_lib.Tests.Agent.{config, new_agent, connection, credential_matches, opened}

abbrev pub offer : Operation
offer = create_offer (some connection) (("plain", "{}") ∷ []) none none

abbrev pub offered : CredentialExchangeRecord
offered = new_record "uu" (some "c") "u" offer_sent none

offer_result : (run config offer new_agent).0 ≡ ok offered
unfolding opened
offer_result = refl

run-Effect_example :
    Effect config Transition new_agent (run config offer new_agent).0 (run config offer new_agent).1
run-Effect_example = run-Effect config offer new_agent

abbrev script : List Operation
script = offer ∷ answer offered (accept_proposal none none none) ∷ []

run_all-IsTransition_example : All IsTransition (run_all config script new_agent).events
run_all-IsTransition_example = run_all-IsTransition config script new_agent tt

run-stored_example :
    config.credential_storage.get_by_id (run config offer new_agent).1.records.store offered.id
    ≡ ok offered
run-stored_example =
    run-stored config (memory-IsStorage (λ r. r.id) credential_matches) offer new_agent offered
      offer_result
