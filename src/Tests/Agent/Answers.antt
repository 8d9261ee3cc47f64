-- ===== src/Tests/Agent/Answers.antt =====
-- The answers of the agent, of its user's and by itself, at concrete inputs.
use test_lib.Common.{
  ◌==◌, ℕ, String, Bool, true, false, none, some, List, [], ◌∷◌, ◌≡◌, ◌≢◌, ◌⊎◌, refl, ap, arith,
  inr,
}
use test_lib.Exec.{ok, err, Error, record_not_found}
use test_lib.Message.{FormatSpec, AgentMessage, propose_credential}
use test_lib.Storage.DidComm.{DidCommMessageRecord, Stores}
use test_lib.Credential.Record.{
  always, CredentialState, credential_received, offer_sent, new_record,
}
use test_lib.Credential.Preview.{are_preview_attributes_equal}
use test_lib.Credential.Protocol.Formats.{get_format_service_for_format_key, get_format_services}
use test_lib.Exchange.Selection.Laws.{IsFirst, IsSelection}
use test_lib.Credential.Protocol.Formats.Selection.{get_format_services-IsSelection}
use test_lib.Exchange.AutoAccept.{all_respond}
use test_lib.Credential.Protocol.AutoAccept.{
  ask_on_proposal, find_offer_message, previews_agree_on_proposal, compare_proposal,
  should_auto_respond_to_proposal,
}
use test_lib.Credential.Protocol.AutoAccept.Laws.{
  on_proposal, on_credential, should_auto_respond, should_auto_respond-setting, by_record_always,
}
use test_lib.Credential.Protocol.AutoAccept.Approval.{Approved, should_auto_respond-Approved}
use test_lib.Credential.Protocol.Run.{accept_credential, run_answer, run}
use test_lib.Credential.Protocol.Run.Refusals.{Refuses, run_answer-Refuses}
use test_lib.Credential.Protocol.Delete.{delete}
use test_lib.Credential.Protocol.Delete.Laws.{delete-gone}
use test_lib.Tests.Memory.{memory-IsStorage}
use test_lib.Tests.Agent.{credential_matches, config, new_agent, opened}
use test_lib.Tests.Agent.Credential.{offer, offered}

abbrev is_offer_sent : CredentialState → Bool
is_offer_sent offer_sent = true
is_offer_sent _ = false

state_ne : offered.state ≢ credential_received
unfolding new_record
state_ne e = let clash : true ≡ false = ap is_offer_sent e in absurd (ground (arith, clash))

run_answer-Refuses_example : Refuses (run_answer config offered accept_credential) new_agent
run_answer-Refuses_example =
    run_answer-Refuses config offered accept_credential new_agent (inr state_ne)

abbrev two_formats : List FormatSpec
two_formats =
    record { attachment_id = "a"; format = "plain" }
    ∷ record { attachment_id = "b"; format = "plain" }
    ∷ []

abbrev payload : List (String × String)
payload = ("plain", "{}") ∷ ("other", "{}") ∷ []

get_format_services-IsSelection_example :
    ((key : String)
      → IsFirst
          (λ service. service.format_key == key)
          0
          config.credential_formats
          (get_format_service_for_format_key config.credential_formats key))
    × IsSelection config.credential_formats
        (λ (p : String × String). get_format_service_for_format_key config.credential_formats p.0)
        payload
        (get_format_services config.credential_formats payload)
get_format_services-IsSelection_example =
    get_format_services-IsSelection config.credential_formats payload

abbrev proposal : AgentMessage
proposal = record {
  message_class = propose_credential;
  id = "p";
  thread = none;
  service = none;
  comment = none;
  parent_thread = none;
  goal_code = none;
  will_confirm = false;
  present_multiple = false;
  last_presentation = true;
  please_ack = false;
  formats = record { attachment_id = "x"; format = "plain" } ∷ [];
  attachments = record { id = "x"; content = "{}" } ∷ [];
  credential_preview = some [];
}

abbrev stores : Stores (List DidCommMessageRecord) ℕ
stores = (run config offer new_agent).1.stores

should_auto_respond-setting_example :
    should_auto_respond config on_credential
      (record offered { auto_accept_credential = some always })
      proposal
      stores
    ≡ (ok true, stores)
should_auto_respond-setting_example =
    should_auto_respond-setting config on_credential
      (record offered { auto_accept_credential = some always }) proposal stores true
      by_record_always

responds : should_auto_respond config on_proposal offered proposal stores ≡ (ok true, stores)
unfolding opened all_respond ask_on_proposal find_offer_message previews_agree_on_proposal
    compare_proposal should_auto_respond_to_proposal are_preview_attributes_equal
responds = refl

should_auto_respond-Approved_example : Approved config offered proposal stores stores on_proposal
unfolding new_record
should_auto_respond-Approved_example =
    should_auto_respond-Approved config on_proposal offered proposal stores stores refl responds

delete-gone_example :
    ((e : Error) × (delete config offered none (run config offer new_agent).1
        ≡ (err e, (run config offer new_agent).1)))
    ⊎ ((config.credential_storage.get_by_id
            (delete config offered none (run config offer new_agent).1).1.records.store
            offered.id
          ≡ err record_not_found)
        × ((delete config offered none (run config offer new_agent).1).1.events
            ≡ (run config offer new_agent).1.events))
delete-gone_example =
    delete-gone config (memory-IsStorage (λ r. r.id) credential_matches) offered none
      (run config offer new_agent).1
