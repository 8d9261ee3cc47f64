-- ===== src/Credential/Record/States.antt =====
-- The states of an exchange are told apart by their names.
use test_lib.Common.{String, ◌≡◌, refl, sym, ap, ◌∙◌, ◌==◌, if◌then◌else◌}
use test_lib.Credential.Record.{
  CredentialState, proposal_sent, proposal_received, offer_sent, offer_received, declined,
  request_sent, request_received, credential_issued, credential_received, done, abandoned,
  state_name,
}

of_name : String → CredentialState
of_name s =
    if s == "proposal-sent"
    then proposal_sent
    else if s == "proposal-received"
    then proposal_received
    else if s == "offer-sent"
    then offer_sent
    else if s == "offer-received"
    then offer_received
    else if s == "declined"
    then declined
    else if s == "request-sent"
    then request_sent
    else if s == "request-received"
    then request_received
    else if s == "credential-issued"
    then credential_issued
    else if s == "credential-received"
    then credential_received
    else if s == "done"
    then done
    else abandoned

of_name-state_name : (s : CredentialState) → of_name (state_name s) ≡ s
unfolding of_name state_name
of_name-state_name proposal_sent = refl
of_name-state_name _ = refl

pub state_name-injective : (a b : CredentialState) → state_name a ≡ state_name b → a ≡ b
state_name-injective a b e = sym (of_name-state_name a) ∙ ap of_name e ∙ of_name-state_name b
