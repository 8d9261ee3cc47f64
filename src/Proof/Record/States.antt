-- ===== src/Proof/Record/States.antt =====
-- The states of an exchange are told apart by their names.
use test_lib.Common.{String, ◌≡◌, refl, sym, ap, ◌∙◌, ◌==◌, if◌then◌else◌}
use test_lib.Proof.Record.{
  ProofState, proposal_sent, proposal_received, request_sent, request_received, presentation_sent,
  presentation_received, declined, abandoned, done, state_name,
}

of_name : String → ProofState
of_name s =
    if s == "proposal-sent"
    then proposal_sent
    else if s == "proposal-received"
    then proposal_received
    else if s == "request-sent"
    then request_sent
    else if s == "request-received"
    then request_received
    else if s == "presentation-sent"
    then presentation_sent
    else if s == "presentation-received"
    then presentation_received
    else if s == "declined"
    then declined
    else if s == "abandoned"
    then abandoned
    else done

of_name-state_name : (s : ProofState) → of_name (state_name s) ≡ s
unfolding of_name state_name
of_name-state_name proposal_sent = refl
of_name-state_name _ = refl

pub state_name-injective : (a b : ProofState) → state_name a ≡ state_name b → a ≡ b
state_name-injective a b e = sym (of_name-state_name a) ∙ ap of_name e ∙ of_name-state_name b
