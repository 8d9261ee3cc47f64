-- ===== src/Credential/Protocol/Run/Refusals.antt =====
-- The user's answers are refused in any state but the one that the protocol wants.
use test_lib.Common.{String, ◌≡◌, ◌≢◌, ◌⊎◌, inl, inr, refl, sym, ◌==◌, eq_iff, Bool-cases}
use test_lib.Exec.{err, aries_framework_error, Exec, ◌>>=◌, ◌>>◌}
use test_lib.Credential.Record.{
  CredentialState, CredentialExchangeRecord, proposal_received, offer_received, request_received,
  credential_received, state_name, assert_protocol_version, assert_state,
}
use test_lib.Credential.Record.States.{state_name-injective}
use test_lib.Credential.Protocol.Base.{World, Config}
use test_lib.Credential.Protocol.Proposal
use test_lib.Credential.Protocol.Offer
use test_lib.Credential.Protocol.Request
use test_lib.Credential.Protocol.Issue
use test_lib.Credential.Protocol.Run.{
  Answer, accept_proposal, accept_offer, accept_request, negotiate_proposal, negotiate_offer,
  accept_credential, the_record, run_answer,
}

-- the state in which an answer makes sense
abbrev pub required : Answer → CredentialState
required (accept_proposal _ _ _) = proposal_received
required (negotiate_proposal _ _ _) = proposal_received
required (accept_offer _ _ _) = offer_received
required (negotiate_offer _ _ _) = offer_received
required (accept_request _ _ _) = request_received
required accept_credential = credential_received

-- `m` fails with an error of the framework, and changes nothing
pub record Refuses {CS MS X A : Type 0} (m : Exec (World CS MS X) A) (w : World CS MS X)
    : Type 0 where
  pub message : String
  pub refused : m w ≡ (err (aries_framework_error message), w)

module _ {CS MS X A : Type 0} where
  asserts-Refuses :
      (expected : CredentialState) (r : CredentialExchangeRecord) (m : Exec (World CS MS X) A)
      (w : World CS MS X)
      → (r.protocol_version ≢ "v2") ⊎ (r.state ≢ expected)
      → Refuses (assert_protocol_version "v2" r >> (assert_state expected r >> m)) w
  unfolding assert_protocol_version assert_state ◌>>=◌
  asserts-Refuses expected r m w h = elim (Bool-cases (r.protocol_version == "v2")) [
    | inr old ↦ record {
      message = "Credential record has invalid protocol version";
      refused = rw old refl;
    }
    | inl current ↦ elim (Bool-cases (state_name expected == state_name r.state)) [
      | inr other ↦ record {
        message = "Credential record is in invalid state";
        refused = rw (current, other) refl;
      }
      | inl same ↦ elim h [
        | inl wrong ↦ absurd (wrong ((eq_iff _ _).0 current))
        | inr wrong ↦ absurd (wrong (sym (state_name-injective _ _ ((eq_iff _ _).0 same))))
      ]
    ]
  ]

module _ {CS MS X M : Type 0} where
  the_record-Refuses :
      (m : Exec (World CS MS X) (CredentialExchangeRecord × M)) (w : World CS MS X)
      → Refuses m w
      → Refuses (the_record m) w
  the_record-Refuses m w f = record { message = f.message; refused = rw f.refused refl }

module _ {CS MS X : Type 0} (config : Config CS MS X) where
  -- An answer to a record of another protocol version, or in another state than the answer needs,
  -- fails with an error of the framework and changes nothing: no record, no stored message, no
  -- event, nothing of the wallet.
  pub run_answer-Refuses :
      (r : CredentialExchangeRecord) (a : Answer) (w : World CS MS X)
      → (r.protocol_version ≢ "v2") ⊎ (r.state ≢ required a)
      → Refuses (run_answer config r a) w
  unfolding Proposal.accept_proposal Proposal.negotiate_proposal Offer.accept_offer
      Offer.negotiate_offer Request.accept_request Issue.accept_credential
  run_answer-Refuses r (accept_proposal payload auto_accept comment) w h =
      the_record-Refuses (Proposal.accept_proposal config r payload auto_accept comment) w
        (asserts-Refuses _ r _ w h)
  run_answer-Refuses r (negotiate_proposal payload auto_accept comment) w h =
      the_record-Refuses (Proposal.negotiate_proposal config r payload auto_accept comment) w
        (asserts-Refuses _ r _ w h)
  run_answer-Refuses r (accept_offer payload auto_accept comment) w h =
      the_record-Refuses (Offer.accept_offer config r payload auto_accept comment) w
        (asserts-Refuses _ r _ w h)
  run_answer-Refuses r (negotiate_offer payload auto_accept comment) w h =
      the_record-Refuses (Offer.negotiate_offer config r payload auto_accept comment) w
        (asserts-Refuses _ r _ w h)
  run_answer-Refuses r (accept_request payload auto_accept comment) w h =
      the_record-Refuses (Request.accept_request config r payload auto_accept comment) w
        (asserts-Refuses _ r _ w h)
  run_answer-Refuses r accept_credential w h =
      the_record-Refuses (Issue.accept_credential config r) w (asserts-Refuses _ r _ w h)
