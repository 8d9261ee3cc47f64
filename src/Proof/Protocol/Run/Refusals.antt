-- ===== src/Proof/Protocol/Run/Refusals.antt =====
-- The user's answers are refused in any state but the one that the protocol wants.
use test_lib.Common.{String, ◌≡◌, ◌≢◌, ◌⊎◌, inl, inr, refl, sym, ◌==◌, eq_iff, Bool-cases}
use test_lib.Exec.{err, aries_framework_error, Exec, ◌>>=◌, ◌>>◌}
use test_lib.Proof.Record.{
  ProofState, ProofExchangeRecord, proposal_received, request_received, presentation_received,
  state_name, assert_protocol_version, assert_state,
}
use test_lib.Proof.Record.States.{state_name-injective}
use test_lib.Proof.Protocol.Base.{World, Config}
use test_lib.Proof.Protocol.Proposal
use test_lib.Proof.Protocol.Request
use test_lib.Proof.Protocol.Presentation
use test_lib.Proof.Protocol.Run.{
  Answer, accept_proposal, accept_request, negotiate_proposal, negotiate_request,
  accept_presentation, the_record, give_answer,
}

-- the state in which an answer makes sense
abbrev pub required : Answer → ProofState
required (accept_proposal _ _) = proposal_received
required (negotiate_proposal _ _) = proposal_received
required (accept_request _ _) = request_received
required (negotiate_request _ _) = request_received
required accept_presentation = presentation_received

-- `m` fails with an error of the framework, and changes nothing
pub record Refuses {PS MS X A : Type 0} (m : Exec (World PS MS X) A) (w : World PS MS X)
    : Type 0 where
  pub message : String
  pub refused : m w ≡ (err (aries_framework_error message), w)

module _ {PS MS X A : Type 0} where
  asserts-Refuses :
      (expected : ProofState) (r : ProofExchangeRecord) (m : Exec (World PS MS X) A)
      (w : World PS MS X)
      → (r.protocol_version ≢ "v2") ⊎ (r.state ≢ expected)
      → Refuses (assert_protocol_version "v2" r >> (assert_state expected r >> m)) w
  unfolding assert_protocol_version assert_state ◌>>=◌
  asserts-Refuses expected r m w h = elim (Bool-cases (r.protocol_version == "v2")) [
    | inr old ↦ record {
      message = "Proof record has invalid protocol version";
      refused = rw old refl;
    }
    | inl current ↦ elim (Bool-cases (state_name expected == state_name r.state)) [
      | inr other ↦ record {
        message = "Proof record is in invalid state";
        refused = rw (current, other) refl;
      }
      | inl same ↦ elim h [
        | inl wrong ↦ absurd (wrong ((eq_iff _ _).0 current))
        | inr wrong ↦ absurd (wrong (sym (state_name-injective _ _ ((eq_iff _ _).0 same))))
      ]
    ]
  ]

module _ {PS MS X M : Type 0} where
  the_record-Refuses :
      (m : Exec (World PS MS X) (ProofExchangeRecord × M)) (w : World PS MS X)
      → Refuses m w
      → Refuses (the_record m) w
  the_record-Refuses m w f = record { message = f.message; refused = rw f.refused refl }

module _ {PS MS X : Type 0} (config : Config PS MS X) where
  -- An answer to a proof record of another protocol version, or in another state than the answer
  -- needs, fails with an error of the framework and changes nothing: no record, no stored message,
  -- no event, nothing of the wallet.
  pub give_answer-Refuses :
      (r : ProofExchangeRecord) (a : Answer) (w : World PS MS X)
      → (r.protocol_version ≢ "v2") ⊎ (r.state ≢ required a)
      → Refuses (give_answer config r a) w
  unfolding Proposal.accept_proposal Proposal.negotiate_proposal Request.accept_request
      Request.negotiate_request Presentation.accept_presentation
  give_answer-Refuses r (accept_proposal payload options) w h =
      the_record-Refuses (Proposal.accept_proposal config r payload options) w
        (asserts-Refuses _ r _ w h)
  give_answer-Refuses r (negotiate_proposal payload options) w h =
      the_record-Refuses (Proposal.negotiate_proposal config r payload options) w
        (asserts-Refuses _ r _ w h)
  give_answer-Refuses r (accept_request payload options) w h =
      the_record-Refuses (Request.accept_request config r payload options) w
        (asserts-Refuses _ r _ w h)
  give_answer-Refuses r (negotiate_request payload options) w h =
      the_record-Refuses (Request.negotiate_request config r payload options) w
        (asserts-Refuses _ r _ w h)
  give_answer-Refuses r accept_presentation w h =
      the_record-Refuses (Presentation.accept_presentation config r) w (asserts-Refuses _ r _ w h)
