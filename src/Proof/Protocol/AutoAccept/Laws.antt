-- ===== src/Proof/Protocol/AutoAccept/Laws.antt =====
-- What an agent has seen when it answers a message of the present-proof protocol by itself.
use test_lib.Common.{Bool, true, false, Option, some, ◌≡◌, ◌⊎◌, inl, inr, refl, arith}
use test_lib.Exec.{ok, Exec, bind-ok}
use test_lib.Message.{AgentMessage}
use test_lib.Storage.DidComm.{Stores}
use test_lib.Exchange.AutoAccept.Laws.{AllAgree, all_respond-AllAgree, if_found-ok}
use test_lib.Proof.Record.{
  ProofExchangeRecord, AutoAcceptProof, always, content_approved, never, compose_auto_accept,
}
use test_lib.Proof.Protocol.Base.{Config}
use test_lib.Proof.Protocol.Formats.{get_format_services_from_message}
use test_lib.Proof.Protocol.AutoAccept.{
  ask_on_proposal, ask_on_request, ask_on_presentation, by_auto_accept, only_if,
  find_proposal_message, find_request_message, should_auto_respond_to_proposal,
  should_auto_respond_to_request, should_auto_respond_to_presentation,
}

-- the message that came in, which picks the method that decides
pub data Kind : Type 0 where
  on_proposal on_request on_presentation : Kind

module _ {PS MS X : Type 0} (config : Config PS MS X) where
  abbrev pub should_auto_respond :
      Kind → ProofExchangeRecord → AgentMessage → Exec (Stores MS X) Bool
  should_auto_respond on_proposal = should_auto_respond_to_proposal config
  should_auto_respond on_request = should_auto_respond_to_request config
  should_auto_respond on_presentation = should_auto_respond_to_presentation config

  abbrev pub setting : ProofExchangeRecord → AutoAcceptProof
  setting r = compose_auto_accept r.auto_accept_proof config.auto_accept_proofs

-- What a presentation must say before anything else is looked at.
abbrev pub IsAnswerable : Kind → AgentMessage → Type 0
IsAnswerable on_presentation message = message.last_presentation ≡ true
IsAnswerable _ message = Unit

-- The earlier message that is stored for the record, and the agreement of every format service that
-- it was sent for; on a presentation, the request asked for a confirmation.
pub data Agreed {PS MS X : Type 0} (config : Config PS MS X) (r : ProofExchangeRecord)
    (message : AgentMessage) (s s' : Stores MS X) : Kind → Type 0 where
  proposal_agreed :
      {request : AgentMessage} {found : Stores MS X}
      → find_request_message config r.id s ≡ (ok (some request), found)
      → AllAgree
          (ask_on_proposal r message request)
          (get_format_services_from_message config.proof_formats request.formats)
          found
          s'
      → Agreed config r message s s' on_proposal
  request_agreed :
      {proposal : AgentMessage} {found : Stores MS X}
      → find_proposal_message config r.id s ≡ (ok (some proposal), found)
      → AllAgree
          (ask_on_request r message proposal)
          (get_format_services_from_message config.proof_formats proposal.formats)
          found
          s'
      → Agreed config r message s s' on_request
  presentation_agreed :
      {proposal : Option AgentMessage} {request : AgentMessage} {between found : Stores MS X}
      → find_proposal_message config r.id s ≡ (ok proposal, between)
      → find_request_message config r.id between ≡ (ok (some request), found)
      → request.will_confirm ≡ true
      → AllAgree
          (ask_on_presentation r message proposal request)
          (get_format_services_from_message config.proof_formats request.formats)
          found
          s'
      → Agreed config r message s s' on_presentation

module _ {MS X : Type 0} where
  only_if-ok :
      (flag : Bool) (further : Exec (Stores MS X) Bool) (s s' : Stores MS X)
      → only_if flag further s ≡ (ok true, s')
      → (flag ≡ true) × (further s ≡ (ok true, s'))
  only_if-ok true further s s' h = (refl, h)
  only_if-ok false further s s' h = absurd (ground (arith, h))

  -- the setting answers alone, or the contents do
  by_auto_accept-ok :
      (a : AutoAcceptProof) (compare : Exec (Stores MS X) Bool) (s s' : Stores MS X)
      → by_auto_accept a compare s ≡ (ok true, s')
      → (a ≡ always) ⊎ ((a ≡ content_approved) × (compare s ≡ (ok true, s')))
  by_auto_accept-ok always compare s s' h = inl refl
  by_auto_accept-ok content_approved compare s s' h = inr (refl, h)
  by_auto_accept-ok never compare s s' h = absurd (ground (arith, h))

module _ {PS MS X : Type 0} (config : Config PS MS X) where
  -- An agent answers a message of the present-proof protocol by itself only if its setting is to
  -- answer always, or to compare the contents and the contents agree: the earlier message is stored
  -- for the record and each of its format services agrees. A presentation must be the last one with
  -- either setting, and with the second the request must have asked for a confirmation.
  pub should_auto_respond-Agreed :
      (kind : Kind) (r : ProofExchangeRecord) (message : AgentMessage) (s s' : Stores MS X)
      → should_auto_respond config kind r message s ≡ (ok true, s')
      → IsAnswerable kind message
        × ((setting config r ≡ always)
            ⊎ ((setting config r ≡ content_approved) × Agreed config r message s s' kind))
  unfolding should_auto_respond_to_proposal should_auto_respond_to_request
      should_auto_respond_to_presentation
  should_auto_respond-Agreed on_proposal r message s s' h = (
    tt,
    elim (by_auto_accept-ok (setting config r) _ s s' h) [
      | inl a ↦ inl a
      | inr (a, h0) ↦
          let (found, between, at, h1) =
            bind-ok (find_request_message config r.id) _ s s' true h0 in
          let (request, is, h2) = if_found-ok found _ between s' h1 in
          inr (a, proposal_agreed (rw is at at) (all_respond-AllAgree _ _ between s' h2))
    ],
  )
  should_auto_respond-Agreed on_request r message s s' h = (
    tt,
    elim (by_auto_accept-ok (setting config r) _ s s' h) [
      | inl a ↦ inl a
      | inr (a, h0) ↦
          let (found, between, at, h1) =
            bind-ok (find_proposal_message config r.id) _ s s' true h0 in
          let (proposal, is, h2) = if_found-ok found _ between s' h1 in
          inr (a, request_agreed (rw is at at) (all_respond-AllAgree _ _ between s' h2))
    ],
  )
  should_auto_respond-Agreed on_presentation r message s s' h =
      let (last, h') = only_if-ok message.last_presentation _ s s' h in
      (
        last,
        elim (by_auto_accept-ok (setting config r) _ s s' h') [
          | inl a ↦ inl a
          | inr (a, h0) ↦
              let (proposal, first, at, h1) =
                bind-ok (find_proposal_message config r.id) _ s s' true h0 in
              let (found, second, at', h2) =
                bind-ok (find_request_message config r.id) _ first s' true h1 in
              let (request, is, h3) = if_found-ok found _ second s' h2 in
              let (confirm, h4) = only_if-ok request.will_confirm _ second s' h3 in
              inr (
                a,
                presentation_agreed at (rw is at at') confirm
                    (all_respond-AllAgree _ _ second s' h4),
              )
        ],
      )
