-- ===== src/Credential/Protocol/AutoAccept/Approval.antt =====
-- What an agent that compares the contents has seen when it answers by itself.
use test_lib.Common.{String, Bool, true, false, Option, none, some, List, [], ◌≡◌, refl, arith}
use test_lib.Exec.{ok, Exec, pure, ◌>>=◌, bind-ok}
use test_lib.Message.{AgentMessage, PreviewAttribute}
use test_lib.Storage.DidComm.{Stores}
use test_lib.Exchange.AutoAccept.{all_respond}
use test_lib.Exchange.AutoAccept.Laws.{AllAgree, all_respond-AllAgree, if_found-ok}
use test_lib.Credential.Record.{CredentialExchangeRecord, content_approved}
use test_lib.Credential.Preview.Laws.{named}
use test_lib.Credential.Preview.Order.{equal-named}
use test_lib.Credential.Format.{CredentialFormatService}
use test_lib.Credential.Protocol.Base.{Config}
use test_lib.Credential.Protocol.Formats.{get_format_services_from_message}
use test_lib.Credential.Protocol.AutoAccept.{
  attributes_or_empty, previews_agree_on_proposal, previews_agree_on_offer, ask_on_proposal,
  ask_on_offer, ask_on_request, ask_on_credential, and_then, find_proposal_message,
  find_offer_message, find_request_message, compare_proposal, compare_offer, compare_request,
  compare_credential, should_auto_respond_to_proposal, should_auto_respond_to_offer,
  should_auto_respond_to_request, should_auto_respond_to_credential,
}
use test_lib.Credential.Protocol.AutoAccept.Laws.{
  Kind, on_proposal, on_offer, on_request, on_credential, should_auto_respond, setting,
}

-- two previews with the same attribute under every name
abbrev pub IsSame : List PreviewAttribute → List PreviewAttribute → Type 0
IsSame first second = (name : String) → named first name ≡ named second name

-- neither message has a preview, or both have one, with the same attributes
pub data IsSamePreview
    : Option (List PreviewAttribute) → Option (List PreviewAttribute) → Type 0 where
  without_preview : IsSamePreview none none
  with_preview :
      {first second : List PreviewAttribute}
      → IsSame first second
      → IsSamePreview (some first) (some second)

previews_agree_on_proposal-IsSamePreview :
    (proposed offered : Option (List PreviewAttribute))
    → previews_agree_on_proposal proposed offered ≡ true
    → IsSamePreview proposed offered
unfolding previews_agree_on_proposal
previews_agree_on_proposal-IsSamePreview none none h = without_preview
previews_agree_on_proposal-IsSamePreview (some proposed) (some offered) h =
    with_preview λ name. equal-named proposed offered name h
previews_agree_on_proposal-IsSamePreview _ _ h = absurd (ground (arith, h))

previews_agree_on_offer-IsSame :
    (proposed offered : Option (List PreviewAttribute))
    → previews_agree_on_offer proposed offered ≡ true
    → IsSame (attributes_or_empty proposed) (attributes_or_empty offered)
unfolding previews_agree_on_offer
previews_agree_on_offer-IsSame none none h name = refl
previews_agree_on_offer-IsSame (some proposed) offered h name =
    equal-named proposed (attributes_or_empty offered) name h
previews_agree_on_offer-IsSame none (some offered) h name = equal-named [] offered name h

-- The earlier message that is stored for the record, the agreement of every format service that
-- it was sent for, and, where the previews count, their agreement.
pub data Approved {CS MS X : Type 0} (config : Config CS MS X) (r : CredentialExchangeRecord)
    (message : AgentMessage) (s s' : Stores MS X) : Kind → Type 0 where
  proposal_approved :
      {offer : AgentMessage} {found : Stores MS X}
      → find_offer_message config r.id s ≡ (ok (some offer), found)
      → AllAgree
          (ask_on_proposal r message offer)
          (get_format_services_from_message config.credential_formats offer.formats)
          found
          s'
      → IsSamePreview message.credential_preview offer.credential_preview
      → Approved config r message s s' on_proposal
  offer_approved :
      {proposal : AgentMessage} {found : Stores MS X}
      → find_proposal_message config r.id s ≡ (ok (some proposal), found)
      → AllAgree
          (ask_on_offer r message proposal)
          (get_format_services_from_message config.credential_formats proposal.formats)
          found
          s'
      → IsSame
          (attributes_or_empty proposal.credential_preview)
          (attributes_or_empty message.credential_preview)
      → Approved config r message s s' on_offer
  request_approved :
      {proposal : Option AgentMessage} {offer : AgentMessage} {between found : Stores MS X}
      → find_proposal_message config r.id s ≡ (ok proposal, between)
      → find_offer_message config r.id between ≡ (ok (some offer), found)
      → AllAgree
          (ask_on_request r message proposal offer)
          (get_format_services_from_message config.credential_formats offer.formats)
          found
          s'
      → Approved config r message s s' on_request
  credential_approved :
      {proposal offer : Option AgentMessage} {request : AgentMessage}
      {first second found : Stores MS X}
      → find_proposal_message config r.id s ≡ (ok proposal, first)
      → find_offer_message config r.id first ≡ (ok offer, second)
      → find_request_message config r.id second ≡ (ok (some request), found)
      → AllAgree
          (ask_on_credential r message proposal offer request)
          (get_format_services_from_message config.credential_formats request.formats)
          found
          s'
      → Approved config r message s s' on_credential

module _ {MS X : Type 0} where
  -- the loop, and then the previews
  compared :
      (ask : CredentialFormatService X → Exec (Stores MS X) Bool)
      (services : List (CredentialFormatService X)) (agree : Bool) (s s' : Stores MS X)
      → (all_respond ask services >>= λ responded. pure (and_then responded agree)) s
        ≡ (ok true, s')
      → AllAgree ask services s s' × (agree ≡ true)
  compared ask services agree s s' h =
      let (responded, between, asked, later) = bind-ok (all_respond ask services) _ s s' true h in
      go responded asked later
    where
      go :
          {between : Stores MS X} (responded : Bool)
          → all_respond ask services s ≡ (ok responded, between)
          → pure (and_then responded agree) between ≡ (ok true, s')
          → AllAgree ask services s s' × (agree ≡ true)
      go true asked later = (
        all_respond-AllAgree ask services s s' (ground (arith, asked, later)),
        ground (arith, later),
      )
      go false asked later = absurd (ground (arith, later))

module _ {CS MS X : Type 0} (config : Config CS MS X) where
  -- An agent that compares the contents answers by itself only if the earlier message is stored for
  -- the record and every format service of that message agrees. On a proposal, besides, neither
  -- message has a preview, or both have one with the same attribute under each name; on an offer,
  -- the same attribute stands under each name, where a missing preview counts as an empty one.
  pub should_auto_respond-Approved :
      (kind : Kind) (r : CredentialExchangeRecord) (message : AgentMessage) (s s' : Stores MS X)
      → setting config r ≡ content_approved
      → should_auto_respond config kind r message s ≡ (ok true, s')
      → Approved config r message s s' kind
  unfolding should_auto_respond_to_proposal should_auto_respond_to_offer
      should_auto_respond_to_request should_auto_respond_to_credential compare_proposal
      compare_offer compare_request compare_credential
  should_auto_respond-Approved on_proposal r message s s' set h =
      let (found, between, at, h1) =
        bind-ok (find_offer_message config r.id) _ s s' true (rw set at h) in
      let (offer, is, h2) = if_found-ok found _ between s' h1 in
      let (all, same) = compared _ _ _ between s' h2 in
      proposal_approved (rw is at at) all (previews_agree_on_proposal-IsSamePreview _ _ same)
  should_auto_respond-Approved on_offer r message s s' set h =
      let (found, between, at, h1) =
        bind-ok (find_proposal_message config r.id) _ s s' true (rw set at h) in
      let (proposal, is, h2) = if_found-ok found _ between s' h1 in
      let (all, same) = compared _ _ _ between s' h2 in
      offer_approved (rw is at at) all (previews_agree_on_offer-IsSame _ _ same)
  should_auto_respond-Approved on_request r message s s' set h =
      let (proposal, first, at, h1) =
        bind-ok (find_proposal_message config r.id) _ s s' true (rw set at h) in
      let (found, second, at', h2) = bind-ok (find_offer_message config r.id) _ first s' true h1 in
      let (offer, is, h3) = if_found-ok found _ second s' h2 in
      request_approved at (rw is at at') (all_respond-AllAgree _ _ second s' h3)
  should_auto_respond-Approved on_credential r message s s' set h =
      let (proposal, first, at, h1) =
        bind-ok (find_proposal_message config r.id) _ s s' true (rw set at h) in
      let (offer, second, at', h2) = bind-ok (find_offer_message config r.id) _ first s' true h1 in
      let (found, third, at'', h3) =
        bind-ok (find_request_message config r.id) _ second s' true h2 in
      let (request, is, h4) = if_found-ok found _ third s' h3 in
      credential_approved at at' (rw is at at'') (all_respond-AllAgree _ _ third s' h4)
