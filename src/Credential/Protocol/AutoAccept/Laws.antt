-- ===== src/Credential/Protocol/AutoAccept/Laws.antt =====
-- When the agent answers by itself: the setting decides alone, or every format service and the
-- previews agree.
use test_lib.Common.{Bool, true, false, Option, none, some, ◌≡◌, refl}
use test_lib.Exec.{ok, Exec}
use test_lib.Message.{AgentMessage}
use test_lib.Storage.DidComm.{Stores}
use test_lib.Credential.Record.{
  CredentialExchangeRecord, AutoAcceptCredential, always, never, compose_auto_accept,
}
use test_lib.Credential.Protocol.Base.{Config}
use test_lib.Credential.Protocol.AutoAccept.{
  by_auto_accept, should_auto_respond_to_proposal, should_auto_respond_to_offer,
  should_auto_respond_to_request, should_auto_respond_to_credential,
}

-- the message that came in, which picks the method that decides
pub data Kind : Type 0 where
  on_proposal on_offer on_request on_credential : Kind

-- The setting of the record, if it has one, and else that of the agent, decides by itself; without
-- any setting the agent does not answer.
pub data Decides : Option AutoAcceptCredential → Option AutoAcceptCredential → Bool → Type 0 where
  by_record_always : {of_agent : Option AutoAcceptCredential} → Decides (some always) of_agent true
  by_record_never : {of_agent : Option AutoAcceptCredential} → Decides (some never) of_agent false
  by_agent_always : Decides none (some always) true
  by_agent_never : Decides none (some never) false
  by_default : Decides none none false

module _ {CS MS X : Type 0} (config : Config CS MS X) where
  abbrev pub should_auto_respond :
      Kind → CredentialExchangeRecord → AgentMessage → Exec (Stores MS X) Bool
  should_auto_respond on_proposal = should_auto_respond_to_proposal config
  should_auto_respond on_offer = should_auto_respond_to_offer config
  should_auto_respond on_request = should_auto_respond_to_request config
  should_auto_respond on_credential = should_auto_respond_to_credential config

  abbrev pub setting : CredentialExchangeRecord → AutoAcceptCredential
  setting r = compose_auto_accept r.auto_accept_credential config.auto_accept_credentials

  composed :
      {of_record of_agent : Option AutoAcceptCredential} {answer : Bool}
      → Decides of_record of_agent answer
      → (compare : Exec (Stores MS X) Bool) (s : Stores MS X)
      → by_auto_accept (compose_auto_accept of_record of_agent) compare s ≡ (ok answer, s)
  unfolding compose_auto_accept
  composed by_record_always compare s = refl
  composed by_record_never compare s = refl
  composed by_agent_always compare s = refl
  composed by_agent_never compare s = refl
  composed by_default compare s = refl

  -- If the record's setting is always or never, then the agent answers, or does not, whatever its own
  -- setting is and whichever message came in; if the record has no setting, then the agent's setting
  -- decides so, and without any setting it does not answer. In these cases no storage is read, no
  -- format service is asked, and nothing can fail.
  pub should_auto_respond-setting :
      (kind : Kind) (r : CredentialExchangeRecord) (message : AgentMessage) (s : Stores MS X)
      (answer : Bool)
      → Decides r.auto_accept_credential config.auto_accept_credentials answer
      → should_auto_respond kind r message s ≡ (ok answer, s)
  unfolding should_auto_respond_to_proposal should_auto_respond_to_offer
      should_auto_respond_to_request should_auto_respond_to_credential
  should_auto_respond-setting on_proposal r message s answer decided = composed decided _ s
  should_auto_respond-setting on_offer r message s answer decided = composed decided _ s
  should_auto_respond-setting on_request r message s answer decided = composed decided _ s
  should_auto_respond-setting on_credential r message s answer decided = composed decided _ s
