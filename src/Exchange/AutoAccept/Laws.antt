-- ===== src/Exchange/AutoAccept/Laws.antt =====
-- What the loops of the automatic answers have seen when they end in `true`.
use test_lib.Common.{
  Bool, true, false, Option, none, some, List, [], ◌∷◌, ◌≡◌, refl, ap, subst, arith,
}
use test_lib.Exec.{ok, Exec, bind-ok}
use test_lib.Message.{AgentMessage}
use test_lib.Storage.DidComm.{Stores}
use test_lib.Exchange.AutoAccept.{all_respond, if_responded, if_found}

-- Each service, asked in the state that the ones before it left, agrees.
pub data AllAgree {S F : Type 0} (ask : F → Exec S Bool) : List F → S → S → Type 0 where
  all_asked : {s : S} → AllAgree ask [] s s
  agreed :
      {service : F} {services : List F} {s between s' : S}
      → ask service s ≡ (ok true, between)
      → AllAgree ask services between s'
      → AllAgree ask (service ∷ services) s s'

module _ {MS X F : Type 0} (ask : F → Exec (Stores MS X) Bool) where
  asked-AllAgree :
      (service : F) (services : List F) {s between s' : Stores MS X} (responded : Bool)
      → ((t : Stores MS X)
          → all_respond ask services t ≡ (ok true, s')
          → AllAgree ask services t s')
      → ask service s ≡ (ok responded, between)
      → if_responded responded (all_respond ask services) between ≡ (ok true, s')
      → AllAgree ask (service ∷ services) s s'
  asked-AllAgree service services true rest asked later = agreed asked (rest _ later)
  asked-AllAgree service services false rest asked later = absurd (ground (arith, later))

  pub all_respond-AllAgree :
      (services : List F) (s s' : Stores MS X)
      → all_respond ask services s ≡ (ok true, s')
      → AllAgree ask services s s'
  unfolding all_respond
  all_respond-AllAgree [] s s' h = subst (λ t. AllAgree ask [] s t) (ap (λ p. p.1) h) all_asked
  all_respond-AllAgree (service ∷ services) s s' h =
      let (responded, between, asked, later) = bind-ok (ask service) _ s s' true h in
      asked-AllAgree service services responded (λ t. all_respond-AllAgree services t s') asked
        later

module _ {MS X : Type 0} where
  pub if_found-ok :
      (found : Option AgentMessage) (compare : AgentMessage → Exec (Stores MS X) Bool)
      (s s' : Stores MS X)
      → if_found found compare s ≡ (ok true, s')
      → (message : AgentMessage) × (found ≡ some message) × (compare message s ≡ (ok true, s'))
  if_found-ok none compare s s' h = absurd (ground (arith, h))
  if_found-ok (some message) compare s s' h = (message, refl, h)
