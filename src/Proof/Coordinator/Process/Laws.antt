-- ===== src/Proof/Coordinator/Process/Laws.antt =====
-- What `processPresentation` of ProofFormatCoordinator.ts returns.
use test_lib.Common.{
  Bool, true, false, List, [], ◌∷◌, ◌++◌, ◌≡◌, ◌↔◌, refl, sym, ap, subst, All, arith, append-step,
  append-nil,
}
use test_lib.Exec.{ok, Exec, bind-ok}
use test_lib.Storage.DidComm.{Stores}
use test_lib.Proof.Format.{ProofFormatService}
use test_lib.Proof.Coordinator.Build.{verify_each, every}

-- The services, each asked once in their order, with their answers.
pub data Answered {S F : Type 0} (ask : F → Exec S Bool) : List F → S → List Bool → S → Type 0 where
  all_answered : {s : S} → Answered ask [] s [] s
  answered :
      {service : F} {services : List F} {answer : Bool} {answers : List Bool} {s between s' : S}
      → ask service s ≡ (ok answer, between)
      → Answered ask services between answers s'
      → Answered ask (service ∷ services) s (answer ∷ answers) s'

pub every_iff : (answers : List Bool) → (every answers ≡ true) ↔ All (λ b. b ≡ true) answers
unfolding every
every_iff [] = (λ _. tt, λ _. refl)
every_iff (true ∷ answers) =
    (λ h. (refl, (every_iff answers).0 h), λ (_, h). (every_iff answers).1 h)
every_iff (false ∷ answers) =
    (λ h. absurd (ground (arith, h)), λ (h, _). absurd (ground (arith, h)))

module _ {MS X : Type 0} (ask : ProofFormatService X → Exec (Stores MS X) Bool) where
  pub verify_each-Answered :
      (services : List (ProofFormatService X)) (before results : List Bool) (s s' : Stores MS X)
      → verify_each ask services before s ≡ (ok results, s')
      → (answers : List Bool) × Answered ask services s answers s' × (results ≡ before ++ answers)
  unfolding verify_each
  verify_each-Answered [] before results s s' h =
      let e : before ≡ results = cc in
      (
        [],
        subst (λ t. Answered ask [] s [] t) (ap (λ p. p.1) h) all_answered,
        rw (sym e) (append-nil before),
      )
  verify_each-Answered (service ∷ services) before results s s' h =
      let (answer, between, asked, later) = bind-ok (ask service) _ s s' results h in
      let (answers, rest, e) =
        verify_each-Answered services (before ++ answer ∷ []) results between s' later in
      (answer ∷ answers, answered asked rest, append-step before answer answers results e)
