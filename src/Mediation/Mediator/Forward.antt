-- ===== src/Mediation/Mediator/Forward.antt =====
-- What the mediator forwards.
use test_lib.Common.{String, true, [], ◌∷◌, ◌≡◌, refl, sym, ap, ◌∙◌, ◌==◌, arith}
use test_lib.Exec.{ok, bind-ok, assert-ok, assert-keeps}
use test_lib.Storage.Repository.Laws.{get_single_by_query-ok, get_single_by_query-reads}
use test_lib.Mediation.Record.{
  MediationRecord, MediationState, MediationRole, granted, mediator, recipient, requested, denied,
  state_name, role_name, assert_ready, assert_role,
}
use test_lib.Mediation.Base.{World, Config, by_recipient_key, get_single_by_recipient_key}
use test_lib.Mediation.Mediator.{ForwardMessage, process_forward_message}

is_granted : (s : MediationState) → (state_name s == state_name granted) ≡ true → s ≡ granted
unfolding state_name
is_granted granted h = refl
is_granted requested h = absurd (ground (arith, h))
is_granted denied h = absurd (ground (arith, h))

is_mediator : (s : MediationRole) → (role_name s == role_name mediator) ≡ true → s ≡ mediator
unfolding role_name
is_mediator mediator h = refl
is_mediator recipient h = absurd (ground (arith, h))

module _ {RS CS CQ KS KQ MS Y : Type 0} (config : Config RS CS CQ KS KQ MS Y) where
  open config use {mediation_storage}

  get_single_by_recipient_key-reads :
      (key : String) (w : World RS CS KS MS Y) → (get_single_by_recipient_key config key w).1 ≡ w
  unfolding get_single_by_recipient_key
  get_single_by_recipient_key-reads key w =
      ap (λ r. record w { records = r }) (get_single_by_query-reads mediation_storage _ w.records)

  get_single_by_recipient_key-ok :
      (key : String) (w w' : World RS CS KS MS Y) (r : MediationRecord)
      → get_single_by_recipient_key config key w ≡ (ok r, w')
      → mediation_storage.find_by_query w.records.store (by_recipient_key key) ≡ ok (r ∷ [])
  unfolding get_single_by_recipient_key
  get_single_by_recipient_key-ok key w w' r h =
      get_single_by_query-ok mediation_storage _ w.records r _ (ap (λ p. (p.0, p.1.records)) h)

  -- If the mediator forwards the message, then the packed message goes on as it came, to the only
  -- mediation whose keys have the recipient key that the message names; that mediation is granted,
  -- this agent is its mediator, and nothing has changed.
  pub process_forward_message-allowed :
      (message : ForwardMessage) (r : MediationRecord) (payload : String)
      (w w' : World RS CS KS MS Y)
      → process_forward_message config message w ≡ (ok (r, payload), w')
      → (mediation_storage.find_by_query w.records.store (by_recipient_key message.to)
          ≡ ok (r ∷ []))
        × (r.state ≡ granted)
        × (r.role ≡ mediator)
        × (payload ≡ message.message)
        × (w' ≡ w)
  unfolding process_forward_message assert_ready assert_role
  process_forward_message-allowed message r payload w w' h =
      let (u, w₁, named, h₁) = bind-ok _ _ w w' (r, payload) h in
      let (r₁, w₂, found, h₂) = bind-ok _ _ w₁ w' (r, payload) h₁ in
      let (u₁, w₃, ready, h₃) = bind-ok _ _ w₂ w' (r, payload) h₂ in
      let (u₂, w₄, of_role, h₄) = bind-ok _ _ w₃ w' (r, payload) h₃ in
      let same : r₁ ≡ r = cc in
      let start : w ≡ w₁ = assert-keeps _ _ w w₁ u named in
      let read : w₂ ≡ w₁ =
        sym (ap (λ p. p.1) found) ∙ get_single_by_recipient_key-reads message.to w₁ in
      let end_state : w₄ ≡ w' = cc in
      (
        rw (start, sym same) (get_single_by_recipient_key-ok message.to w₁ w₂ r₁ found),
        rw (sym same) (is_granted r₁.state (assert-ok _ _ w₂ w₃ u₁ ready)),
        rw (sym same) (is_mediator r₁.role (assert-ok _ _ w₃ w₄ u₂ of_role)),
        cc,
        sym end_state
            ∙ sym (assert-keeps _ _ w₃ w₄ u₂ of_role)
            ∙ sym (assert-keeps _ _ w₂ w₃ u₁ ready)
            ∙ read
            ∙ sym start,
      )
