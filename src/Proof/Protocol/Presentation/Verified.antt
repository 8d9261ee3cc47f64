-- ===== src/Proof/Protocol/Presentation/Verified.antt =====
-- What it takes that `processPresentation` marks a record as verified.
use test_lib.Common.{
  String, Bool, true, Option, some, List, [], ◌∷◌, ◌≡◌, ◌≢◌, ◌↔◌, refl, sym, ap, ◌∙◌, All, is_empty,
  not, arith,
}
use test_lib.Exec.{Result, ok, err, Exec, assert-ok, bind-ok, continue, ◌>>=◌}
use test_lib.Exec.Reads.{IsRead, IsRead-assert, IsRead-zoom, read-ok}
use test_lib.Message.{AgentMessage, request_presentation, thread_id}
use test_lib.Connection.Inbound.{InboundMessageContext}
use test_lib.Connection.Inbound.Reads.{IsRead-assert_connection_or_service_decorator}
use test_lib.Storage.Repository
use test_lib.Storage.Repository.Laws.{get_single_by_query-reads}
use test_lib.Storage.DidComm
use test_lib.Storage.DidComm.{Stores, receiver}
use test_lib.Storage.DidComm.Reads.{IsRead-get_agent_message, IsRead-find_agent_message}
use test_lib.Proof.Record.{
  ProofExchangeRecord, ProofState, request_sent, presentation_received, assert_protocol_version,
  assert_state,
}
use test_lib.Proof.Format.{ProofFormatService}
use test_lib.Proof.Coordinator.Build.{every, verify_each}
use test_lib.Proof.Coordinator.Process
use test_lib.Proof.Coordinator.Process.{verify}
use test_lib.Proof.Coordinator.Process.Laws.{Answered, every_iff, verify_each-Answered}
use test_lib.Proof.Protocol.Base.{
  World, Config, update_state, get_by_thread_and_connection_id, connection_id, on_stores,
}
use test_lib.Proof.Protocol.Formats.{get_format_services_from_message, some_of}
use test_lib.Proof.Protocol.Presentation.{process_presentation}
use test_lib.Exchange

-- The record, the request and the answers that a call from `w` to `w'` goes by, and what it writes.
pub record Verified {PS MS X : Type 0} (config : Config PS MS X)
    (context : InboundMessageContext AgentMessage) (r : ProofExchangeRecord) (w w' : World PS MS X)
    : Type 0 where
  pub found : ProofExchangeRecord
  pub found_in :
      get_by_thread_and_connection_id config (thread_id context.message) (connection_id context) w
      ≡ (ok found, w)
  pub request : AgentMessage
  pub request_in :
      DidComm.get_agent_message config.externals found.id request_presentation w.stores
      ≡ (ok request, w.stores)
  pub services : List (ProofFormatService X)
  pub of_message :
      services ≡ get_format_services_from_message config.proof_formats context.message.formats
  pub some_service : services ≢ []
  pub answers : List Bool
  pub after : Stores MS X
  pub asked : Answered (verify found context.message request) services w.stores answers after
  pub presentation_in :
      DidComm.save_or_update_agent_message config.externals receiver context.message found.id after
      ≡ (ok tt, w'.stores)
  pub verdict : Bool
  pub verdict_iff : (verdict ≡ true) ↔ All (λ b. b ≡ true) answers
  pub marked : r ≡ record found { is_verified = some verdict; state = presentation_received }
  pub record_in : config.proof_storage.update w.records.store r ≡ ok w'.records.store

nonempty : {A : Type 0} (xs : List A) → not (is_empty xs) ≡ true → xs ≢ []
nonempty [] h e = absurd (ground (arith, h))
nonempty (x ∷ xs) h e = absurd (ground (arith, e))

-- a method of the stores, seen from the world
module _ {PS MS X A : Type 0} (m : Exec (Stores MS X) A) (w w' : World PS MS X) (a : A) where
  stores-of : on_stores m w ≡ (ok a, w') → m w.stores ≡ (ok a, w'.stores)
  stores-of h = ap (λ p. (p.0, p.1.stores)) h

  records-of : on_stores m w ≡ (ok a, w') → w.records ≡ w'.records
  records-of h = ap (λ p. p.1.records) h

module _ {PS MS X : Type 0} where
  IsRead-on_stores :
      {A : Type 0} (m : Exec (Stores MS X) A) → IsRead m → IsRead {S = World PS MS X} (on_stores m)
  IsRead-on_stores m read =
      IsRead-zoom (λ w. w.stores) (λ s w. record w { stores = s }) (λ w. refl) m read

  IsRead-get :
      (config : Config PS MS X) (thread : String) (connection : Option String)
      → IsRead (get_by_thread_and_connection_id config thread connection)
  unfolding Exchange.get_by_thread_and_connection_id
  IsRead-get config thread connection =
      IsRead-zoom (λ (w : World PS MS X). w.records) (λ r w. record w { records = r }) (λ w. refl) _
        (record { at = get_single_by_query-reads config.proof_storage _ })

  IsRead-assert_protocol_version :
      (version : String) (r : ProofExchangeRecord)
      → IsRead (assert_protocol_version {S = World PS MS X} version r)
  unfolding assert_protocol_version
  IsRead-assert_protocol_version version r = IsRead-assert _ _

  IsRead-assert_state :
      (expected : ProofState) (r : ProofExchangeRecord)
      → IsRead (assert_state {S = World PS MS X} expected r)
  unfolding assert_state
  IsRead-assert_state expected r = IsRead-assert _ _

module _ {PS MS X : Type 0} (config : Config PS MS X) where
  -- the record in its new state, and the storage with it
  update_state-ok :
      (r r' : ProofExchangeRecord) (new_state : ProofState) (w w' : World PS MS X)
      → update_state config r new_state w ≡ (ok r', w')
      → (r' ≡ record r { state = new_state })
        × (w'.stores ≡ w.stores)
        × (config.proof_storage.update w.records.store r' ≡ ok w'.records.store)
  unfolding Exchange.update_state Exchange.emit_state_changed_event Repository.update ◌>>=◌
  update_state-ok r r' new_state w w' h =
      go (config.proof_storage.update w.records.store (record r { state = new_state })) refl
    where
      go :
          (result : Result PS)
          → config.proof_storage.update w.records.store (record r { state = new_state }) ≡ result
          → (r' ≡ record r { state = new_state })
            × (w'.stores ≡ w.stores)
            × (config.proof_storage.update w.records.store r' ≡ ok w'.records.store)
      go (err x) e = absurd (ground (arith, rw e at h))
      go (ok s) e =
          let k = rw (e, Repository.written, continue) at h in
          let same : r' ≡ record r { state = new_state } = cc in
          let stored : s ≡ w'.records.store = ap (λ p. p.1.records.store) k in
          (same, sym (ap (λ p. p.1.stores) k), rw same (e ∙ ap ok stored))

  answers-of :
      (services : List (ProofFormatService X)) (r : ProofExchangeRecord)
      (message request : AgentMessage) (s s' : Stores MS X) (is_valid : Bool)
      → Process.process_presentation config.externals services r message request s
        ≡ (ok is_valid, s')
      → (answers : List Bool) × (after : Stores MS X) × Answered
          (verify r message request)
          services
          s
          answers
          after
        × (every answers ≡ is_valid)
        × (DidComm.save_or_update_agent_message config.externals receiver message r.id after
            ≡ (ok tt, s'))
  unfolding Process.process_presentation
  answers-of services r message request s s' is_valid h =
      let (results, after, looped, h₁) =
        bind-ok (verify_each (verify r message request) services []) _ s s' is_valid h in
      let (_, s₂, saved, h₂) = bind-ok _ _ after s' is_valid h₁ in
      let (answers, asked, same) = verify_each-Answered _ services [] results s after looped in
      let e : every results ≡ is_valid = cc in
      let last : s₂ ≡ s' = cc in (answers, after, asked, rw same at e, rw last at saved)

  -- the parts put together
  parts-Verified :
      (context : InboundMessageContext AgentMessage) (found r : ProofExchangeRecord)
      (request : AgentMessage) (w w₁ w' : World PS MS X) (is_valid : Bool)
      → get_by_thread_and_connection_id config (thread_id context.message) (connection_id context) w
        ≡ (ok found, w)
      → on_stores (DidComm.get_agent_message config.externals found.id request_presentation) w
        ≡ (ok request, w)
      → get_format_services_from_message config.proof_formats context.message.formats ≢ []
      → on_stores
          (Process.process_presentation config.externals
            (get_format_services_from_message config.proof_formats context.message.formats)
            found
            context.message
            request)
          w
        ≡ (ok is_valid, w₁)
      → update_state config (record found { is_verified = some is_valid }) presentation_received w₁
        ≡ (ok r, w')
      → Verified config context r w w'
  parts-Verified context found r request w w₁ w' is_valid found_in at some_service processed h =
      let services =
        get_format_services_from_message config.proof_formats context.message.formats in
      let process =
        Process.process_presentation config.externals services found context.message request in
      let get = DidComm.get_agent_message config.externals found.id request_presentation in
      let (answers, after, asked, same, saved) =
        answers-of _ found context.message request w.stores w₁.stores is_valid
          (stores-of process w w₁ is_valid processed) in
      let (marked, kept, updated) = update_state-ok _ r presentation_received w₁ w' h in
      let records : w.records ≡ w₁.records = records-of process w w₁ is_valid processed in
      record {
        found = found;
        found_in = found_in;
        request = request;
        request_in = stores-of get w w request at;
        services = services;
        of_message = refl;
        some_service = some_service;
        answers = answers;
        after = after;
        asked = asked;
        presentation_in = saved ∙ ap (λ s. (ok tt, s)) (sym kept);
        verdict = is_valid;
        verdict_iff = (
          (λ v. (every_iff answers).0 (same ∙ v)),
          (λ all. sym same ∙ (every_iff answers).1 all),
        );
        marked = marked;
        record_in = ap (λ p. config.proof_storage.update p.store r) records ∙ updated;
      }

  -- A successful `processPresentation` has found the record for the thread and the connection of the
  -- message, and the request that was stored for it before the call, and at least one format service
  -- that supports a format of the presentation. It has asked each of these services once about its
  -- part of the presentation against its part of that request, from the state before the call; it
  -- has stored the presentation and the record that it returns. That record is the one it found, in
  -- the state presentation-received, and marked as verified exactly if all services said that their
  -- part is valid.
  pub process_presentation-Verified :
      (context : InboundMessageContext AgentMessage) (r : ProofExchangeRecord)
      (w w' : World PS MS X)
      → process_presentation config context w ≡ (ok r, w')
      → Verified config context r w w'
  unfolding process_presentation some_of
  process_presentation-Verified context r w w' h =
      let services =
        get_format_services_from_message config.proof_formats context.message.formats in
      let (found, w₁, found_in, h₁) = bind-ok _ _ w w' r h in
      let (request, w₂, at, h₂) = bind-ok (on_stores _) _ w₁ w' r h₁ in
      let (proposal, w₃, looked, h₃) = bind-ok _ _ w₂ w' r h₂ in
      let (_, w₄, version, h₄) = bind-ok _ _ w₃ w' r h₃ in
      let (_, w₅, state, h₅) = bind-ok _ _ w₄ w' r h₄ in
      let (_, w₆, allowed, h₆) = bind-ok _ _ w₅ w' r h₅ in
      let (_, w₇, some_service, h₇) = bind-ok _ _ w₆ w' r h₆ in
      let (is_valid, w₈, processed, h₈) = bind-ok (on_stores _) _ w₇ w' r h₇ in
      let e₁ : w ≡ w₁ = read-ok (IsRead-get config _ _) found_in in
      let e₂ : w₁ ≡ w₂ =
        read-ok (IsRead-on_stores _ (IsRead-get_agent_message config.externals _ _)) at in
      let e₃ : w₂ ≡ w₃ =
        read-ok (IsRead-on_stores _ (IsRead-find_agent_message config.externals _ _)) looked in
      let e₄ : w₃ ≡ w₄ = read-ok (IsRead-assert_protocol_version "v2" found) version in
      let e₅ : w₄ ≡ w₅ = read-ok (IsRead-assert_state request_sent found) state in
      let e₆ : w₅ ≡ w₆ =
        read-ok
          (IsRead-assert_connection_or_service_decorator context context.message.service
            (some request) proposal)
          allowed in
      let e₇ : w₆ ≡ w₇ = read-ok (IsRead-assert _ _) some_service in
      let process =
        Process.process_presentation config.externals services found context.message request in
      let get = DidComm.get_agent_message config.externals found.id request_presentation in
      let e : w₇ ≡ w = sym (e₁ ∙ e₂ ∙ e₃ ∙ e₄ ∙ e₅ ∙ e₆ ∙ e₇) in
      parts-Verified context found r request w w₈ w' is_valid
        (found_in ∙ ap (λ x. (ok found, x)) (sym e₁))
        (ap (on_stores get) e₁ ∙ at ∙ ap (λ x. (ok request, x)) (sym (e₁ ∙ e₂)))
        (nonempty services (assert-ok _ _ w₆ w₇ tt some_service))
        (ap (on_stores process) (sym e) ∙ processed) h₈
