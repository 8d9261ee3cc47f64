-- ===== src/Mediation/Mediator/Uninitialised.antt =====
-- The grant of a mediation at a mediator without a routing record.
use test_lib.Common.{some, [], ◌∷◌, ◌++◌, ◌≡◌, refl}
use test_lib.Exec.{
  ok, err, aries_framework_error, record_not_found, run-bind, run-throws, continue, ◌>>=◌,
}
use test_lib.Storage.Repository
use test_lib.Exchange
use test_lib.Exchange.{on_stores, on_records}
use test_lib.Exchange.Effect.{event}
use test_lib.Mediation.Record.{
  MediationRecord, requested, granted, mediator, state_name, role_name, assert_state, assert_role,
}
use test_lib.Mediation.Base.{World, Config, update_state}
use test_lib.Mediation.Mediator.{get_routing_keys, create_grant_mediation_message}

module _ {RS CS CQ KS KQ MS Y : Type 0} (config : Config RS CS CQ KS KQ MS Y) where
  open config use {mediation_storage, routing_storage}

  get_routing_keys-throws :
      (w : World RS CS KS MS Y)
      → routing_storage.get_by_id w.stores.rest.routing_records.store "MEDIATOR_ROUTING_RECORD"
        ≡ err record_not_found
      → on_stores (get_routing_keys config) w
        ≡ (err (aries_framework_error "Mediator has not been initialized yet."), w)
  unfolding get_routing_keys Repository.find_by_id ◌>>=◌
  get_routing_keys-throws w missing = rw missing refl

  -- the world in which the record is granted
  abbrev pub with_granted : MediationRecord → RS → World RS CS KS MS Y → World RS CS KS MS Y
  with_granted r store w =
      let r' = record r { state = granted } in
      record w {
        records = record {
          store = store;
          emitted = w.records.emitted ++ Repository.record_updated r' ∷ [];
        };
        events = w.events ++ event r' (some requested) ∷ [];
      }

  update_state-granted :
      (r : MediationRecord) (w : World RS CS KS MS Y) (store : RS)
      → r.state ≡ requested
      → mediation_storage.update w.records.store (record r { state = granted }) ≡ ok store
      → update_state config r granted w
        ≡ (ok (record r { state = granted }), with_granted r store w)
  unfolding Exchange.update_state Exchange.emit_state_changed_event Repository.update ◌>>=◌
  update_state-granted r w store at_state saved =
      rw (saved, Repository.written, continue) (rw at_state refl)

  -- If the record is requested, its write succeeds and the mediator has no routing record, then the
  -- call throws, and the record is granted nonetheless: it is stored as granted, the event tells of
  -- it, and nothing else has changed.
  pub create_grant_mediation_message-throws :
      (r : MediationRecord) (w : World RS CS KS MS Y) (store : RS)
      → r.state ≡ requested
      → r.role ≡ mediator
      → mediation_storage.update w.records.store (record r { state = granted }) ≡ ok store
      → routing_storage.get_by_id w.stores.rest.routing_records.store "MEDIATOR_ROUTING_RECORD"
        ≡ err record_not_found
      → create_grant_mediation_message config r w ≡ (
        err (aries_framework_error "Mediator has not been initialized yet."),
        with_granted r store w,
      )
  unfolding create_grant_mediation_message assert_state assert_role state_name role_name
  create_grant_mediation_message-throws r w store at_state at_role saved missing =
      run-bind _ _ {s₁ = w} (rw at_state refl) (
        run-bind _ _ {s₁ = w} (rw at_role refl) (
          run-bind _ _ (update_state-granted r w store at_state saved)
            (run-throws _ _ (get_routing_keys-throws (with_granted r store w) missing))))
