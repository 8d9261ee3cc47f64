-- ===== src/Proof/Protocol/Delete/Laws.antt =====
-- What is left after `delete` of a proof record.
use test_lib.Common.{Option, ◌≡◌, ◌⊎◌, inl, inr, refl}
use test_lib.Exec.{err, Error, record_not_found, continue, ◌>>=◌, Result-cases}
use test_lib.Storage.Service.{IsStorage}
use test_lib.Storage.Repository
use test_lib.Proof.Record.{ProofExchangeRecord}
use test_lib.Proof.Protocol.Base.{World, Config}
use test_lib.Proof.Protocol.Delete.{DeleteProofOptions, delete}

module _ {PS MS X : Type 0} (config : Config PS MS X) where
  -- Over a storage that keeps its contract, `delete` of a proof record fails and changes nothing,
  -- or the record is gone and no state change is told, whatever becomes of the messages that are
  -- deleted after it.
  pub delete-forgotten :
      IsStorage (λ r. r.id) config.proof_storage
      → (r : ProofExchangeRecord) (options : Option DeleteProofOptions) (w : World PS MS X)
      → ((e : Error) × (delete config r options w ≡ (err e, w)))
        ⊎ ((config.proof_storage.get_by_id (delete config r options w).1.records.store r.id
              ≡ err record_not_found)
            × ((delete config r options w).1.events ≡ w.events))
  unfolding delete Repository.delete ◌>>=◌
  delete-forgotten laws r options w =
      elim (Result-cases (config.proof_storage.delete w.records.store r)) [
        | inl (s, deleted) ↦
            inr (rw (deleted, Repository.written, continue) (laws.get-delete _ s r deleted, refl))
        | inr (e, failed) ↦ inl (e, rw (failed, Repository.written, continue) refl)
      ]
