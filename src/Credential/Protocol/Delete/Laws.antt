-- ===== src/Credential/Protocol/Delete/Laws.antt =====
-- What is left after `delete`.
use test_lib.Common.{Option, ◌≡◌, ◌⊎◌, inl, inr, refl}
use test_lib.Exec.{err, Error, record_not_found, continue, ◌>>=◌, Result-cases}
use test_lib.Storage.Service.{IsStorage}
use test_lib.Storage.Repository
use test_lib.Credential.Record.{CredentialExchangeRecord}
use test_lib.Credential.Protocol.Base.{World, Config}
use test_lib.Credential.Protocol.Delete.{DeleteCredentialOptions, delete}

module _ {CS MS X : Type 0} (config : Config CS MS X) where
  -- Over a storage that keeps its contract, `delete` fails and changes nothing, or the record is
  -- gone and no state change is told, whatever becomes of the credentials and the messages that
  -- are deleted after it.
  pub delete-gone :
      IsStorage (λ r. r.id) config.credential_storage
      → (r : CredentialExchangeRecord) (options : Option DeleteCredentialOptions)
        (w : World CS MS X)
      → ((e : Error) × (delete config r options w ≡ (err e, w)))
        ⊎ ((config.credential_storage.get_by_id (delete config r options w).1.records.store r.id
              ≡ err record_not_found)
            × ((delete config r options w).1.events ≡ w.events))
  unfolding delete Repository.delete ◌>>=◌
  delete-gone laws r options w =
      elim (Result-cases (config.credential_storage.delete w.records.store r)) [
        | inl (s, deleted) ↦
            inr (rw (deleted, Repository.written, continue) (laws.get-delete _ s r deleted, refl))
        | inr (e, failed) ↦ inl (e, rw (failed, Repository.written, continue) refl)
      ]
