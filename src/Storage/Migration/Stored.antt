-- ===== src/Storage/Migration/Stored.antt =====
-- The stored version, over a storage that keeps its contract.
use test_lib.Common.{◌≡◌, inl, inr, refl, arith}
use test_lib.Exec.{Result, ok, err, record_not_found, ◌>>=◌, continue, Result-cases}
use test_lib.Storage.Service.{StorageService, IsStorage}
use test_lib.Storage.Repository
use test_lib.Storage.Repository.{Repo}
use test_lib.Storage.Migration.{
  VersionString, StorageVersionRecord, storage_version_record_id, new_version_record,
  get_storage_version_record, get_current_storage_version, set_current_storage_version,
}

module _ {S Q : Type 0} (storage : StorageService S StorageVersionRecord Q) where
  -- the version that the storage holds is read back
  get-holding :
      (repo : Repo S StorageVersionRecord) (r : StorageVersionRecord)
      → storage.get_by_id repo.store storage_version_record_id ≡ ok r
      → get_current_storage_version storage repo ≡ (ok r.storage_version, repo)
  unfolding get_current_storage_version get_storage_version_record Repository.find_by_id ◌>>=◌
  get-holding repo r h = rw h refl

  save-holding :
      IsStorage (λ r. r.id) storage
      → (v : VersionString) (repo : Repo S StorageVersionRecord)
      → (Repository.save storage (new_version_record v) repo).0 ≡ ok tt
      → storage.get_by_id
          (Repository.save storage (new_version_record v) repo).1.store
          storage_version_record_id
        ≡ ok (new_version_record v)
  unfolding Repository.save ◌>>=◌
  save-holding laws v repo h =
      elim (Result-cases (storage.save repo.store (new_version_record v))) [
        | inl (s, saved) ↦ rw (saved, Repository.written, continue) (laws.get-save _ s _ saved)
        | inr (e, failed) ↦ absurd (ground (arith, rw (failed, Repository.written, continue) at h))
      ]

  update-holding :
      IsStorage (λ r. r.id) storage
      → (r : StorageVersionRecord) (repo : Repo S StorageVersionRecord)
      → (Repository.update storage r repo).0 ≡ ok tt
      → storage.get_by_id (Repository.update storage r repo).1.store r.id ≡ ok r
  unfolding Repository.update ◌>>=◌
  update-holding laws r repo h = elim (Result-cases (storage.update repo.store r)) [
    | inl (s, saved) ↦ rw (saved, Repository.written, continue) (laws.get-update _ s _ saved)
    | inr (e, failed) ↦ absurd (ground (arith, rw (failed, Repository.written, continue) at h))
  ]

  update-version :
      IsStorage (λ r. r.id) storage
      → (r : StorageVersionRecord) (v : VersionString) (repo : Repo S StorageVersionRecord)
      → r ≡ new_version_record v
      → (Repository.update storage r repo).0 ≡ ok tt
      → storage.get_by_id (Repository.update storage r repo).1.store storage_version_record_id
        ≡ ok (new_version_record v)
  update-version laws r v repo is h =
      rw is (update-holding laws (new_version_record v) repo (rw is at h))

  set-cases :
      (found : Result StorageVersionRecord) (v : VersionString) (repo : Repo S StorageVersionRecord)
      → IsStorage (λ r. r.id) storage
      → storage.get_by_id repo.store storage_version_record_id ≡ found
      → (set_current_storage_version storage v repo).0 ≡ ok tt
      → storage.get_by_id
          (set_current_storage_version storage v repo).1.store
          storage_version_record_id
        ≡ ok (new_version_record v)
  unfolding set_current_storage_version Repository.find_by_id ◌>>=◌
  set-cases (ok r) v repo laws e h =
      let here : r.id ≡ storage_version_record_id = laws.get-id repo.store _ r e in
      rw e
        (update-version laws (record r { storage_version = v }) v repo (rw here refl) (rw e at h))
  set-cases (err record_not_found) v repo laws e h = rw e (save-holding laws v repo (rw e at h))
  set-cases (err x) v repo laws e h = absurd (ground (arith, rw e at h))

  -- Over a storage that keeps its contract, the version that was set is the current one, and
  -- reading it changes nothing.
  pub set-get_current_storage_version :
      IsStorage (λ r. r.id) storage
      → (v : VersionString) (repo : Repo S StorageVersionRecord)
      → (set_current_storage_version storage v repo).0 ≡ ok tt
      → get_current_storage_version storage (set_current_storage_version storage v repo).1
        ≡ (ok v, (set_current_storage_version storage v repo).1)
  set-get_current_storage_version laws v repo h =
      get-holding _ (new_version_record v) (set-cases _ v repo laws refl h)
