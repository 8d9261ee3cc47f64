-- ===== src/Storage/Repository.antt =====
-- src/storage/Repository.ts: a storage and the events that tell of its writes.
pub mod Laws
use test_lib.Common.{String, Option, none, some, List, [], ◌∷◌, ◌++◌}
use test_lib.Exec.{
  Result, ok, err, Exec, record_not_found, record_duplicate, pure, throw, ◌>>=◌, ◌>>◌,
}
use test_lib.Storage.Service.{StorageService}

-- src/storage/RepositoryEvents.ts
pub data RepositoryEvent (R : Type 0) : Type 0 where
  record_saved : R → RepositoryEvent R
  record_updated : R → RepositoryEvent R
  record_deleted : R → RepositoryEvent R
  record_deleted_by_id : String → RepositoryEvent R

-- The storage and the events that the repository has emitted, in their order.
pub record Repo (S R : Type 0) : Type 0 where
  pub store : S
  pub emitted : List (RepositoryEvent R)

module _ {S R : Type 0} where
  abbrev pub emit : RepositoryEvent R → Exec (Repo S R) Unit
  emit e repo = (ok tt, record repo { emitted = repo.emitted ++ e ∷ [] })

  -- an awaited write of the storage
  abbrev pub written : Result S → Exec (Repo S R) Unit
  written (ok s) repo = (ok tt, record repo { store = s })
  written (err e) repo = (err e, repo)

module _ {R : Type 0} where
  abbrev or_null : Result R → Result (Option R)
  or_null (ok r) = ok (some r)
  or_null (err record_not_found) = ok none
  or_null (err e) = err e

  -- the tests on `records.length`
  abbrev single : List R → Result (Option R)
  single [] = ok none
  single (r ∷ []) = ok (some r)
  single (_ ∷ _ ∷ _) = err record_duplicate

  abbrev found : Option R → Result R
  found none = err record_not_found
  found (some r) = ok r

module _ {S R Q : Type 0} (storage : StorageService S R Q) where
  unfoldable pub save : R → Exec (Repo S R) Unit
  save r = do λ repo. written (storage.save repo.store r) repo; emit (record_saved r)

  unfoldable pub update : R → Exec (Repo S R) Unit
  update r = do λ repo. written (storage.update repo.store r) repo; emit (record_updated r)

  unfoldable pub delete : R → Exec (Repo S R) Unit
  delete r = do λ repo. written (storage.delete repo.store r) repo; emit (record_deleted r)

  unfoldable pub delete_by_id : String → Exec (Repo S R) Unit
  delete_by_id id = do
    λ repo. written (storage.delete_by_id repo.store id) repo
    emit (record_deleted_by_id id)

  unfoldable pub get_by_id : String → Exec (Repo S R) R
  get_by_id id repo = (storage.get_by_id repo.store id, repo)

  unfoldable pub find_by_id : String → Exec (Repo S R) (Option R)
  find_by_id id repo = (or_null (storage.get_by_id repo.store id), repo)

  unfoldable pub get_all : Exec (Repo S R) (List R)
  get_all repo = (storage.get_all repo.store, repo)

  unfoldable pub find_by_query : Q → Exec (Repo S R) (List R)
  find_by_query query repo = (storage.find_by_query repo.store query, repo)

  unfoldable pub find_single_by_query : Q → Exec (Repo S R) (Option R)
  find_single_by_query query = do records ← find_by_query query; λ repo. (single records, repo)

  unfoldable pub get_single_by_query : Q → Exec (Repo S R) R
  get_single_by_query query = do
    record_or_null ← find_single_by_query query
    λ repo. (found record_or_null, repo)
