-- ===== src/Storage/Migration/UpToDate.antt =====
-- `isUpToDate` and `getNeededUpdates` agree.
use test_lib.Common.{true, none, [], ◌≡◌, ◌↔◌, refl, ap, arith, ◌||◌}
use test_lib.Exec.{Result, ok, err, ◌>>=◌}
use test_lib.Storage.Service.{StorageService}
use test_lib.Storage.Repository.{Repo}
use test_lib.Storage.Migration.{
  VersionString, StorageVersionRecord, get_current_storage_version, is_up_to_date,
  get_needed_updates, Version, parse_version_string, is_first_version_higher_than_second,
  is_first_version_equal_to_second, supported_updates, current_framework_storage_version,
  is_at_least, is_beyond, is_needed, needed_updates,
}

up_to_date_iff :
    (current : Version)
    → ((is_first_version_equal_to_second current
            (parse_version_string current_framework_storage_version)
          || is_first_version_higher_than_second current
              (parse_version_string current_framework_storage_version))
        ≡ true)
      ↔ (needed_updates supported_updates current none ≡ ok [])
unfolding needed_updates is_at_least is_beyond is_needed is_first_version_higher_than_second
    is_first_version_equal_to_second
up_to_date_iff current = ground arith

module _ {S Q : Type 0} (storage : StorageService S StorageVersionRecord Q) where
  -- Asked without a wanted version, `isUpToDate` answers that the storage is up to date exactly when
  -- `getNeededUpdates` returns that no update is needed.
  pub is_up_to_date_iff :
      (repo : Repo S StorageVersionRecord)
      → ((is_up_to_date storage none repo).0 ≡ ok true)
        ↔ ((get_needed_updates storage none repo).0 ≡ ok [])
  unfolding is_up_to_date get_needed_updates ◌>>=◌
  is_up_to_date_iff repo = go (get_current_storage_version storage repo) refl
    where
      go :
          (current : Result VersionString × Repo S StorageVersionRecord)
          → get_current_storage_version storage repo ≡ current
          → ((is_up_to_date storage none repo).0 ≡ ok true)
            ↔ ((get_needed_updates storage none repo).0 ≡ ok [])
      go (ok v, repo') e =
          let agree = up_to_date_iff (parse_version_string v) in
          rw e ((λ h. agree.0 (ground (arith, h))), (λ h. ap ok (agree.1 h)))
      go (err x, repo') e =
          rw e ((λ h. absurd (ground (arith, h))), (λ h. absurd (ground (arith, h))))
