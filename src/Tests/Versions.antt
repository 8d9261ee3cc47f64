-- ===== src/Tests/Versions.antt =====
-- Versions and updates of the storage at concrete inputs.
use test_lib.Common.{true, false, none, some, List, [], ◌∷◌, ◌≡◌, ◌↔◌, ◌⊎◌, refl}
use test_lib.Exec.{ok, ◌>>=◌}
use test_lib.Storage.Service.{StorageService}
use test_lib.Storage.Repository
use test_lib.Storage.Repository.{Repo}
use test_lib.Storage.Migration.{
  is_up_to_date, get_needed_updates, VersionString, parse_version_string,
  is_first_version_higher_than_second, version, Update, supported_updates, initial_storage_version,
  current_framework_storage_version, is_at_least, is_needed, is_beyond, needed_updates,
  same_version_string, StorageVersionRecord, get_current_storage_version,
  set_current_storage_version,
}
use test_lib.Storage.Migration.Needed.{
  IsPath, arrived, updated, IsAscending, goal, needed_updates-IsPath,
}
use test_lib.Storage.Migration.Latest.{needed_updates-latest}
use test_lib.Storage.Migration.UpToDate.{is_up_to_date_iff}
use test_lib.Storage.Migration.Stored.{set-get_current_storage_version}
use test_lib.Tests.Memory.{memory, memory-IsStorage, insert, get}

-- the supported updates form a chain from the first version to the current one
supported_updates-IsPath :
    IsPath initial_storage_version supported_updates current_framework_storage_version
supported_updates-IsPath = updated (updated (updated (updated arrived)))

supported_updates-IsAscending : IsAscending supported_updates
unfolding is_first_version_higher_than_second
supported_updates-IsAscending = (refl, (refl, (refl, (refl, tt))))

abbrev from_0_3 : Update
from_0_3 = record { from_version = version 0 3 none; to_version = version 0 3 (some 1) }

abbrev to_0_4 : Update
to_0_4 = record { from_version = version 0 3 (some 1); to_version = version 0 4 none }

needed_from_0_3 : needed_updates supported_updates (0, 3, 0) none ≡ ok (from_0_3 ∷ to_0_4 ∷ [])
unfolding needed_updates is_at_least is_needed is_beyond is_first_version_higher_than_second
    same_version_string
needed_from_0_3 = refl

needed_updates-IsPath_example :
    IsPath (version 0 3 none) (from_0_3 ∷ to_0_4 ∷ []) (goal none current_framework_storage_version)
    × (is_first_version_higher_than_second (parse_version_string from_0_3.from_version) (0, 3, 0)
        ≡ false)
    × (is_first_version_higher_than_second (parse_version_string from_0_3.to_version) (0, 3, 0)
        ≡ true)
needed_updates-IsPath_example =
    needed_updates-IsPath supported_updates (0, 3, 0) none initial_storage_version
      current_framework_storage_version from_0_3 (to_0_4 ∷ []) supported_updates-IsPath
      supported_updates-IsAscending needed_from_0_3

needed_updates-latest_example :
    ((needed_updates supported_updates (0, 4, 0) none ≡ ok [])
      × (is_first_version_higher_than_second
            (parse_version_string current_framework_storage_version)
            (0, 4, 0)
          ≡ false))
    ⊎ ((u : Update) × (us : List Update) × (needed_updates supported_updates (0, 4, 0) none
          ≡ ok (u ∷ us)))
unfolding is_first_version_higher_than_second
needed_updates-latest_example =
    needed_updates-latest supported_updates (0, 4, 0) initial_storage_version
      current_framework_storage_version supported_updates-IsPath refl

abbrev storage : StorageService (List StorageVersionRecord) StorageVersionRecord (Unit {0})
storage = memory (λ r. r.id) (λ _ _. true)

abbrev empty_repo : Repo (List StorageVersionRecord) StorageVersionRecord
empty_repo = record { store = []; emitted = [] }

abbrev v0_4 : VersionString
v0_4 = version 0 4 none

set_runs : (set_current_storage_version storage v0_4 empty_repo).0 ≡ ok tt
unfolding set_current_storage_version Repository.find_by_id Repository.save memory insert get ◌>>=◌
set_runs = refl

set-get_current_storage_version_example :
    get_current_storage_version storage (set_current_storage_version storage v0_4 empty_repo).1
    ≡ (ok v0_4, (set_current_storage_version storage v0_4 empty_repo).1)
set-get_current_storage_version_example =
    set-get_current_storage_version storage (memory-IsStorage (λ r. r.id) (λ _ _. true)) v0_4
      empty_repo set_runs

is_up_to_date_iff_example :
    ((is_up_to_date storage none empty_repo).0 ≡ ok true)
    ↔ ((get_needed_updates storage none empty_repo).0 ≡ ok [])
is_up_to_date_iff_example = is_up_to_date_iff storage empty_repo
