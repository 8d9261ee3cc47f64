-- ===== src/Storage/Migration.antt =====
-- src/storage/migration: the version of an agent's storage (StorageUpdateService.ts) and which
-- updates bring it up to date (`getNeededUpdates` of UpdateAssistant.ts), over utils/version.ts.
pub mod Order
pub mod Needed
pub mod Latest
pub mod Stored
pub mod UpToDate
use test_lib.Common.{
  ℕ, String, Bool, true, false, Option, none, some, List, [], ◌∷◌, ◌&&◌, ◌||◌, not, same, ltb,
  filter,
}
use test_lib.Exec.{Result, ok, err, Exec, aries_framework_error, pure, lift, ◌>>=◌, ◌>>◌}
use test_lib.Storage.Service.{StorageService}
use test_lib.Storage.Repository
use test_lib.Storage.Repository.{Repo}

-- a version as it is written, with or without a patch number
pub record VersionString : Type 0 where
  pub major : ℕ
  pub minor : ℕ
  pub patch : Option ℕ

-- `[major, minor, patch]`
abbrev pub Version : Type 0
Version = ℕ × ℕ × ℕ

abbrev patch_or_zero : Option ℕ → ℕ
patch_or_zero none = 0
patch_or_zero (some patch) = patch

abbrev pub parse_version_string : VersionString → Version
parse_version_string version = (version.major, version.minor, patch_or_zero version.patch)

unfoldable pub is_first_version_higher_than_second : Version → Version → Bool
is_first_version_higher_than_second first second =
    ltb second.0 first.0
    || (same first.0 second.0 && ltb second.1 first.1)
    || (same first.0 second.0 && same first.1 second.1 && ltb second.2 first.2)

unfoldable pub is_first_version_equal_to_second : Version → Version → Bool
is_first_version_equal_to_second first second =
    same first.0 second.0 && same first.1 second.1 && same first.2 second.2

abbrev same_patch : Option ℕ → Option ℕ → Bool
same_patch none none = true
same_patch (some a) (some b) = same a b
same_patch _ _ = false

-- `===` for versions as they are written
unfoldable pub same_version_string : VersionString → VersionString → Bool
same_version_string first second =
    same first.major second.major
    && same first.minor second.minor
    && same_patch first.patch second.patch

pub record Update : Type 0 where
  pub from_version : VersionString
  pub to_version : VersionString

abbrev pub version : ℕ → ℕ → Option ℕ → VersionString
version major minor patch = record { major = major; minor = minor; patch = patch }

-- the versions of `supportedUpdates`, in updates.ts
abbrev pub supported_updates : List Update
supported_updates =
    record { from_version = version 0 1 none; to_version = version 0 2 none }
    ∷ record { from_version = version 0 2 none; to_version = version 0 3 none }
    ∷ record { from_version = version 0 3 none; to_version = version 0 3 (some 1) }
    ∷ record { from_version = version 0 3 (some 1); to_version = version 0 4 none }
    ∷ []

abbrev pub initial_storage_version : VersionString
initial_storage_version = version 0 1 none

abbrev pub current_framework_storage_version : VersionString
current_framework_storage_version = version 0 4 none

-- `currentStorageVersion` is not below the wanted version, if there is one
unfoldable pub is_at_least : Version → Option VersionString → Bool
unfolding is_first_version_higher_than_second is_first_version_equal_to_second
is_at_least current none = false
is_at_least current (some wanted) =
    is_first_version_higher_than_second current (parse_version_string wanted)
    || is_first_version_equal_to_second current (parse_version_string wanted)

-- `parsedToVersion && isFirstVersionHigherThanSecond(updateToVersion, parsedToVersion)`
unfoldable pub is_beyond : Update → Option VersionString → Bool
unfolding is_first_version_higher_than_second
is_beyond update none = false
is_beyond update (some wanted) =
    is_first_version_higher_than_second (parse_version_string update.to_version)
      (parse_version_string wanted)

unfoldable pub is_needed : Version → Option VersionString → Update → Bool
unfolding is_beyond is_first_version_higher_than_second
is_needed current to_version update =
    not (is_beyond update to_version)
    && is_first_version_higher_than_second (parse_version_string update.to_version) current

-- `neededUpdates[neededUpdates.length - 1].toVersion`, after an update
abbrev pub last_to_version : Update → List Update → VersionString
last_to_version update [] = update.to_version
last_to_version update (next ∷ updates) = last_to_version next updates

-- the check of the last update
abbrev pub is_other : Option VersionString → VersionString → Bool
is_other none last = false
is_other (some wanted) last = not (same_version_string last wanted)

abbrev refuse : Bool → String → Result (List Update) → Result (List Update)
refuse true message otherwise = err (aries_framework_error message)
refuse false message otherwise = otherwise

-- the two checks of the filtered updates
abbrev pub checked_updates : Version → Option VersionString → List Update → Result (List Update)
checked_updates current to_version [] = ok []
checked_updates current to_version (update ∷ updates) =
    refuse (is_first_version_higher_than_second (parse_version_string update.from_version) current)
      "First fromVersion is higher than current storage version"
      (refuse (is_other to_version (last_to_version update updates)) "No update found for toVersion"
        (ok (update ∷ updates)))

-- `getNeededUpdates`, from the parsed storage version on
unfoldable pub needed_updates : List Update → Version → Option VersionString → Result (List Update)
unfolding is_at_least is_needed same_version_string is_first_version_higher_than_second
needed_updates updates current to_version = elim (is_at_least current to_version) [
  | true ↦ ok []
  | false ↦ checked_updates current to_version (filter (is_needed current to_version) updates)
]

pub record StorageVersionRecord : Type 0 where
  pub id : String
  pub storage_version : VersionString

abbrev pub storage_version_record_id : String
storage_version_record_id = "STORAGE_VERSION_RECORD_ID"

abbrev pub new_version_record : VersionString → StorageVersionRecord
new_version_record storage_version = record {
  id = storage_version_record_id;
  storage_version = storage_version;
}

module _ {S Q : Type 0} (storage : StorageService S StorageVersionRecord Q) where
  -- `if (!storageVersionRecord)`
  abbrev pub or_initial :
      Option StorageVersionRecord → Exec (Repo S StorageVersionRecord) StorageVersionRecord
  or_initial (some r) = pure r
  or_initial none = do
    let r = new_version_record initial_storage_version
    Repository.save storage r
    pure r

  unfoldable pub get_storage_version_record :
      Exec (Repo S StorageVersionRecord) StorageVersionRecord
  get_storage_version_record = do
    r ← Repository.find_by_id storage storage_version_record_id
    or_initial r

  unfoldable pub get_current_storage_version : Exec (Repo S StorageVersionRecord) VersionString
  get_current_storage_version = do r ← get_storage_version_record; pure r.storage_version

  abbrev pub save_or_update_version :
      VersionString → Option StorageVersionRecord → Exec (Repo S StorageVersionRecord) Unit
  save_or_update_version storage_version none =
      Repository.save storage (new_version_record storage_version)
  save_or_update_version storage_version (some r) =
      Repository.update storage (record r { storage_version = storage_version })

  unfoldable pub set_current_storage_version :
      VersionString → Exec (Repo S StorageVersionRecord) Unit
  set_current_storage_version storage_version = do
    r ← Repository.find_by_id storage storage_version_record_id
    save_or_update_version storage_version r

  unfoldable pub is_up_to_date : Option VersionString → Exec (Repo S StorageVersionRecord) Bool
  is_up_to_date update_to_version = do
    current ← get_current_storage_version
    let compare_to : VersionString = elim update_to_version [
      | some v ↦ v
      | none ↦ current_framework_storage_version
    ]
    pure (
        is_first_version_equal_to_second (parse_version_string current)
          (parse_version_string compare_to)
        || is_first_version_higher_than_second (parse_version_string current)
            (parse_version_string compare_to))

  unfoldable pub get_needed_updates :
      Option VersionString → Exec (Repo S StorageVersionRecord) (List Update)
  get_needed_updates to_version = do
    current ← get_current_storage_version
    lift (needed_updates supported_updates (parse_version_string current) to_version)
