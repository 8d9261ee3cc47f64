-- ===== src/Storage/Migration/Latest.antt =====
-- Without a wanted version, the search for the needed updates does not fail.
use test_lib.Common.{true, false, none, List, [], ◌∷◌, ◌≡◌, ◌⊎◌, inl, inr, refl, Bool-cases, filter}
use test_lib.Exec.{ok}
use test_lib.Storage.Migration.{
  VersionString, Version, parse_version_string, is_first_version_higher_than_second, Update,
  is_at_least, is_beyond, is_needed, needed_updates,
}
use test_lib.Storage.Migration.Needed.{IsPath, arrived, updated, is_needed-below}

is_needed-above_none :
    (current : Version) (u : Update)
    → is_first_version_higher_than_second (parse_version_string u.to_version) current ≡ true
    → is_needed current none u ≡ true
unfolding is_needed is_beyond
is_needed-above_none current u h = rw h refl

-- The filter keeps nothing and the storage is at the end of the chain, or it keeps an update that
-- starts at or below the storage first.
abbrev IsFit : Version → VersionString → List Update → Type 0
IsFit current end kept =
    ((kept ≡ []) × (is_first_version_higher_than_second (parse_version_string end) current ≡ false))
    ⊎ ((u : Update) × (us : List Update) × (kept ≡ u ∷ us)
        × (is_first_version_higher_than_second (parse_version_string u.from_version) current
            ≡ false))

filter-IsFit :
    (current : Version) {v w : VersionString} (us : List Update)
    → IsPath v us w
    → is_first_version_higher_than_second (parse_version_string v) current ≡ false
    → IsFit current w (filter (is_needed current none) us)
filter-IsFit current [] arrived h = inl (refl, h)
filter-IsFit current (u ∷ us) (updated p) h =
    elim (Bool-cases
      (is_first_version_higher_than_second (parse_version_string u.to_version) current)) [
        | inl above ↦ inr (
          u,
          filter (is_needed current none) us,
          rw (is_needed-above_none current u above) refl,
          h,
        )
        | inr below ↦ rw (is_needed-below current none u below) (filter-IsFit current us p below)
      ]

-- If no version is wanted and the storage is not older than the chain of updates, the result is
-- that no update is needed, and then the storage is not below the chain's end, or it is at least
-- one update.
pub needed_updates-latest :
    (updates : List Update) (current : Version) (start end : VersionString)
    → IsPath start updates end
    → is_first_version_higher_than_second (parse_version_string start) current ≡ false
    → ((needed_updates updates current none ≡ ok [])
        × (is_first_version_higher_than_second (parse_version_string end) current ≡ false))
      ⊎ ((u : Update) × (us : List Update) × (needed_updates updates current none ≡ ok (u ∷ us)))
unfolding needed_updates is_at_least
needed_updates-latest updates current start end p h = elim (filter-IsFit current updates p h) [
  | inl (gone, done) ↦ inl (rw gone refl, done)
  | inr (u, us, is, fit) ↦ inr (u, us, rw (is, fit) refl)
]
