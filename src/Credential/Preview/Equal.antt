-- ===== src/Credential/Preview/Equal.antt =====
-- `arePreviewAttributesEqual` decides that two previews have the same attributes, in any order.
use test_lib.Common.{
  true, Option, none, some, List, [], ◌∷◌, ◌≡◌, ◌↔◌, refl, ap, arith, length, All,
}
use test_lib.Message.{PreviewAttribute}
use test_lib.Credential.Preview.{attribute_at, matches, all_match, are_preview_attributes_equal}
use test_lib.Credential.Preview.Laws.{
  named, names, HasDistinctNames, has_distinct_names_iff, attribute_at-eq-named, named-name,
  matches_iff, same_iff,
}

-- every attribute of the first preview is the one of its name in the second
abbrev pub AreNamedIn : List PreviewAttribute → List PreviewAttribute → Type 0
AreNamedIn first second = All (λ a. named second a.name ≡ some a) first

matches_at :
    (a : PreviewAttribute) (second : List PreviewAttribute)
    → HasDistinctNames (names second)
    → (matches a (attribute_at second none a.name) ≡ true) ↔ (named second a.name ≡ some a)
unfolding matches
matches_at a second d = rw (attribute_at-eq-named second a.name d) (go (named second a.name) refl)
  where
    go :
        (o : Option PreviewAttribute)
        → named second a.name ≡ o
        → (matches a o ≡ true) ↔ (o ≡ some a)
    go none e = ground arith
    go (some b) e = (
      λ h. ap some ((matches_iff a b (named-name second a.name b e)).0 h),
      λ h. (matches_iff a b (named-name second a.name b e)).1 (ground arith),
    )

all_match_iff :
    (first second : List PreviewAttribute)
    → HasDistinctNames (names second)
    → (all_match first second ≡ true) ↔ AreNamedIn first second
unfolding all_match
all_match_iff [] second d = (λ _. tt, λ _. refl)
all_match_iff (a ∷ first) second d =
    ground (arith, matches_at a second d, all_match_iff first second d)

-- Two previews are equal exactly when they have equally many attributes, no name stands twice in
-- either, and each attribute of the first is in the second, with its value and its mime type.
pub are_preview_attributes_equal_iff :
    (first second : List PreviewAttribute)
    → (are_preview_attributes_equal first second ≡ true) ↔ (
        (length first ≡ length second)
        × HasDistinctNames (names first)
        × HasDistinctNames (names second)
        × AreNamedIn first second)
unfolding are_preview_attributes_equal
are_preview_attributes_equal_iff first second = ground (
  arith,
  same_iff (length first) (length second),
  has_distinct_names_iff first,
  has_distinct_names_iff second,
  all_match_iff first second,
)
