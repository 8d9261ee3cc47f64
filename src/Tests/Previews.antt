-- ===== src/Tests/Previews.antt =====
-- The comparison of previews at concrete inputs.
use test_lib.Common.{true, none, List, [], ◌∷◌, ◌≡◌, ◌↔◌, refl, length}
use test_lib.Message.{PreviewAttribute}
use test_lib.Credential.Preview.{
  are_preview_attributes_equal, has_distinct_names, all_match, attribute_at, matches,
  same_mime_type, set_of,
}
use test_lib.Credential.Preview.Laws.{named, names, HasDistinctNames}
use test_lib.Credential.Preview.Equal.{AreNamedIn, are_preview_attributes_equal_iff}
use test_lib.Credential.Preview.Order.{equal-named, equal_comm}

abbrev first : List PreviewAttribute
first =
    record { name = "age"; mime_type = none; value = "42" }
    ∷ record { name = "name"; mime_type = none; value = "Ada" }
    ∷ []

abbrev second : List PreviewAttribute
second =
    record { name = "name"; mime_type = none; value = "Ada" }
    ∷ record { name = "age"; mime_type = none; value = "42" }
    ∷ []

are_equal : are_preview_attributes_equal first second ≡ true
unfolding are_preview_attributes_equal has_distinct_names all_match attribute_at matches
    same_mime_type set_of
are_equal = refl

are_preview_attributes_equal_iff_example : (are_preview_attributes_equal first second ≡ true) ↔ (
    (length first ≡ length second)
    × HasDistinctNames (names first)
    × HasDistinctNames (names second)
    × AreNamedIn first second)
are_preview_attributes_equal_iff_example = are_preview_attributes_equal_iff first second

equal-named_example : named first "age" ≡ named second "age"
equal-named_example = equal-named first second "age" are_equal

equal_comm_example :
    are_preview_attributes_equal first second ≡ are_preview_attributes_equal second first
equal_comm_example = equal_comm first second
