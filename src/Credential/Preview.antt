-- ===== src/Credential/Preview.antt =====
-- modules/credentials/util/previewAttributes.ts
pub mod Laws
pub mod Names
pub mod Equal
pub mod Order
use test_lib.Common.{
  ℕ, String, Bool, true, false, Option, none, some, List, [], ◌∷◌, ◌++◌, map, not, ◌==◌, ◌&&◌,
  length, includes, same, if◌then◌else◌,
}
use test_lib.Message.{PreviewAttribute}

-- `new Set(names)`: the names in the order of their first occurrence, behind those seen before
unfoldable pub set_of : List String → List String → List String
set_of seen [] = seen
set_of seen (name ∷ names) = set_of (if includes seen name then seen else seen ++ name ∷ []) names

-- `new Set(names).size !== names.length` fails
unfoldable pub has_distinct_names : List PreviewAttribute → Bool
unfolding set_of
has_distinct_names attributes =
    let names = map (λ (a : PreviewAttribute). a.name) attributes in
    same (length (set_of [] names)) (length attributes)

-- `secondAttributeMap[name]`: `reduce` writes the later attributes over the earlier ones
unfoldable pub attribute_at :
    List PreviewAttribute → Option PreviewAttribute → String → Option PreviewAttribute
attribute_at [] earlier name = earlier
attribute_at (a ∷ attributes) earlier name =
    attribute_at attributes (if a.name == name then some a else earlier) name

unfoldable pub same_mime_type : Option String → Option String → Bool
same_mime_type none none = true
same_mime_type (some a) (some b) = a == b
same_mime_type _ _ = false

-- the body of the loop: the attribute of the same name has the same value and mime type
unfoldable pub matches : PreviewAttribute → Option PreviewAttribute → Bool
unfolding same_mime_type
matches first none = false
matches first (some second) =
    first.value == second.value && same_mime_type first.mime_type second.mime_type

unfoldable pub all_match : List PreviewAttribute → List PreviewAttribute → Bool
unfolding matches attribute_at
all_match [] second = true
all_match (a ∷ first) second = matches a (attribute_at second none a.name) && all_match first second

unfoldable pub are_preview_attributes_equal : List PreviewAttribute → List PreviewAttribute → Bool
unfolding has_distinct_names all_match
are_preview_attributes_equal first second =
    same (length first) (length second)
    && has_distinct_names first
    && has_distinct_names second
    && all_match first second
