-- ===== src/Credential/Preview/Laws.antt =====
-- When `arePreviewAttributesEqual` holds.
use test_lib.Common.{
  ℕ, suc, ◌+◌, ◌≤◌, String, true, false, Option, none, some, List, [], ◌∷◌, ◌++◌, map, ◌≡◌, ◌↔◌,
  inl, inr, refl, same, arith, Bool-cases, if◌then◌else◌, ◌==◌, eq_iff, includes, length, ◌||◌,
}
use test_lib.Message.{PreviewAttribute}
use test_lib.Credential.Preview.{set_of, has_distinct_names, attribute_at, same_mime_type, matches}

-- the attribute of a name: the first one with it
abbrev pub named : List PreviewAttribute → String → Option PreviewAttribute
named [] name = none
named (a ∷ attributes) name = if a.name == name then some a else named attributes name

abbrev pub names : List PreviewAttribute → List String
names = map (λ a. a.name)

-- no name stands twice
abbrev pub HasDistinctNames : List String → Type 0
HasDistinctNames [] = Unit
HasDistinctNames (name ∷ rest) = (includes rest name ≡ false) × HasDistinctNames rest

includes-append :
    (xs : List String) (y s : String) → includes (xs ++ y ∷ []) s ≡ (includes xs s || y == s)
includes-append [] y s = ground arith
includes-append (x ∷ xs) y s = ground (arith, includes-append xs y s)

length-snoc : (xs : List String) (y : String) → length (xs ++ y ∷ []) ≡ suc (length xs)
length-snoc [] y = refl
length-snoc (x ∷ xs) y = omega (arith, length-snoc xs y)

length-set_of : (seen xs : List String) → length (set_of seen xs) ≤ length seen + length xs
unfolding set_of
length-set_of seen [] = omega arith
length-set_of seen (x ∷ xs) = elim (Bool-cases (includes seen x)) [
  | inl old ↦ rw old (omega (arith, length-set_of seen xs))
  | inr fresh ↦ rw fresh (omega (arith, length-set_of (seen ++ x ∷ []) xs, length-snoc seen x))
]

-- none of the names was seen
abbrev AreFresh : List String → List String → Type 0
AreFresh seen [] = Unit
AreFresh seen (x ∷ xs) = (includes seen x ≡ false) × AreFresh seen xs

AreFresh-snoc :
    (seen : List String) (y : String) (xs : List String)
    → AreFresh (seen ++ y ∷ []) xs
    → AreFresh seen xs × (includes xs y ≡ false)
AreFresh-snoc seen y [] h = (tt, refl)
AreFresh-snoc seen y (x ∷ xs) (fresh, h) =
    let (rest, away) = AreFresh-snoc seen y xs h in
    ground (arith, includes-append seen y x, eq_iff x y, eq_iff y x)

distinct_of_length :
    (seen xs : List String)
    → length (set_of seen xs) ≡ length seen + length xs
    → HasDistinctNames xs × AreFresh seen xs
unfolding set_of
distinct_of_length seen [] h = (tt, tt)
distinct_of_length seen (x ∷ xs) h = elim (Bool-cases (includes seen x)) [
  | inl old ↦ absurd (omega (arith, length-set_of seen xs, rw old at h))
  | inr fresh ↦
      let e : length (set_of (seen ++ x ∷ []) xs) ≡ length (seen ++ x ∷ []) + length xs =
        omega (arith, length-snoc seen x, rw fresh at h) in
      let (distinct, unseen) = distinct_of_length (seen ++ x ∷ []) xs e in
      let (rest, away) = AreFresh-snoc seen x xs unseen in ((away, distinct), (fresh, rest))
]

snoc-AreFresh :
    (seen : List String) (y : String) (xs : List String)
    → AreFresh seen xs
    → includes xs y ≡ false
    → AreFresh (seen ++ y ∷ []) xs
snoc-AreFresh seen y [] h away = tt
snoc-AreFresh seen y (x ∷ xs) (fresh, h) away = (
  ground (arith, includes-append seen y x, eq_iff x y, eq_iff y x),
  snoc-AreFresh seen y xs h (ground arith),
)

length_of_distinct :
    (seen xs : List String)
    → HasDistinctNames xs
    → AreFresh seen xs
    → length (set_of seen xs) ≡ length seen + length xs
unfolding set_of
length_of_distinct seen [] d fresh = omega arith
length_of_distinct seen (x ∷ xs) (away, d) (unseen, fresh) = rw unseen (
    omega (
      arith,
      length-snoc seen x,
      length_of_distinct (seen ++ x ∷ []) xs d (snoc-AreFresh seen x xs fresh away),
    ))

AreFresh-nil : (xs : List String) → AreFresh [] xs
AreFresh-nil [] = tt
AreFresh-nil (x ∷ xs) = (refl, AreFresh-nil xs)

pub length-names :
    (attributes : List PreviewAttribute) → length (names attributes) ≡ length attributes
length-names [] = refl
length-names (a ∷ attributes) = omega (arith, length-names attributes)

pub same_iff : (a b : ℕ) → (same a b ≡ true) ↔ (a ≡ b)
same_iff a b = ground arith

pub has_distinct_names_iff :
    (attributes : List PreviewAttribute)
    → (has_distinct_names attributes ≡ true) ↔ HasDistinctNames (names attributes)
unfolding has_distinct_names
has_distinct_names_iff attributes = (
  λ h.
      (distinct_of_length [] (names attributes)
        (omega (arith, length-names attributes, (same_iff _ _).0 h))).0,
  λ d. (same_iff _ _).1 (
      omega (
        arith,
        length-names attributes,
        length_of_distinct [] (names attributes) d (AreFresh-nil (names attributes)),
      )),
)

-- the map has the first attribute of a name, if no name stands twice
attribute_at_lem :
    (attributes : List PreviewAttribute) (earlier : Option PreviewAttribute) (name : String)
    → HasDistinctNames (names attributes)
    → attribute_at attributes earlier name
      ≡ (if includes (names attributes) name then named attributes name else earlier)
unfolding attribute_at
attribute_at_lem [] earlier name d = refl
attribute_at_lem (a ∷ attributes) earlier name (away, d) = ground (
  arith,
  eq_iff a.name name,
  attribute_at_lem attributes (if a.name == name then some a else earlier) name d,
)

pub named-none :
    (attributes : List PreviewAttribute) (name : String)
    → includes (names attributes) name ≡ false
    → named attributes name ≡ none
named-none [] name h = refl
named-none (a ∷ attributes) name h = ground (arith, named-none attributes name)

pub attribute_at-eq-named :
    (attributes : List PreviewAttribute) (name : String)
    → HasDistinctNames (names attributes)
    → attribute_at attributes none name ≡ named attributes name
attribute_at-eq-named attributes name d =
    ground (arith, attribute_at_lem attributes none name d, named-none attributes name)

pub named-name :
    (attributes : List PreviewAttribute) (name : String) (a : PreviewAttribute)
    → named attributes name ≡ some a
    → a.name ≡ name
named-name [] name a h = cc
named-name (b ∷ attributes) name a h =
    ground (arith, eq_iff b.name name, named-name attributes name a)

same_mime_type_iff : (a b : Option String) → (same_mime_type a b ≡ true) ↔ (a ≡ b)
unfolding same_mime_type
same_mime_type_iff none none = ground arith
same_mime_type_iff (some a) (some b) = ground (arith, eq_iff a b)
same_mime_type_iff _ _ = ground arith

pub matches_iff : (a b : PreviewAttribute) → b.name ≡ a.name → (matches a (some b) ≡ true) ↔ (b ≡ a)
unfolding matches
matches_iff a b e = (
  λ h. ground (arith, eq_iff a.value b.value, same_mime_type_iff a.mime_type b.mime_type),
  λ h. ground (arith, eq_iff a.value b.value, same_mime_type_iff a.mime_type b.mime_type),
)
