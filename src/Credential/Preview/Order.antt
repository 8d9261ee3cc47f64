-- ===== src/Credential/Preview/Order.antt =====
-- `arePreviewAttributesEqual` forgets the order of the attributes.
use test_lib.Common.{
  String, true, false, some, List, [], ◌∷◌, ◌≡◌, sym, ◌∙◌, arith, includes, ◌==◌, eq_iff,
  Bool-cases, Option-cases, inl, inr,
}
use test_lib.Message.{PreviewAttribute}
use test_lib.Credential.Preview.{are_preview_attributes_equal}
use test_lib.Credential.Preview.Laws.{named, names, HasDistinctNames, named-none, length-names}
use test_lib.Credential.Preview.Names.{IsWithin-back}
use test_lib.Credential.Preview.Equal.{AreNamedIn, are_preview_attributes_equal_iff}

named-includes :
    (attributes : List PreviewAttribute) (name : String) (a : PreviewAttribute)
    → named attributes name ≡ some a
    → includes (names attributes) name ≡ true
named-includes attributes name a h = elim (Bool-cases (includes (names attributes) name)) [
  | inl there ↦ there
  | inr away ↦ absurd (ground (arith, named-none attributes name away))
]

includes-named :
    (attributes : List PreviewAttribute) (name : String)
    → includes (names attributes) name ≡ true
    → (a : PreviewAttribute) × (named attributes name ≡ some a)
includes-named [] name h = absurd (ground arith)
includes-named (a ∷ attributes) name h = elim (Bool-cases (a.name == name)) [
  | inl here ↦ (a, ground arith)
  | inr further ↦ let (b, e) = includes-named attributes name (ground arith) in (b, ground arith)
]

AreNamedIn-named :
    (first second : List PreviewAttribute) (name : String) (a : PreviewAttribute)
    → AreNamedIn first second
    → named first name ≡ some a
    → named second name ≡ some a
AreNamedIn-named [] second name a all h = absurd (ground arith)
AreNamedIn-named (b ∷ first) second name a (here, all) h =
    ground (arith, eq_iff b.name name, AreNamedIn-named first second name a all)

-- Equal previews give every name the same attribute.
pub equal-named :
    (first second : List PreviewAttribute) (name : String)
    → are_preview_attributes_equal first second ≡ true
    → named first name ≡ named second name
equal-named first second name h =
    let (e, d, d', all) = (are_preview_attributes_equal_iff first second).0 h in
    elim (Bool-cases (includes (names first) name)) [
      | inl there ↦
          let (a, at) = includes-named first name there in
          at ∙ sym (AreNamedIn-named first second name a all at)
      | inr away ↦ elim (Option-cases (named second name)) [
        | inl gone ↦ named-none first name away ∙ sym gone
        | inr (a, at) ↦
            let back =
              IsWithin-back (names first) (names second) d
                (length-names first ∙ e ∙ sym (length-names second))
                (λ s there.
                  let (b, at) = includes-named first s there in
                  named-includes second s b (AreNamedIn-named first second s b all at))
                name (named-includes second name a at) in
            absurd (ground arith)
      ]
    ]

AreNamedIn-cons :
    (part whole : List PreviewAttribute) (a : PreviewAttribute)
    → includes (names part) a.name ≡ false
    → AreNamedIn part whole
    → AreNamedIn part (a ∷ whole)
AreNamedIn-cons [] whole a away all = tt
AreNamedIn-cons (b ∷ part) whole a away (here, all) = (
  ground (arith, eq_iff a.name b.name, eq_iff b.name a.name),
  AreNamedIn-cons part whole a (ground arith) all,
)

AreNamedIn-self :
    (attributes : List PreviewAttribute)
    → HasDistinctNames (names attributes)
    → AreNamedIn attributes attributes
AreNamedIn-self [] d = tt
AreNamedIn-self (a ∷ attributes) (away, d) = (
  ground (arith, eq_iff a.name a.name),
  AreNamedIn-cons attributes attributes a away (AreNamedIn-self attributes d),
)

AreNamedIn-by_name :
    (part first second : List PreviewAttribute)
    → ((name : String) → named first name ≡ named second name)
    → AreNamedIn part second
    → AreNamedIn part first
AreNamedIn-by_name [] first second same all = tt
AreNamedIn-by_name (a ∷ part) first second same (here, all) =
    (same a.name ∙ here, AreNamedIn-by_name part first second same all)

equal-swap :
    (first second : List PreviewAttribute)
    → are_preview_attributes_equal first second ≡ true
    → are_preview_attributes_equal second first ≡ true
equal-swap first second h =
    let (e, d, d', all) = (are_preview_attributes_equal_iff first second).0 h in
    (are_preview_attributes_equal_iff second first).1 (
      sym e,
      d',
      d,
      AreNamedIn-by_name second first second (λ name. equal-named first second name h)
          (AreNamedIn-self second d'),
    )

-- The comparison of two previews does not depend on which of them comes first.
pub equal_comm :
    (first second : List PreviewAttribute)
    → are_preview_attributes_equal first second ≡ are_preview_attributes_equal second first
equal_comm first second = elim (Bool-cases (are_preview_attributes_equal first second)) [
  | inl equal ↦ equal ∙ sym (equal-swap first second equal)
  | inr other ↦ elim (Bool-cases (are_preview_attributes_equal second first)) [
    | inl equal ↦ absurd (ground (arith, equal-swap second first equal))
    | inr also ↦ other ∙ sym also
  ]
]
