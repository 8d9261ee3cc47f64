-- ===== src/Credential/Preview/Names.antt =====
-- A counting argument: distinct names among equally many names are all of them.
use test_lib.Common.{
  ◌<◌, ◌≤◌, String, true, false, List, [], ◌∷◌, ◌≡◌, arith, if◌then◌else◌, ◌==◌, eq_iff, includes,
  length, Bool-cases, inl, inr,
}
use test_lib.Credential.Preview.Laws.{HasDistinctNames}

without : List String → String → List String
without [] y = []
without (x ∷ xs) y = let rest = without xs y in if x == y then rest else x ∷ rest

abbrev pub IsWithin : List String → List String → Type 0
IsWithin xs ys = (s : String) → includes xs s ≡ true → includes ys s ≡ true

includes-without :
    (ys : List String) (y s : String)
    → includes (without ys y) s ≡ (if y == s then false else includes ys s)
unfolding without
includes-without [] y s = ground arith
includes-without (x ∷ ys) y s =
    ground (arith, eq_iff x y, eq_iff x s, eq_iff y s, includes-without ys y s)

length-without-le : (ys : List String) (y : String) → length (without ys y) ≤ length ys
unfolding without
length-without-le [] y = omega arith
length-without-le (x ∷ ys) y = ground (arith, length-without-le ys y)

length-without :
    (ys : List String) (y : String) → includes ys y ≡ true → length (without ys y) < length ys
unfolding without
length-without [] y h = cc
length-without (x ∷ ys) y h = ground (arith, length-without-le ys y, length-without ys y)

IsWithin-without :
    (xs ys : List String) (y : String)
    → includes xs y ≡ false
    → IsWithin xs ys
    → IsWithin xs (without ys y)
IsWithin-without xs ys y away h s there = ground (arith, includes-without ys y s, eq_iff y s, h s)

length-le : (xs ys : List String) → HasDistinctNames xs → IsWithin xs ys → length xs ≤ length ys
length-le [] ys d h = omega arith
length-le (x ∷ xs) ys (away, d) h = omega (
  arith,
  length-without ys x (h x (ground (arith, eq_iff x x))),
  length-le xs (without ys x) d
      (IsWithin-without xs ys x away (λ s there. h s (ground (arith, eq_iff x s)))),
)

-- so a name among the second ones is among the first ones
pub IsWithin-back :
    (xs ys : List String)
    → HasDistinctNames xs
    → length xs ≡ length ys
    → IsWithin xs ys
    → IsWithin ys xs
IsWithin-back xs ys d e h s there = elim (Bool-cases (includes xs s)) [
  | inl found ↦ found
  | inr away ↦ absurd (
      omega (
        arith,
        length-without ys s there,
        length-le xs (without ys s) d (IsWithin-without xs ys s away h),
      ))
]
