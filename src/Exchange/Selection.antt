-- ===== src/Exchange/Selection.antt =====
-- Sets of format services, as V2CredentialProtocol.ts and V2ProofProtocol.ts build them. A service
-- stands for the object at its place in the configured list: a `Set` of services compares these
-- places.
pub mod Laws
use test_lib.Common.{
  ℕ, suc, Bool, true, false, Option, none, some, List, [], ◌∷◌, ◌++◌, map, same, if◌then◌else◌,
}

module _ {A : Type 0} where
  -- the elements with their places
  unfoldable pub numbered : ℕ → List A → List (ℕ × A)
  numbered n [] = []
  numbered n (x ∷ xs) = (n, x) ∷ numbered (suc n) xs

  unfoldable pub has_place : ℕ → List (ℕ × A) → Bool
  has_place n [] = false
  has_place n ((m, x) ∷ xs) = if same m n then true else has_place n xs

  -- `if (service) set.add(service)`
  unfoldable pub add_to_set : List (ℕ × A) → Option (ℕ × A) → List (ℕ × A)
  unfolding has_place
  add_to_set set none = set
  add_to_set set (some (n, x)) = if has_place n set then set else set ++ (n, x) ∷ []

  -- the loop that fills the set
  unfoldable pub collect {κ} :
      {B : Type κ} → (B → Option (ℕ × A)) → List B → List (ℕ × A) → List (ℕ × A)
  unfolding add_to_set
  collect choose [] set = set
  collect choose (b ∷ bs) set = collect choose bs (add_to_set set (choose b))

  -- `Array.from(set)`
  abbrev pub from_set : List (ℕ × A) → List A
  from_set = map (λ (p : ℕ × A). p.1)
