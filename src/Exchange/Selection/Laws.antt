-- ===== src/Exchange/Selection/Laws.antt =====
-- Which format services the selection finds.
use test_lib.Common.{
  ◌∙◌, ℕ, zero, suc, ◌+◌, Bool, true, false, Option, none, some, List, [], ◌∷◌, ◌++◌, ◌≡◌, ◌≢◌, inl,
  inr, refl, sym, ◌||◌, any, get_elem?, find, same, arith, Bool-cases, All, All-concat,
}
use test_lib.Exchange.Selection.{numbered, has_place, add_to_set, collect, from_set}

module _ {A : Type 0} where
  -- the elements are at different places
  abbrev pub HasDistinctPlaces : List (ℕ × A) → Type 0
  HasDistinctPlaces [] = Unit
  HasDistinctPlaces (p ∷ ps) = (has_place p.0 ps ≡ false) × HasDistinctPlaces ps

  has_place-concat :
      (n : ℕ) (ps : List (ℕ × A)) (p : ℕ × A)
      → has_place n ps ≡ false
      → p.0 ≢ n
      → has_place n (ps ++ p ∷ []) ≡ false
  unfolding has_place
  has_place-concat n [] p h ne = ground arith
  has_place-concat n (q ∷ ps) p h ne = ground (arith, has_place-concat n ps p)

  has_place-ne :
      (n : ℕ) (x : A) (ps : List (ℕ × A)) (q : ℕ × A)
      → has_place n (q ∷ ps) ≡ false
      → (q.0 ≢ n) × (has_place n ps ≡ false)
  unfolding has_place
  has_place-ne n x ps q h = ground arith

  HasDistinctPlaces-concat :
      (ps : List (ℕ × A)) (p : ℕ × A)
      → HasDistinctPlaces ps
      → has_place p.0 ps ≡ false
      → HasDistinctPlaces (ps ++ p ∷ [])
  unfolding has_place
  HasDistinctPlaces-concat [] p d h = (refl, tt)
  HasDistinctPlaces-concat (q ∷ ps) p (fresh, d) h =
      let (ne, later) = has_place-ne p.0 p.1 ps q h in
      (has_place-concat q.0 ps p fresh (λ e. ne (sym e)), HasDistinctPlaces-concat ps p d later)

  add_to_set-distinct :
      (ps : List (ℕ × A)) (o : Option (ℕ × A))
      → HasDistinctPlaces ps
      → HasDistinctPlaces (add_to_set ps o)
  unfolding add_to_set
  add_to_set-distinct ps none d = d
  add_to_set-distinct ps (some (n, x)) d = elim (Bool-cases (has_place n ps)) [
    | inl there ↦ rw there d
    | inr fresh ↦ rw fresh (HasDistinctPlaces-concat ps (n, x) d fresh)
  ]

  pub collect-distinct {κ} :
      {B : Type κ} (choose : B → Option (ℕ × A)) (bs : List B) (ps : List (ℕ × A))
      → HasDistinctPlaces ps
      → HasDistinctPlaces (collect choose bs ps)
  unfolding collect
  collect-distinct choose [] ps d = d
  collect-distinct choose (b ∷ bs) ps d =
      collect-distinct choose bs (add_to_set ps (choose b)) (add_to_set-distinct ps (choose b) d)

  -- the chosen element is at this place
  abbrev pub is_at : ℕ → Option (ℕ × A) → Bool
  is_at n none = false
  is_at n (some p) = same p.0 n

  has_place-append :
      (n : ℕ) (ps : List (ℕ × A)) (p : ℕ × A)
      → has_place n (ps ++ p ∷ []) ≡ (has_place n ps || same p.0 n)
  unfolding has_place
  has_place-append n [] p = ground arith
  has_place-append n (q ∷ ps) p = ground (arith, has_place-append n ps p)

  has_place-or_same :
      (n : ℕ) (ps : List (ℕ × A)) (p : ℕ × A)
      → has_place p.0 ps ≡ true
      → has_place n ps ≡ (has_place n ps || same p.0 n)
  has_place-or_same n ps p there = ground arith

  has_place-add_to_set :
      (n : ℕ) (ps : List (ℕ × A)) (o : Option (ℕ × A))
      → has_place n (add_to_set ps o) ≡ (has_place n ps || is_at n o)
  unfolding add_to_set
  has_place-add_to_set n ps none = ground arith
  has_place-add_to_set n ps (some p) = elim (Bool-cases (has_place p.0 ps)) [
    | inl there ↦ rw there (has_place-or_same n ps p there)
    | inr fresh ↦ rw fresh (has_place-append n ps p)
  ]

  pub has_place-collect {κ} :
      {B : Type κ} (n : ℕ) (choose : B → Option (ℕ × A)) (bs : List B) (ps : List (ℕ × A))
      → has_place n (collect choose bs ps) ≡ (has_place n ps || any (λ b. is_at n (choose b)) bs)
  unfolding collect
  has_place-collect n choose [] ps = ground arith
  has_place-collect n choose (b ∷ bs) ps = ground (
    arith,
    has_place-collect n choose bs (add_to_set ps (choose b)),
    has_place-add_to_set n ps (choose b),
  )

module _ {A : Type 0} where
  -- every pair holds an element and its place in the list
  abbrev pub IsPlaced : List A → ℕ × A → Type 0
  IsPlaced xs p = get_elem? xs p.0 ≡ some p.1

  add_to_set-IsPlaced :
      (xs : List A) (ps : List (ℕ × A)) (o : Option (ℕ × A))
      → All (IsPlaced xs) ps
      → ((p : ℕ × A) → o ≡ some p → IsPlaced xs p)
      → All (IsPlaced xs) (add_to_set ps o)
  unfolding add_to_set
  add_to_set-IsPlaced xs ps none h placed = h
  add_to_set-IsPlaced xs ps (some p) h placed = elim (Bool-cases (has_place p.0 ps)) [
    | inl there ↦ rw there h
    | inr fresh ↦ rw fresh (All-concat (IsPlaced xs) ps h (placed p refl))
  ]

  pub collect-IsPlaced {κ} :
      {B : Type κ} (xs : List A) (choose : B → Option (ℕ × A))
      → ((b : B) (p : ℕ × A) → choose b ≡ some p → IsPlaced xs p)
      → (bs : List B) (ps : List (ℕ × A)) → All (IsPlaced xs) ps
      → All (IsPlaced xs) (collect choose bs ps)
  unfolding collect
  collect-IsPlaced xs choose placed [] ps h = h
  collect-IsPlaced xs choose placed (b ∷ bs) ps h =
      collect-IsPlaced xs choose placed bs (add_to_set ps (choose b))
        (add_to_set-IsPlaced xs ps (choose b) h (placed b))

  -- no element in front of the place satisfies the test
  abbrev pub NoneBefore : (A → Bool) → ℕ → List A → Type 0
  NoneBefore p n [] = Unit
  NoneBefore p zero (x ∷ xs) = Unit
  NoneBefore p (suc n) (x ∷ xs) = (p x ≡ false) × NoneBefore p n xs

  -- `find` among the numbered elements gives the first that satisfies the test, with its place
  abbrev pub IsFirst : (A → Bool) → ℕ → List A → Option (ℕ × A) → Type 0
  IsFirst p k xs none = All (λ x. p x ≡ false) xs
  IsFirst p k xs (some found) =
      (n : ℕ) × (found.0 ≡ k + n)
      × (get_elem? xs n ≡ some found.1)
      × (p found.1 ≡ true)
      × NoneBefore p n xs

  IsFirst-suc :
      (p : A → Bool) (k : ℕ) (x : A) (xs : List A) (o : Option (ℕ × A))
      → p x ≡ false
      → IsFirst p (suc k) xs o
      → IsFirst p k (x ∷ xs) o
  IsFirst-suc p k x xs none fails h = (fails, h)
  IsFirst-suc p k x xs (some found) fails (n, at, here, holds, before) =
      (suc n, omega arith, here, holds, (fails, before))

  pub find-numbered :
      (p : A → Bool) (k : ℕ) (xs : List A)
      → IsFirst p k xs (find (λ (q : ℕ × A). p q.1) (numbered k xs))
  unfolding numbered
  find-numbered p k [] = tt
  find-numbered p k (x ∷ xs) = elim (Bool-cases (p x)) [
    | inl holds ↦ rw holds (0, omega arith, refl, holds, tt)
    | inr fails ↦ rw fails (IsFirst-suc p k x xs _ fails (find-numbered p (suc k) xs))
  ]

-- The services are those at certain places of `credentialFormats`, each place once: a place is
-- among them exactly when one of the `bs` chooses the service there.
pub record IsSelection {A B : Type 0} (all : List A) (choose : B → Option (ℕ × A)) (bs : List B)
    (result : List A) : Type 0 where
  pub set : List (ℕ × A)
  pub same : result ≡ from_set set
  pub distinct : HasDistinctPlaces set
  pub placed : All (IsPlaced all) set
  pub chosen : (n : ℕ) → has_place n set ≡ any (λ b. is_at n (choose b)) bs

module _ {A : Type 0} where
  IsFirst-IsPlaced :
      (p : A → Bool) (xs : List A) (found : ℕ × A) → IsFirst p 0 xs (some found) → IsPlaced xs found
  IsFirst-IsPlaced p xs found (n, at, here, _, _) = let e : found.0 ≡ n = omega arith in rw e here

module _ {A B : Type 0} where
  pub collect-IsSelection :
      (all : List A) (test : B → A → Bool) (bs : List B)
      → IsSelection all
          (λ b. find (λ (q : ℕ × A). test b q.1) (numbered 0 all))
          bs
          (from_set (collect (λ b. find (λ (q : ℕ × A). test b q.1) (numbered 0 all)) bs []))
  collect-IsSelection all test bs = record {
    set = collect (λ b. find (λ (q : ℕ × A). test b q.1) (numbered 0 all)) bs [];
    same = refl;
    distinct = collect-distinct _ bs [] tt;
    placed =
        collect-IsPlaced all _
          (λ b p e. IsFirst-IsPlaced (test b) all p (rw e at (find-numbered (test b) 0 all))) bs []
          tt;
    chosen = λ n. has_place-collect n _ bs [] ∙ (unfold has_place in refl);
  }
