-- ===== src/Tests/Memory.antt =====
-- A storage in memory, which keeps the contract of src/storage/StorageService.ts.
use test_lib.Common.{
  String, Bool, List, [], ◌∷◌, ◌≡◌, ◌≢◌, refl, arith, ◌==◌, eq_iff, if◌then◌else◌,
}
use test_lib.Exec.{Result, ok, err, record_not_found, record_duplicate}
use test_lib.Storage.Service.{StorageService, IsStorage}

module _ {R : Type 0} (id : R → String) where
  unfoldable pub get : List R → String → Result R
  get [] j = err record_not_found
  get (r ∷ rs) j = if id r == j then ok r else get rs j

  unfoldable pub insert : List R → R → Result R → Result (List R)
  insert rs r (ok old) = err record_duplicate
  insert rs r (err e) = ok (r ∷ rs)

  unfoldable pub replace : List R → R → List R
  replace [] r = []
  replace (o ∷ rs) r = let rest = replace rs r in if id o == id r then r ∷ rest else o ∷ rest

  unfoldable pub without : List R → String → List R
  without [] j = []
  without (o ∷ rs) j = let rest = without rs j in if id o == j then rest else o ∷ rest

  -- the records, if one of them is there
  unfoldable pub if_there : Result R → List R → Result (List R)
  if_there (ok _) rs = ok rs
  if_there (err e) _ = err e

  unfoldable pub select : (R → Bool) → List R → List R
  select p [] = []
  select p (r ∷ rs) = let rest = select p rs in if p r then r ∷ rest else rest

  unfoldable pub memory : {Q : Type 0} → (Q → R → Bool) → StorageService (List R) R Q
  unfolding get insert replace without if_there select
  memory matches = record {
    save = λ rs r. insert rs r (get rs (id r));
    update = λ rs r. if_there (get rs (id r)) (replace rs r);
    delete = λ rs r. if_there (get rs (id r)) (without rs (id r));
    delete_by_id = λ rs j. if_there (get rs j) (without rs j);
    get_by_id = get;
    get_all = λ rs. ok rs;
    find_by_query = λ rs query. ok (select (matches query) rs);
  }

  get-replace_self :
      (rs : List R) (r old : R) → get rs (id r) ≡ ok old → get (replace rs r) (id r) ≡ ok r
  unfolding get replace
  get-replace_self [] r old h = cc
  get-replace_self (o ∷ rs) r old h =
      ground (arith, eq_iff (id o) (id r), eq_iff (id r) (id r), get-replace_self rs r old)

  get-replace_ne : (rs : List R) (r : R) (j : String) → id r ≢ j → get (replace rs r) j ≡ get rs j
  unfolding get replace
  get-replace_ne [] r j h = refl
  get-replace_ne (o ∷ rs) r j h =
      ground
        (arith, eq_iff (id o) (id r), eq_iff (id r) j, eq_iff (id o) j, get-replace_ne rs r j h)

  get-without : (rs : List R) (j : String) → get (without rs j) j ≡ err record_not_found
  unfolding get without
  get-without [] j = refl
  get-without (o ∷ rs) j = ground (arith, eq_iff (id o) j, get-without rs j)

  get-id : (rs : List R) (j : String) (r : R) → get rs j ≡ ok r → id r ≡ j
  unfolding get
  get-id [] j r h = cc
  get-id (o ∷ rs) j r h = ground (arith, eq_iff (id o) j, get-id rs j r)

  insert-eq-ok :
      (rs rs' : List R) (r : R) (found : Result R) → insert rs r found ≡ ok rs' → r ∷ rs ≡ rs'
  unfolding insert
  insert-eq-ok rs rs' r (ok old) h = cc
  insert-eq-ok rs rs' r (err e) h = cc

  if_there-eq-ok :
      (rs rs' : List R) (found : Result R)
      → if_there found rs ≡ ok rs'
      → (old : R) × (found ≡ ok old) × (rs ≡ rs')
  unfolding if_there
  if_there-eq-ok rs rs' (ok old) h = (old, refl, cc)
  if_there-eq-ok rs rs' (err e) h = cc

  module _ {Q : Type 0} (matches : Q → R → Bool) where
    pub memory-IsStorage : IsStorage id (memory matches)
    unfolding memory
    memory-IsStorage = record {
      save_duplicate = λ s r old h. rw (h, insert);
      get-save = λ s s' r h. rw (← insert-eq-ok s s' r _ h) (ground (arith, eq_iff (id r) (id r)));
      get-save_ne =
          λ s s' r j ne h. rw (← insert-eq-ok s s' r _ h) (ground (arith, eq_iff (id r) j));
      update_missing = λ s r h. rw (h, if_there);
      get-update = λ s s' r h.
          let (old, there, same) = if_there-eq-ok _ s' _ h in
          rw (← same) (get-replace_self s r old there);
      get-update_ne = λ s s' r j ne h.
          let (old, there, same) = if_there-eq-ok _ s' _ h in rw (← same) (get-replace_ne s r j ne);
      get-delete = λ s s' r h.
          let (old, there, same) = if_there-eq-ok _ s' _ h in rw (← same) (get-without s (id r));
      get-id = get-id;
    }
