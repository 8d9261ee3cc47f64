-- ===== src/Storage/Service.antt =====
-- src/storage/StorageService.ts. The implementations (a wallet of a third party) are outside the
-- repository, so the interface is a parameter: `S` is what the storage holds, `R` a record class
-- and `Q` its queries. A call that throws leaves the storage as it was.
use test_lib.Common.{String, ◌≡◌, ◌≢◌, List}
use test_lib.Exec.{Result, ok, err, record_not_found, record_duplicate}

pub record StorageService (S R Q : Type 0) : Type 0 where
  pub save : S → R → Result S
  pub update : S → R → Result S
  pub delete : S → R → Result S
  pub delete_by_id : S → String → Result S
  pub get_by_id : S → String → Result R
  pub get_all : S → Result (List R)
  pub find_by_query : S → Q → Result (List R)

-- What the interface documents of an implementation.
pub record IsStorage {S R Q : Type 0} (id : R → String) (storage : StorageService S R Q)
    : Type 0 where
  pub save_duplicate :
      (s : S) (r old : R)
      → storage.get_by_id s (id r) ≡ ok old
      → storage.save s r ≡ err record_duplicate
  pub get-save : (s s' : S) (r : R) → storage.save s r ≡ ok s' → storage.get_by_id s' (id r) ≡ ok r
  pub get-save_ne :
      (s s' : S) (r : R) (j : String)
      → id r ≢ j
      → storage.save s r ≡ ok s'
      → storage.get_by_id s' j ≡ storage.get_by_id s j
  pub update_missing :
      (s : S) (r : R)
      → storage.get_by_id s (id r) ≡ err record_not_found
      → storage.update s r ≡ err record_not_found
  pub get-update :
      (s s' : S) (r : R) → storage.update s r ≡ ok s' → storage.get_by_id s' (id r) ≡ ok r
  pub get-update_ne :
      (s s' : S) (r : R) (j : String)
      → id r ≢ j
      → storage.update s r ≡ ok s'
      → storage.get_by_id s' j ≡ storage.get_by_id s j
  pub get-delete :
      (s s' : S) (r : R)
      → storage.delete s r ≡ ok s'
      → storage.get_by_id s' (id r) ≡ err record_not_found
  pub get-id : (s : S) (j : String) (r : R) → storage.get_by_id s j ≡ ok r → id r ≡ j
