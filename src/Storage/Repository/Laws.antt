-- ===== src/Storage/Repository/Laws.antt =====
-- The reads of a repository leave it as it is.
use test_lib.Common.{List, [], ◌∷◌, ◌≡◌, refl, ap, ◌∙◌, arith}
use test_lib.Exec.{Result, ok, err, ◌>>=◌, continue}
use test_lib.Storage.Service.{StorageService}
use test_lib.Storage.Repository.{Repo, find_by_query, find_single_by_query, get_single_by_query}

module _ {S A B : Type 0} where
  -- a read, and what is made of its result
  continue-reads :
      (r : Result A) (f : A → Result B) (s : S) → (continue r (λ a s'. (f a, s')) s).1 ≡ s
  continue-reads (ok a) f s = refl
  continue-reads (err e) f s = refl

module _ {S R Q : Type 0} (storage : StorageService S R Q) (query : Q) (repo : Repo S R) where
  pub find_single_by_query-reads : (find_single_by_query storage query repo).1 ≡ repo
  unfolding find_single_by_query find_by_query ◌>>=◌
  find_single_by_query-reads = continue-reads (storage.find_by_query repo.store query) _ repo

  pub get_single_by_query-reads : (get_single_by_query storage query repo).1 ≡ repo
  unfolding get_single_by_query ◌>>=◌
  get_single_by_query-reads =
      continue-reads (find_single_by_query storage query repo).0 _ _ ∙ find_single_by_query-reads

  -- the record that is returned is the only one that the query finds
  pub get_single_by_query-ok :
      (r : R) (repo' : Repo S R)
      → get_single_by_query storage query repo ≡ (ok r, repo')
      → storage.find_by_query repo.store query ≡ ok (r ∷ [])
  unfolding get_single_by_query find_single_by_query find_by_query ◌>>=◌
  get_single_by_query-ok r repo' h = go (storage.find_by_query repo.store query) refl
    where
      go :
          (found : Result (List R))
          → storage.find_by_query repo.store query ≡ found
          → storage.find_by_query repo.store query ≡ ok (r ∷ [])
      go (err x) e = absurd (ground (arith, rw e at h))
      go (ok []) e = absurd (ground (arith, rw e at h))
      go (ok (a ∷ b ∷ rs)) e = absurd (ground (arith, rw e at h))
      go (ok (a ∷ [])) e =
          let same : a ≡ r = ground (arith, rw e at h) in e ∙ ap (λ x. ok (x ∷ [])) same
