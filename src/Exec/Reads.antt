-- ===== src/Exec/Reads.antt =====
-- The methods that leave the state as it is, whatever they return.
use test_lib.Common.{Bool, true, false, String, ◌≡◌, refl, sym, ap, ◌∙◌}
use test_lib.Exec.{Result, ok, err, Error, Exec, pure, throw, lift, assert, zoom, continue, ◌>>=◌}

pub record IsRead {S A : Type 0} (m : Exec S A) : Type 0 where
  pub at : (s : S) → (m s).1 ≡ s

module _ {S A : Type 0} where
  pub IsRead-pure : (a : A) → IsRead (pure {S = S} a)
  IsRead-pure a = record { at = λ s. refl }

  pub IsRead-throw : (e : Error) → IsRead (throw {S = S} {A = A} e)
  IsRead-throw e = record { at = λ s. refl }

  pub IsRead-lift : (r : Result A) → IsRead (lift {S = S} r)
  IsRead-lift r = record { at = λ s. refl }

  -- a read that returns does so in the state that it was called in
  pub read-ok : {m : Exec S A} → IsRead m → {s s' : S} {a : A} → m s ≡ (ok a, s') → s ≡ s'
  read-ok read {s} h = sym (read.at s) ∙ ap (λ p. p.1) h

module _ {S : Type 0} where
  pub IsRead-assert : (b : Bool) (message : String) → IsRead (assert {S = S} b message)
  IsRead-assert true message = record { at = λ s. refl }
  IsRead-assert false message = record { at = λ s. refl }

module _ {S A B : Type 0} where
  continue-IsRead :
      (r : Result A) (f : A → Exec S B) → ((a : A) → IsRead (f a)) → IsRead (continue r f)
  continue-IsRead (ok a) f q = q a
  continue-IsRead (err e) f q = record { at = λ s. refl }

  pub IsRead-bind :
      (m : Exec S A) (f : A → Exec S B) → IsRead m → ((a : A) → IsRead (f a)) → IsRead (m >>= f)
  unfolding ◌>>=◌
  IsRead-bind m f qm qf = record { at = λ s. (continue-IsRead (m s).0 f qf).at (m s).1 ∙ qm.at s }

-- a read of one part of the state
module _ {S T A : Type 0} (get : S → T) (set : T → S → S)
    (set_get : (s : S) → set (get s) s ≡ s) where
  pub IsRead-zoom : (m : Exec T A) → IsRead m → IsRead (zoom get set m)
  IsRead-zoom m read = record { at = λ s. ap (λ t. set t s) (read.at (get s)) ∙ set_get s }
