-- ===== src/Exec.antt =====
-- Asynchronous methods that change state and may throw. What was written before a throw stays
-- written, so the state comes back beside the error too. The methods that are modelled here await
-- each call before they make the next one.
pub mod Reads
use mathlib.Core.Path.{fun_ext}
use test_lib.Common.{◌≡◌, refl, arith, ◌⊎◌, inl, inr, String, Bool, true, false}

-- error/AriesFrameworkError.ts, error/RecordNotFoundError.ts and error/RecordDuplicateError.ts;
-- `external` is an error of code outside the repository
pub data Error : Type 0 where
  aries_framework_error : String → Error
  record_not_found record_duplicate : Error
  external : String → Error

pub data Result {ℓ} (A : Type ℓ) : Type ℓ where
  ok : A → Result A
  err : Error → Result A

abbrev pub Exec {ℓ} : Type ℓ → Type ℓ → Type ℓ
Exec S A = S → Result A × S

module _ {ℓ} {S A : Type ℓ} where
  abbrev pub pure : A → Exec S A
  pure a s = (ok a, s)

  abbrev pub throw : Error → Exec S A
  throw e s = (err e, s)

  -- a computation that may throw and neither reads nor writes the state
  abbrev pub lift : Result A → Exec S A
  lift r s = (r, s)

  abbrev pub gets : (S → A) → Exec S A
  gets f s = (ok (f s), s)

module _ {ℓ} {S A B : Type ℓ} where
  abbrev pub continue : Result A → (A → Exec S B) → Exec S B
  continue (ok a) f s = f a s
  continue (err e) f s = (err e, s)

  infixl 10 ◌>>=◌ ◌>>◌
  unfoldable pub ◌>>=◌ : Exec S A → (A → Exec S B) → Exec S B
  ◌>>=◌ m f s = let (r, s') = m s in continue r f s'

  abbrev pub ◌>>◌ : Exec S A → Exec S B → Exec S B
  m >> n = m >>= λ _. n

-- `if (!test) throw new AriesFrameworkError(message)`
abbrev pub assert : {S : Type 0} → Bool → String → Exec S Unit
assert true message s = (ok tt, s)
assert false message s = (err (aries_framework_error message), s)

-- A method of an object that is one part of the state.
module _ {ℓ} {S T A : Type ℓ} (get : S → T) (set : T → S → S) where
  abbrev pub zoom : Exec T A → Exec S A
  zoom m s = let (r, t) = m (get s) in (r, set t s)

pub Result-cases {ℓ} :
    {A : Type ℓ} (r : Result A) → ((a : A) × (r ≡ ok a)) ⊎ ((e : Error) × (r ≡ err e))
Result-cases (ok a) = inl (a, refl)
Result-cases (err e) = inr (e, refl)

module _ {S A : Type 0} where
  continue-pure : (r : Result A) (s : S) → continue r pure s ≡ (r, s)
  continue-pure (ok a) s = refl
  continue-pure (err e) s = refl

  pub bind-pure : (m : Exec S A) → (m >>= pure) ≡ m
  unfolding ◌>>=◌
  bind-pure m = fun_ext λ s. let (r, s') = m s in continue-pure r s'

-- A chain that returns has returned at each of its steps.
module _ {S A B : Type 0} where
  pub bind-ok :
      (m : Exec S A) (f : A → Exec S B) (s s' : S) (b : B)
      → (m >>= f) s ≡ (ok b, s')
      → (a : A) × (between : S) × (m s ≡ (ok a, between)) × (f a between ≡ (ok b, s'))
  unfolding ◌>>=◌
  bind-ok m f s s' b h = go (m s) refl
    where
      go :
          (result : Result A × S)
          → m s ≡ result
          → (a : A) × (between : S) × (m s ≡ (ok a, between)) × (f a between ≡ (ok b, s'))
      go (ok a, between) e = (a, between, e, rw e at h)
      go (err x, between) e = absurd (ground (arith, rw e at h))

-- A chain whose first step returns goes on with the rest.
module _ {S A B : Type 0} where
  pub run-bind :
      (m : Exec S A) (f : A → Exec S B) {s s₁ : S} {a : A} {out : Result B × S}
      → m s ≡ (ok a, s₁)
      → f a s₁ ≡ out
      → (m >>= f) s ≡ out
  unfolding ◌>>=◌
  run-bind m f first then = rw first then

  -- A chain whose first step throws throws that error, in the state it was thrown in.
  pub run-throws :
      (m : Exec S A) (f : A → Exec S B) {s s₁ : S} {e : Error}
      → m s ≡ (err e, s₁)
      → (m >>= f) s ≡ (err e, s₁)
  unfolding ◌>>=◌
  run-throws m f thrown = rw thrown refl

module _ {S : Type 0} where
  pub assert-ok :
      (b : Bool) (message : String) (s s' : S) (u : Unit)
      → assert b message s ≡ (ok u, s')
      → b ≡ true
  assert-ok true message s s' u h = refl
  assert-ok false message s s' u h = absurd (ground (arith, h))

  pub assert-keeps :
      (b : Bool) (message : String) (s s' : S) (u : Unit) → assert b message s ≡ (ok u, s') → s ≡ s'
  assert-keeps true message s s' u h = ground (arith, h)
  assert-keeps false message s s' u h = absurd (ground (arith, h))
