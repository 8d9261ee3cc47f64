-- ===== src/Exchange/Effect.antt =====
-- What a method of an exchange protocol does to the records and to the events, with a rule
-- for each way to build a method. The rules make the proofs about the methods short.
use test_lib.Common.{
  ap, String, Bool, true, false, Option, none, some, [], ◌∷◌, ◌++◌, ◌≡◌, refl, ◌∙◌, subst, inl, inr,
}
use test_lib.Exec.{
  Error, throw, Result-cases, Result, ok, err, Exec, pure, assert, lift, ◌>>=◌, ◌>>◌, continue,
  bind-pure,
}
use test_lib.Exec.Reads.{IsRead}
use test_lib.Storage.Service.{StorageService}
use test_lib.Storage.Repository
use test_lib.Storage.DidComm.{Stores}
use test_lib.Exchange.{
  World, States, StateChanged, on_stores, update_state, save_new, emit_state_changed_event,
}

abbrev pub event : {R St : Type 0} → R → Option St → StateChanged R St
event r previous = record { changed = r; previous_state = previous }

-- the record of a result
abbrev pub of : {A R : Type 0} → (A → R) → Result A → Result R
of get (ok a) = ok (get a)
of get (err e) = err e

of_self : {R : Type 0} (r : Result R) → of (λ r'. r') r ≡ r
of_self (ok r) = refl
of_self (err e) = refl

module _ {S R Q St MS X : Type 0} where
  -- the record was written to the storage: saved if it is new, else updated
  abbrev pub Written :
      StorageService S R Q → Option St → R → World S R St MS X → World S R St MS X → Type 0
  Written storage none r w w' = storage.save w.records.store r ≡ ok w'.records.store
  Written storage (some _) r w w' = storage.update w.records.store r ≡ ok w'.records.store

  -- A method that fails leaves the records and the events as they were. One that succeeds has
  -- written the record that it returns, and has emitted one event: that the record came from a
  -- previous state, which is allowed for its state.
  abbrev pub Effect :
      StorageService S R Q
      → States R St
      → (Option St → St → Type 0)
      → World S R St MS X
      → Result R
      → World S R St MS X
      → Type 0
  Effect storage states Allowed w (err e) w' = (w'.records ≡ w.records) × (w'.events ≡ w.events)
  Effect storage states Allowed w (ok r) w' =
      (previous : Option St) × Allowed previous (states.state_of r)
      × Written storage previous r w w'
      × (w'.events ≡ w.events ++ event r previous ∷ [])

-- `m` reads the records, and writes at most to the other stores
pub record IsQuiet {S R St MS X A : Type 0} (m : Exec (World S R St MS X) A) : Type 0 where
  pub records : (w : World S R St MS X) → (m w).1.records ≡ w.records
  pub events : (w : World S R St MS X) → (m w).1.events ≡ w.events

module _ {S R St MS X A : Type 0} where
  pub IsQuiet-on_stores :
      (m : Exec (Stores MS X) A) → IsQuiet (on_stores {S = S} {R = R} {St = St} m)
  IsQuiet-on_stores m = record { records = λ w. refl; events = λ w. refl }

  pub IsQuiet-read : {m : Exec (World S R St MS X) A} → IsRead m → IsQuiet m
  IsQuiet-read read = record {
    records = λ w. ap (λ w'. w'.records) (read.at w);
    events = λ w. ap (λ w'. w'.events) (read.at w);
  }

  pub IsQuiet-lift : (r : Result A) → IsQuiet (lift {S = World S R St MS X} r)
  IsQuiet-lift r = record { records = λ w. refl; events = λ w. refl }

  pub IsQuiet-throw : (e : Error) → IsQuiet (throw {S = World S R St MS X} {A = A} e)
  IsQuiet-throw e = record { records = λ w. refl; events = λ w. refl }

  pub IsQuiet-pure : (a : A) → IsQuiet (pure {S = World S R St MS X} a)
  IsQuiet-pure a = record { records = λ w. refl; events = λ w. refl }

module _ {S R St MS X : Type 0} where
  pub IsQuiet-assert :
      (b : Bool) (message : String) → IsQuiet (assert {S = World S R St MS X} b message)
  IsQuiet-assert true message = record { records = λ w. refl; events = λ w. refl }
  IsQuiet-assert false message = record { records = λ w. refl; events = λ w. refl }

module _ {S R St MS X A B : Type 0} where
  continue-IsQuiet :
      (r : Result A) (f : A → Exec (World S R St MS X) B)
      → ((a : A) → IsQuiet (f a))
      → IsQuiet (continue r f)
  continue-IsQuiet (ok a) f q = q a
  continue-IsQuiet (err e) f q = record { records = λ w. refl; events = λ w. refl }

  pub IsQuiet-bind :
      (m : Exec (World S R St MS X) A) (f : A → Exec (World S R St MS X) B)
      → IsQuiet m
      → ((a : A) → IsQuiet (f a))
      → IsQuiet (m >>= f)
  unfolding ◌>>=◌
  IsQuiet-bind m f qm qf = record {
    records = λ w. let (r, w') = m w in (continue-IsQuiet r f qf).records w' ∙ qm.records w;
    events = λ w. let (r, w') = m w in (continue-IsQuiet r f qf).events w' ∙ qm.events w;
  }

-- `m` has the effect of `Effect`, from every state
pub record HasEffect {S R Q St MS X A : Type 0} (storage : StorageService S R Q)
    (states : States R St) (Allowed : Option St → St → Type 0) (get : A → R)
    (m : Exec (World S R St MS X) A) : Type 0 where
  pub at : (w : World S R St MS X) → Effect storage states Allowed w (of get (m w).0) (m w).1

module _ {S R Q St MS X : Type 0} (storage : StorageService S R Q) (states : States R St)
    (Allowed : Option St → St → Type 0) where
  Effect-after :
      (w w₁ w' : World S R St MS X) (r : Result R)
      → w₁.records ≡ w.records
      → w₁.events ≡ w.events
      → Effect storage states Allowed w₁ r w'
      → Effect storage states Allowed w r w'
  Effect-after w w₁ w' (err e) hc he (c, l) = (c ∙ hc, l ∙ he)
  Effect-after w w₁ w' (ok r) hc he (none, allowed, written, l) = (none, allowed, cc, cc)
  Effect-after w w₁ w' (ok r) hc he (some p, allowed, written, l) = (some p, allowed, cc, cc)

module _ {S R Q St MS X : Type 0} {storage : StorageService S R Q} {states : States R St}
    {Allowed : Option St → St → Type 0} where
  module _ {A B : Type 0} {get : B → R} where
    -- a quiet method before
    pub HasEffect-bind :
        (m : Exec (World S R St MS X) A) (f : A → Exec (World S R St MS X) B)
        → IsQuiet m
        → ((a : A) → HasEffect storage states Allowed get (f a))
        → HasEffect storage states Allowed get (m >>= f)
    unfolding ◌>>=◌
    HasEffect-bind m f q h = record { at = λ w. go w (m w).0 (m w).1 (q.records w) (q.events w) }
      where
        go :
            (w : World S R St MS X) (r : Result A) (w₁ : World S R St MS X)
            → w₁.records ≡ w.records
            → w₁.events ≡ w.events
            → Effect storage states Allowed w (of get (continue r f w₁).0) (continue r f w₁).1
        go w (ok a) w₁ hc he = Effect-after storage states Allowed w w₁ _ _ hc he ((h a).at w₁)
        go w (err e) w₁ hc he = (hc, he)

  module _ {A : Type 0} {get : A → R} where
    -- a check before: what follows may use that it holds
    pub HasEffect-assert :
        (b : Bool) (message : String) (m : Exec (World S R St MS X) A)
        → (b ≡ true → HasEffect storage states Allowed get m)
        → HasEffect storage states Allowed get (assert b message >> m)
    unfolding ◌>>=◌
    HasEffect-assert true message m h = h refl
    HasEffect-assert false message m h = record { at = λ w. (refl, refl) }

  module _ {A : Type 0} {get : A → R} where
    pub HasEffect-quiet_throw :
        (e : Error) → HasEffect storage states Allowed get (throw {S = World S R St MS X} e)
    HasEffect-quiet_throw e = record { at = λ w. (refl, refl) }

  module _ {A : Type 0} (get : A → R) where
    pub HasEffect-update_state :
        (r : R) (next : St) (f : R → A)
        → ((r' : R) → get (f r') ≡ r')
        → {previous : St} → states.state_of r ≡ previous
        → Allowed (some previous) next
        → HasEffect storage states Allowed get
            (update_state {MS = MS} {X = X} storage states r next >>= λ r'. pure (f r'))
    unfolding update_state emit_state_changed_event Repository.update ◌>>=◌
    HasEffect-update_state r next f e at_previous allowed = record {
      at = λ w.
          let r' = states.with_state next r in
          elim (Result-cases (storage.update w.records.store r')) [
            | inl (s, saved) ↦
                rw (saved, Repository.written, continue)
                  (rw e (
                    some (states.state_of r),
                    rw (at_previous, states.state_of-with_state next r) allowed,
                    saved,
                    refl,
                  ))
            | inr (error, failed) ↦ rw (failed, Repository.written, continue) (refl, refl)
          ];
    }

    pub HasEffect-save_new :
        (r : R) (a : A)
        → get a ≡ r
        → Allowed none (states.state_of r)
        → HasEffect storage states Allowed get
            (save_new {St = St} {MS = MS} {X = X} storage r >> pure a)
    unfolding save_new emit_state_changed_event Repository.save ◌>>=◌
    HasEffect-save_new r a e allowed = record {
      at = λ w. elim (Result-cases (storage.save w.records.store r)) [
        | inl (s, saved) ↦
            rw (saved, Repository.written, continue) (rw e (none, allowed, saved, refl))
        | inr (error, failed) ↦ rw (failed, Repository.written, continue) (refl, refl)
      ];
    }

  module _ {M : Type 0} where
    pub HasEffect-update_pair :
        (r : R) (next : St) (message : M)
        → {previous : St} → states.state_of r ≡ previous
        → Allowed (some previous) next
        → HasEffect storage states Allowed
            (λ (p : R × M). p.0)
            (update_state {MS = MS} {X = X} storage states r next >>= λ r'. pure (r', message))
    HasEffect-update_pair r next message at_previous allowed =
        HasEffect-update_state (λ p. p.0) r next (λ r'. (r', message)) (λ r'. refl) at_previous
          allowed

    pub HasEffect-save_pair :
        (r : R) (message : M)
        → Allowed none (states.state_of r)
        → HasEffect storage states Allowed
            (λ (p : R × M). p.0)
            (save_new {St = St} {MS = MS} {X = X} storage r >> pure (r, message))
    HasEffect-save_pair r message allowed =
        HasEffect-save_new (λ p. p.0) r (r, message) refl allowed

  pub HasEffect-update :
      (r : R) (next : St)
      → {previous : St} → states.state_of r ≡ previous
      → Allowed (some previous) next
      → HasEffect storage states Allowed
          (λ r'. r')
          (update_state {MS = MS} {X = X} storage states r next)
  HasEffect-update r next at_previous allowed =
      subst (HasEffect storage states Allowed (λ r'. r'))
        (bind-pure (update_state {MS = MS} {X = X} storage states r next))
        (HasEffect-update_state (λ r'. r') r next (λ r'. r') (λ r'. refl) at_previous allowed)

  pub HasEffect-save :
      (r : R)
      → Allowed none (states.state_of r)
      → HasEffect storage states Allowed
          (λ r'. r')
          (save_new {St = St} {MS = MS} {X = X} storage r >> pure r)
  HasEffect-save r allowed = HasEffect-save_new (λ r'. r') r r refl allowed

  -- the effect of a method that returns just the record
  pub Effect-of_self :
      (m : Exec (World S R St MS X) R)
      → HasEffect storage states Allowed (λ r. r) m
      → (w : World S R St MS X) → Effect storage states Allowed w (m w).0 (m w).1
  Effect-of_self m h w =
      subst (λ r. Effect storage states Allowed w r (m w).1) (of_self (m w).0) (h.at w)
