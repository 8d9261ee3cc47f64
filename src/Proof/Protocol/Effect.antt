-- ===== src/Proof/Protocol/Effect.antt =====
-- What the methods of the present-proof protocol do to its records and events.
use test_lib.Common.{Option, ◌≡◌, ◌==◌, sym, eq_iff}
use test_lib.Exec.{Result, Exec, ◌>>◌}
use test_lib.Storage.Service.{StorageService}
use test_lib.Exchange
use test_lib.Exchange.{ThreadQuery}
use test_lib.Exchange.Effect.{HasEffect-assert}
use test_lib.Proof.Record.{ProofState, ProofExchangeRecord, state_name, assert_state}
use test_lib.Proof.Record.States.{state_name-injective}
use test_lib.Proof.Protocol.Base.{World, Config, proof_states}

module _ {PS MS X : Type 0} where
  abbrev pub Effect :
      Config PS MS X
      → (Option ProofState → ProofState → Type 0)
      → World PS MS X
      → Result ProofExchangeRecord
      → World PS MS X
      → Type 0
  Effect config Allowed = Exchange.Effect.Effect config.proof_storage proof_states Allowed

  abbrev pub HasEffect :
      {A : Type 0}
      → Config PS MS X
      → (Option ProofState → ProofState → Type 0)
      → (A → ProofExchangeRecord)
      → Exec (World PS MS X) A
      → Type 0
  HasEffect config Allowed get m =
      Exchange.Effect.HasEffect config.proof_storage proof_states Allowed get m

module _ {PS MS X A : Type 0} {storage : StorageService PS ProofExchangeRecord ThreadQuery}
    {Allowed : Option ProofState → ProofState → Type 0} {get : A → ProofExchangeRecord} where
  -- `assertState` before: what follows may use the state
  pub HasEffect-assert_state :
      (expected : ProofState) (r : ProofExchangeRecord) (m : Exec (World PS MS X) A)
      → (r.state ≡ expected → Exchange.Effect.HasEffect storage proof_states Allowed get m)
      → Exchange.Effect.HasEffect storage proof_states Allowed get (assert_state expected r >> m)
  unfolding assert_state
  HasEffect-assert_state expected r m h =
      HasEffect-assert (state_name expected == state_name r.state) _ m
        (λ e. h (sym (state_name-injective _ _ ((eq_iff _ _).0 e))))
