-- ===== src/Credential/Protocol/Effect.antt =====
-- What the methods of the credential protocol do to its records and events.
use test_lib.Common.{Option, ◌≡◌, ◌==◌, sym, eq_iff}
use test_lib.Exec.{Result, Exec, ◌>>◌}
use test_lib.Storage.Service.{StorageService}
use test_lib.Exchange
use test_lib.Exchange.Effect.{HasEffect-assert}
use test_lib.Credential.Record.{CredentialState, CredentialExchangeRecord, state_name, assert_state}
use test_lib.Credential.Record.States.{state_name-injective}
use test_lib.Credential.Protocol.Base.{World, Config, CredentialQuery, credential_states}

module _ {CS MS X : Type 0} where
  abbrev pub Effect :
      Config CS MS X
      → (Option CredentialState → CredentialState → Type 0)
      → World CS MS X
      → Result CredentialExchangeRecord
      → World CS MS X
      → Type 0
  Effect config Allowed = Exchange.Effect.Effect config.credential_storage credential_states Allowed

  abbrev pub HasEffect :
      {A : Type 0}
      → Config CS MS X
      → (Option CredentialState → CredentialState → Type 0)
      → (A → CredentialExchangeRecord)
      → Exec (World CS MS X) A
      → Type 0
  HasEffect config Allowed get m =
      Exchange.Effect.HasEffect config.credential_storage credential_states Allowed get m

module _ {CS MS X A : Type 0} {storage : StorageService CS CredentialExchangeRecord CredentialQuery}
    {Allowed : Option CredentialState → CredentialState → Type 0}
    {get : A → CredentialExchangeRecord} where
  -- `assertState` before: what follows may use the state
  pub HasEffect-assert_state :
      (expected : CredentialState) (r : CredentialExchangeRecord) (m : Exec (World CS MS X) A)
      → (r.state ≡ expected → Exchange.Effect.HasEffect storage credential_states Allowed get m)
      → Exchange.Effect.HasEffect storage credential_states Allowed get
          (assert_state expected r >> m)
  unfolding assert_state
  HasEffect-assert_state expected r m h =
      HasEffect-assert (state_name expected == state_name r.state) _ m
        (λ e. h (sym (state_name-injective _ _ ((eq_iff _ _).0 e))))
