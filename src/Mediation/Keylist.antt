-- ===== src/Mediation/Keylist.antt =====
-- The loops over a keylist update: of `processKeylistUpdateRequest` in MediatorService.ts and of
-- `processKeylistUpdateResults` in MediationRecipientService.ts, with the conversion of keys of
-- modules/dids/helpers.ts.
pub mod Laws
use test_lib.Common.{String, Bool, true, false, List, [], ◌∷◌, ◌++◌, if◌then◌else◌, any}
use test_lib.Exec.{Result, ok, err, Exec, pure, lift, ◌>>=◌}
use text.Mathlib.Text.{starts_with}
use test_lib.Mediation.Record.{add_recipient_key, remove_recipient_key}

pub data KeylistUpdateAction : Type 0 where
  add remove : KeylistUpdateAction

pub data KeylistUpdateResult : Type 0 where
  client_error server_error no_change success : KeylistUpdateResult

pub record KeylistUpdate : Type 0 where
  pub recipient_key : String
  pub action : KeylistUpdateAction

pub record KeylistUpdated : Type 0 where
  pub recipient_key : String
  pub action : KeylistUpdateAction
  pub result : KeylistUpdateResult

-- `isDidKey`
unfoldable pub is_did_key : String → Bool
is_did_key key = starts_with key "did:key:"

-- `updates.some((update) => isDidKey(update.recipientKey))`
abbrev pub uses_did_key : List String → Bool
uses_did_key = any is_did_key

-- The parameter decodes a did key, `DidKey.fromDid(key).key.publicKeyBase58`, which may throw.
module _ (from_did : String → Result String) where
  unfoldable pub did_key_to_verkey : String → Result String
  unfolding is_did_key
  did_key_to_verkey key = if is_did_key key then from_did key else ok key

  -- `success ? Success : NoChange`
  abbrev pub result_of : Bool → KeylistUpdateResult
  result_of true = success
  result_of false = no_change

  -- one update at the mediator, with the key converted: the keys, and the result
  unfoldable pub update_keys :
      KeylistUpdateAction → String → List String → KeylistUpdateResult × List String
  unfolding add_recipient_key remove_recipient_key
  update_keys add key keys = (success, add_recipient_key key keys)
  update_keys remove key keys =
      let (found, rest) = remove_recipient_key key keys in (result_of found, rest)

  -- the loop of the mediator: the keys of the record and the results
  unfoldable pub process_updates :
      {S : Type 0} → List KeylistUpdate → List String → Exec S (List String × List KeylistUpdated)
  process_updates [] keys = pure (keys, [])
  process_updates (update ∷ updates) keys = do
    key ← lift (did_key_to_verkey update.recipient_key)
    let (result, keys') = update_keys update.action key keys
    (keys'', keylist) ← process_updates updates keys'
    pure (
      keys'',
      record { recipient_key = update.recipient_key; action = update.action; result = result }
          ∷ keylist,
    )

  -- the loop of the recipient, over the results; what each result says is not looked at
  unfoldable pub process_results :
      {S : Type 0} → List KeylistUpdated → List String → Exec S (List String)
  process_results [] keys = pure keys
  process_results (update ∷ keylist) keys = do
    key ← lift (did_key_to_verkey update.recipient_key)
    process_results keylist (update_keys update.action key keys).1
