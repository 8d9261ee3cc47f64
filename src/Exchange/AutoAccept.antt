-- ===== src/Exchange/AutoAccept.antt =====
-- The loops with which V2CredentialProtocol.ts and V2ProofProtocol.ts ask their format services
-- whether the agent answers a message by itself.
pub mod Laws
use test_lib.Common.{Bool, true, false, Option, none, some, List, [], ◌∷◌}
use test_lib.Exec.{Exec, pure, ◌>>=◌}
use test_lib.Message.{AgentMessage}
use test_lib.Storage.DidComm.{Stores}

module _ {MS X : Type 0} where
  -- `if (!shouldAutoRespondToFormat) return false`
  abbrev pub if_responded : Bool → Exec (Stores MS X) Bool → Exec (Stores MS X) Bool
  if_responded true further = further
  if_responded false further = pure false

  -- the loop: every format service agrees
  unfoldable pub all_respond :
      {F : Type 0} → (F → Exec (Stores MS X) Bool) → List F → Exec (Stores MS X) Bool
  all_respond respond [] = pure true
  all_respond respond (service ∷ format_services) = do
    should_respond ← respond service
    if_responded should_respond (all_respond respond format_services)

  -- `if (!message) return false`
  abbrev pub if_found :
      Option AgentMessage → (AgentMessage → Exec (Stores MS X) Bool) → Exec (Stores MS X) Bool
  if_found none compare = pure false
  if_found (some message) compare = compare message
