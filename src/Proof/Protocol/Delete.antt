-- ===== src/Proof/Protocol/Delete.antt =====
-- `delete` of BaseProofProtocol.ts, with its options, and the plain methods of that class over the
-- repository.
pub mod Laws
use test_lib.Common.{String, Bool, true, false, Option, none, some, List, [], ◌∷◌}
use test_lib.Exec.{Exec, pure, zoom, ◌>>=◌, ◌>>◌}
use test_lib.Storage.Repository
use test_lib.Storage.Repository.{Repo}
use test_lib.Storage.DidComm.{DidCommMessageRecord, Stores}
use test_lib.Proof.Record.{ProofExchangeRecord}
use test_lib.Proof.Protocol.Base.{World, Config, on_records, on_stores}

pub record DeleteProofOptions : Type 0 where
  pub delete_associated_didcomm_messages : Option Bool

-- `options?.deleteAssociatedDidCommMessages ?? true`
abbrev deletes_messages : Option DeleteProofOptions → Bool
deletes_messages none = true
deletes_messages (some options) = elim options.delete_associated_didcomm_messages [
  | none ↦ true
  | some b ↦ b
]

module _ {PS MS X : Type 0} (config : Config PS MS X) where
  open config use {proof_storage, externals}

  abbrev on_messages : {A : Type 0} → Exec (Repo MS DidCommMessageRecord) A → Exec (Stores MS X) A
  on_messages = zoom (λ s. s.messages) (λ r s. record s { messages = r })

  -- the loop over the messages of the exchange
  unfoldable pub delete_messages : List DidCommMessageRecord → Exec (Stores MS X) Unit
  delete_messages [] = pure tt
  delete_messages (message ∷ messages) = do
    on_messages (Repository.delete externals.message_storage message)
    delete_messages messages

  -- what follows the deletion of the record itself
  abbrev pub delete_associated : Bool → ProofExchangeRecord → Exec (Stores MS X) Unit
  delete_associated false r = pure tt
  delete_associated true r = do
    messages ← on_messages (
        Repository.find_by_query externals.message_storage
          (record { associated_record_id = r.id; message_class = none }))
    delete_messages messages

  unfoldable pub delete :
      ProofExchangeRecord → Option DeleteProofOptions → Exec (World PS MS X) Unit
  delete r options = do
    on_records (Repository.delete proof_storage r)
    on_stores (delete_associated (deletes_messages options) r)

  unfoldable pub get_by_id : String → Exec (World PS MS X) ProofExchangeRecord
  get_by_id id = on_records (Repository.get_by_id proof_storage id)

  unfoldable pub find_by_id : String → Exec (World PS MS X) (Option ProofExchangeRecord)
  find_by_id id = on_records (Repository.find_by_id proof_storage id)

  unfoldable pub get_all : Exec (World PS MS X) (List ProofExchangeRecord)
  get_all = on_records (Repository.get_all proof_storage)

  unfoldable pub update : ProofExchangeRecord → Exec (World PS MS X) Unit
  update r = on_records (Repository.update proof_storage r)
