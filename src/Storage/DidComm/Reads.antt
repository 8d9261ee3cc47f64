-- ===== src/Storage/DidComm/Reads.antt =====
-- The reads of the messages leave the stores as they are.
use test_lib.Common.{String, refl}
use test_lib.Message.{MessageClass}
use test_lib.Exec.{Exec, zoom}
use test_lib.Exec.Reads.{IsRead, IsRead-bind, IsRead-lift, IsRead-zoom}
use test_lib.Storage.Repository.{Repo}
use test_lib.Storage.Repository.Laws.{find_single_by_query-reads, get_single_by_query-reads}
use test_lib.Storage.DidComm.{
  Stores, DidCommMessageRecord, Externals, get_agent_message, find_agent_message,
}

module _ {MS X : Type 0} (externals : Externals MS X) where
  IsRead-on_messages :
      {A : Type 0} (m : Exec (Repo MS DidCommMessageRecord) A)
      → IsRead m
      → IsRead {S = Stores MS X} (zoom (λ s. s.messages) (λ r s. record s { messages = r }) m)
  IsRead-on_messages m read =
      IsRead-zoom (λ s. s.messages) (λ r s. record s { messages = r }) (λ s. refl) m read

  pub IsRead-get_agent_message :
      (associated_record_id : String) (message_class : MessageClass)
      → IsRead (get_agent_message externals associated_record_id message_class)
  unfolding get_agent_message
  IsRead-get_agent_message associated_record_id message_class =
      IsRead-bind _ _
        (IsRead-on_messages _
          (record { at = get_single_by_query-reads externals.message_storage _ }))
        λ _. IsRead-lift _

  pub IsRead-find_agent_message :
      (associated_record_id : String) (message_class : MessageClass)
      → IsRead (find_agent_message externals associated_record_id message_class)
  unfolding find_agent_message
  IsRead-find_agent_message associated_record_id message_class =
      IsRead-bind _ _
        (IsRead-on_messages _
          (record { at = find_single_by_query-reads externals.message_storage _ }))
        λ _. IsRead-lift _
