-- ===== src/Exchange/Quiet.antt =====
-- The steps that the protocols share and that write neither records nor events.
use test_lib.Common.{String, Option, refl}
use test_lib.Message.{AgentMessage, ServiceDecorator}
use test_lib.Connection.Inbound.{
  InboundMessageContext, assert_connection_or_service_decorator, assert_ready_connection,
}
use test_lib.Connection.Inbound.Reads.{
  IsRead-assert_connection_or_service_decorator, IsRead-assert_ready_connection,
}
use test_lib.Storage.Service.{StorageService}
use test_lib.Storage.Repository.Laws.{find_single_by_query-reads, get_single_by_query-reads}
use test_lib.Exchange.{
  World, ThreadQuery, find_by_thread_and_connection_id, get_by_thread_and_connection_id,
}
use test_lib.Exchange.Effect.{
  IsQuiet, IsQuiet-on_stores, IsQuiet-assert, IsQuiet-pure, IsQuiet-read,
}

module _ {S R St MS X : Type 0} where
  pub IsQuiet-assert_connection_or_service_decorator :
      {M : Type 0} (context : InboundMessageContext M) (service : Option ServiceDecorator)
      (sent received : Option AgentMessage)
      → IsQuiet (
          assert_connection_or_service_decorator {S = World S R St MS X} context service sent
            received)
  IsQuiet-assert_connection_or_service_decorator context service sent received =
      IsQuiet-read (IsRead-assert_connection_or_service_decorator context service sent received)

  pub IsQuiet-assert_ready_connection :
      {M : Type 0} (context : InboundMessageContext M)
      → IsQuiet (assert_ready_connection {S = World S R St MS X} context)
  IsQuiet-assert_ready_connection context = IsQuiet-read (IsRead-assert_ready_connection context)

module _ {S R St MS X : Type 0} (storage : StorageService S R ThreadQuery) where
  pub IsQuiet-find :
      (thread_id : String) (connection_id : Option String)
      → IsQuiet (
          find_by_thread_and_connection_id {St = St} {MS = MS} {X = X} storage thread_id
            connection_id)
  unfolding find_by_thread_and_connection_id
  IsQuiet-find thread_id connection_id = record {
    records = λ w. find_single_by_query-reads storage _ w.records;
    events = λ w. refl;
  }

  pub IsQuiet-get :
      (thread_id : String) (connection_id : Option String)
      → IsQuiet (
          get_by_thread_and_connection_id {St = St} {MS = MS} {X = X} storage thread_id
            connection_id)
  unfolding get_by_thread_and_connection_id
  IsQuiet-get thread_id connection_id = record {
    records = λ w. get_single_by_query-reads storage _ w.records;
    events = λ w. refl;
  }

pub ruleset shared_rules = (
  IsQuiet-on_stores, IsQuiet-assert, IsQuiet-pure, IsQuiet-assert_connection_or_service_decorator,
  IsQuiet-assert_ready_connection, IsQuiet-find, IsQuiet-get,
)
