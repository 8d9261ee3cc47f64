-- ===== src/Mediation/Transitions/Quiet.antt =====
-- The steps of the mediation's methods that write neither its records nor its events.
use test_lib.Common.{String, Bool, List, [], ◌∷◌, refl}
use test_lib.Connection.Record.{ConnectionRecord}
use test_lib.Storage.Repository.Laws.{find_single_by_query-reads, get_single_by_query-reads}
use test_lib.Exchange.Effect.{
  IsQuiet, IsQuiet-on_stores, IsQuiet-assert, IsQuiet-pure, IsQuiet-bind, IsQuiet-lift,
}
use test_lib.Exchange.Quiet.{shared_rules}
use test_lib.Mediation.Record.{MediationRecord, MediationRole, assert_role}
use test_lib.Mediation.Base.{
  World, Config, get_by_connection_id, find_by_connection_id, update_use_did_keys_flag,
}
use test_lib.Mediation.Recipient.{add_connection_type, to_verkeys}

module _ {RS CS KS MS Y : Type 0} where
  pub IsQuiet-assert_role :
      (role : MediationRole) (r : MediationRecord)
      → IsQuiet (assert_role {S = World RS CS KS MS Y} role r)
  unfolding assert_role
  IsQuiet-assert_role role r = IsQuiet-assert _ _

module _ {RS CS CQ KS KQ MS Y : Type 0} (config : Config RS CS CQ KS KQ MS Y) where
  pub IsQuiet-get_by_connection_id : (id : String) → IsQuiet (get_by_connection_id config id)
  unfolding get_by_connection_id
  IsQuiet-get_by_connection_id id = record {
    records = λ w. get_single_by_query-reads config.mediation_storage _ w.records;
    events = λ w. refl;
  }

  pub IsQuiet-find_by_connection_id : (id : String) → IsQuiet (find_by_connection_id config id)
  unfolding find_by_connection_id
  IsQuiet-find_by_connection_id id = record {
    records = λ w. find_single_by_query-reads config.mediation_storage _ w.records;
    events = λ w. refl;
  }

  pub IsQuiet-update_use_did_keys_flag :
      (connection : ConnectionRecord) (protocol : String) (uses_did_key : Bool)
      → IsQuiet (update_use_did_keys_flag config connection protocol uses_did_key)
  unfolding update_use_did_keys_flag
  IsQuiet-update_use_did_keys_flag connection protocol uses_did_key = IsQuiet-on_stores _

  pub IsQuiet-add_connection_type :
      (connection : ConnectionRecord) (connection_type : String)
      → IsQuiet (add_connection_type config connection connection_type)
  unfolding add_connection_type
  IsQuiet-add_connection_type connection connection_type = IsQuiet-on_stores _

  pub IsQuiet-to_verkeys :
      (keys : List String) → IsQuiet (to_verkeys config {S = World RS CS KS MS Y} keys)
  unfolding to_verkeys
  IsQuiet-to_verkeys [] = IsQuiet-pure _
  IsQuiet-to_verkeys (key ∷ keys) =
      IsQuiet-bind _ _ (IsQuiet-lift _)
        λ _. IsQuiet-bind _ _ (IsQuiet-to_verkeys keys) λ _. IsQuiet-pure _

pub ruleset quiet_rules = (
  shared_rules, IsQuiet-assert_role, IsQuiet-get_by_connection_id, IsQuiet-find_by_connection_id,
  IsQuiet-update_use_did_keys_flag, IsQuiet-add_connection_type, IsQuiet-to_verkeys,
)
