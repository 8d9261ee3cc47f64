-- ===== src/Mediation/Record.antt =====
-- modules/routing: repository/MediationRecord.ts, models/MediationState.ts and
-- models/MediationRole.ts. Creation dates, custom tags and pickup strategies are left out.
use test_lib.Common.{
  String, Bool, true, false, Option, none, List, [], ◌∷◌, ◌++◌, ◌==◌, if◌then◌else◌,
}
use test_lib.Exec.{Exec, assert}

pub data MediationState : Type 0 where
  requested granted denied : MediationState

unfoldable pub state_name : MediationState → String
state_name requested = "requested"
state_name granted = "granted"
state_name denied = "denied"

pub data MediationRole : Type 0 where
  mediator recipient : MediationRole

unfoldable pub role_name : MediationRole → String
role_name mediator = "MEDIATOR"
role_name recipient = "RECIPIENT"

pub record MediationRecord : Type 0 where
  pub id : String
  pub connection_id : String
  pub thread_id : String
  pub recipient_keys : List String
  pub routing_keys : List String
  pub state : MediationState
  pub role : MediationRole
  pub endpoint : Option String

-- `new MediationRecord({ connectionId, threadId, state, role })`
unfoldable pub new_record :
    String → String → String → MediationState → MediationRole → MediationRecord
new_record id connection_id thread_id state role = record {
  id = id;
  connection_id = connection_id;
  thread_id = thread_id;
  recipient_keys = [];
  routing_keys = [];
  state = state;
  role = role;
  endpoint = none;
}

-- `addRecipientKey`, on the list of the keys
unfoldable pub add_recipient_key : String → List String → List String
add_recipient_key key keys = keys ++ key ∷ []

-- `removeRecipientKey`: whether the key was there, and the list without its first occurrence
unfoldable pub remove_recipient_key : String → List String → Bool × List String
remove_recipient_key key [] = (false, [])
remove_recipient_key key (k ∷ keys) =
    let (found, rest) = remove_recipient_key key keys in
    if k == key then (true, keys) else (found, k ∷ rest)

-- `assertReady`
unfoldable pub assert_ready : {S : Type 0} → MediationRecord → Exec S Unit
unfolding state_name
assert_ready r =
    assert (state_name r.state == state_name granted) "Mediation record is not ready to be used"

-- `assertState`, of one expected state
unfoldable pub assert_state : {S : Type 0} → MediationState → MediationRecord → Exec S Unit
unfolding state_name
assert_state expected r =
    assert (state_name expected == state_name r.state) "Mediation record is in invalid state"

unfoldable pub assert_role : {S : Type 0} → MediationRole → MediationRecord → Exec S Unit
unfolding role_name
assert_role expected r =
    assert (role_name r.role == role_name expected) "Mediation record has invalid role"
