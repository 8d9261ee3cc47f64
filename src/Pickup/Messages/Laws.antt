-- ===== src/Pickup/Messages/Laws.antt =====
-- A message on a ready connection passes the check of the connection.
use test_lib.Common.{true, ◌≡◌, refl}
use test_lib.Exec.{ok, ◌>>=◌}
use test_lib.Connection.Record.{ConnectionRecord, is_ready, assert_ready}
use test_lib.Connection.Inbound.{assert_ready_connection}
use test_lib.Pickup.Messages.{on}

pub assert_ready_connection-ok :
    {S M : Type 0} (connection : ConnectionRecord) (message : M) (s : S)
    → is_ready connection ≡ true
    → assert_ready_connection (on connection message) s ≡ (ok connection, s)
unfolding assert_ready_connection assert_ready ◌>>=◌
assert_ready_connection-ok connection message s ready = rw ready refl
