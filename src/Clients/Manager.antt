-- ===== src/Clients/Manager.antt =====
-- src/clients/src/placement/kv/mod.rs and openraft/mod.rs: the managers by which the pools of
-- `mobc` make and check connections. A connection is known by its endpoint.
use robustmq_geek.Prelude.{◌∷◌, ◌++◌, Text, codes, Result, ok, Action, ◌>>=◌, pure, map_err}
use robustmq_geek.Common.Errors.{Fault, RobustMqError, commmon_error}

pub record KvServiceManager : Type 0 where
  pub addr : Text

pub record OpenRaftServiceManager : Type 0 where
  pub addr : Text

-- `KvServiceClient::connect` and `OpenRaftServiceClient::connect`.
pub record Endpoints : Type 1 where
  pub World : Type 0
  pub kv_connect : Text → Action World (Result Fault (Unit {0}))
  pub openraft_connect : Text → Action World (Result Fault (Unit {0}))

-- The text of an error, a comma, and an address.
abbrev refused : Text → Fault → RobustMqError
refused addr e = commmon_error (e.display ++ b',' ∷ addr)

module _ ⦃E : Endpoints⦄ where
  -- The error has the address as it was given.
  unfoldable pub kv_connect : KvServiceManager → Action E.World (Result RobustMqError (Unit {0}))
  kv_connect manager = do
    result ← E.kv_connect (codes "http://" ++ manager.addr)
    pure (map_err (refused manager.addr) result)

  -- The error has the endpoint.
  unfoldable pub openraft_connect :
      OpenRaftServiceManager → Action E.World (Result RobustMqError (Unit {0}))
  openraft_connect manager = do
    let addr = codes "http://" ++ manager.addr
    result ← E.openraft_connect addr
    pure (map_err (refused addr) result)

-- Every connection passes the check.
abbrev pub check : {Connection : Type 0} → Connection → Result RobustMqError Connection
check conn = ok conn
