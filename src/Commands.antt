-- ===== src/Commands.antt =====
-- One command sent to Redis with a connection of the pool, within the timeout of an operation: the
-- pattern of every operation of common/control_store/src/storage.rs and
-- services/connector/src/redis.rs. Each has an error type of its own, for which a fault stands.
pub mod Laws
pub mod Rules
use callifornia.Exec.{Result, Action, change_error}
use callifornia.Services.{Services, Fault}

module _ ⦃v : Services⦄ {E A : Type 0} where
  unfoldable pub send : (Fault → E) → (v.Db → A × v.Db) → Action v.Ext E A
  send from f x = let (r, x') = v.deliver A f x in (change_error from r, x')
