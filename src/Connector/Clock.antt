-- ===== src/Connector/Clock.antt =====
-- services/connector/src/main.rs: the handlers read the clock and send commands to Redis, and time
-- goes on meanwhile.
use callifornia.Commands.{send}
use callifornia.Connector.Config.{Config}
use callifornia.Connector.Handlers.{check_supervisor_freshness, known_session, on_redis}
use callifornia.Connector.Redis
use callifornia.Connector.Redis.{
  session_get, get_room_route, to_route, load_signaling_loads, alive_signaling_nodes,
  get_supervisor_status,
}
use callifornia.ControlStore
use callifornia.ControlStore.Heartbeat.{read_supervisor_status}
use callifornia.Exec.{total}
use callifornia.Exec.Keeps.{Keeps, Keeps-total, keeps_rules}
use callifornia.Prelude.{ℕ, ◌≤◌, String, arith}
use callifornia.Services.{Services, Fault}

-- The clock does not go back while Redis is asked or the clock is read.
pub record IsClock ⦃v : Services⦄ : Type 1 where
  pub deliver_forward :
      {A : Type 0} (f : v.Db → A × v.Db) (x : v.Ext)
      → (v.unix_now x).0 ≤ (v.unix_now (v.deliver A f x).1).0
  pub unix_now_forward : (x : v.Ext) → (v.unix_now x).0 ≤ (v.unix_now (v.unix_now x).1).0

module _ ⦃v : Services⦄ where
  -- It is this time or later.
  unfoldable pub After : ℕ → v.Ext → Type 0
  After since x = since ≤ (v.unix_now x).0

module _ ⦃v : Services⦄ (clock : IsClock) (since : ℕ) where
  After-send :
      {E A : Type 0} (from : Fault → E) (f : v.Db → A × v.Db) → Keeps (After since) (send from f)
  unfolding send After
  After-send from f = record { at = λ x h. omega (arith, h, clock.deliver_forward f x) }

  After-now : {E : Type 0} → Keeps (After since) (total {E = E} v.unix_now)
  unfolding After
  After-now = Keeps-total _ λ x h. omega (arith, h, clock.unix_now_forward x)

  pub After-loads : Keeps (After since) (on_redis load_signaling_loads)
  unfolding load_signaling_loads Redis.query
  After-loads = search (keeps_rules, After-send)

  pub After-alive : (stale : ℕ) → Keeps (After since) (on_redis (alive_signaling_nodes stale))
  unfolding alive_signaling_nodes Redis.query
  After-alive stale = search (keeps_rules, After-send, After-now)

  pub After-status : Keeps (After since) (on_redis get_supervisor_status)
  unfolding get_supervisor_status read_supervisor_status ControlStore.query
  After-status = search (keeps_rules, After-send) depth 12

  pub After-freshness : (config : Config) → Keeps (After since) (check_supervisor_freshness config)
  unfolding check_supervisor_freshness
  After-freshness config = search (keeps_rules, After-status, After-now) depth 12

  pub After-session :
      (config : Config) (id : String) → Keeps (After since) (known_session config id)
  unfolding known_session session_get Redis.query
  After-session config id = search (keeps_rules, After-send) depth 10

  pub After-route : (room_id : String) → Keeps (After since) (on_redis (get_room_route room_id))
  unfolding get_room_route to_route Redis.query
  After-route room_id = search (keeps_rules, After-send) depth 12
