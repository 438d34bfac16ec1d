-- ===== src/Signaling/Admin.antt =====
-- services/signaling/src/admin.rs: the admin service, which the supervisor calls. Each request
-- answers with what it read at once; the work that it spawns comes after the answer.
use callifornia.Exec.{gets, pure, ◌>>=◌}
use callifornia.Prelude.{ℕ, ◌%◌, ◌^◌, String, Bool, true, length}
use callifornia.Services.{Services}
use callifornia.Signaling.Node.{Node, public_node_id}
use callifornia.Signaling.Peers.{peer_count, snapshot_rooms}
use callifornia.Signaling.Sessions.{count}
use callifornia.Signaling.State.{Quiet, run_purge, close_rooms_due_to_sfu_addr}

pub record PingResponse : Type 0 where
  pub ok : Bool
  pub active_peers : ℕ
  pub active_sessions : ℕ
  pub node_id : String

-- `PurgeResponse` and `CloseRoomsBySfuResponse`, with the same fields
pub record ClosedResponse : Type 0 where
  pub ok : Bool
  pub rooms_closed : ℕ

module _ ⦃v : Services⦄ where
  unfoldable pub ping : Quiet PingResponse
  ping = gets λ n. record {
    ok = true;
    active_peers = peer_count n.peers;
    active_sessions = count n.sessions;
    node_id = public_node_id n.config;
  }

  -- `snapshot_rooms().len() as u32`
  unfoldable pub rooms_held : Node → ℕ
  rooms_held n = length (snapshot_rooms n.peers) % 2 ^ 32

  -- The answer, and the task that is spawned; the reason is only logged.
  unfoldable pub purge : String → Quiet (ClosedResponse × Quiet (Unit {0}))
  purge reason = do
    rooms_closed ← gets rooms_held
    pure (record { ok = true; rooms_closed = rooms_closed }, run_purge "redis")

  unfoldable pub close_rooms_by_sfu : String → String → Quiet (ClosedResponse × Quiet (Unit {0}))
  close_rooms_by_sfu sfu_grpc_addr reason = do
    rooms_closed ← gets rooms_held
    pure (
      record { ok = true; rooms_closed = rooms_closed },
      close_rooms_due_to_sfu_addr sfu_grpc_addr reason,
    )
