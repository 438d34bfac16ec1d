-- ===== src/Signaling/Node.antt =====
-- services/signaling/src/state.rs, the record `State` of a signaling node, with the record of
-- services/signaling/src/config.rs and the state of the SFU registry (services/signaling/src/sfu.rs). Locks are held for one operation at a time, so that the node is one value.
use callifornia.Exec.{Action, zoom}
use callifornia.Map.{Map}
use callifornia.Numerals.{print_u16}
use callifornia.Prelude.{ℕ, String, List, Bool}
use callifornia.Services.{Services}
use callifornia.Signaling.Peers.{RoomPeers}
use callifornia.Signaling.Sessions.{SessionStore}
use Prim.Native.String.{◌++◌}

-- Durations are in the unit of the variable that they are read from: the session's in seconds, all
-- others in milliseconds.
pub record Config : Type 0 where
  pub signaling_addr : String
  pub signaling_public_host : String
  pub signaling_public_port : ℕ
  pub admin_grpc_addr : String
  pub redis_url : String
  pub connector_token_secret : String
  pub redis_connect_timeout : ℕ
  pub rpc_connect_timeout : ℕ
  pub ws_read_timeout : ℕ
  pub ws_write_timeout : ℕ
  pub redis_op_timeout : ℕ
  pub sfu_rpc_timeout : ℕ
  pub sfu_backoff_min : ℕ
  pub sfu_backoff_max : ℕ
  pub peer_outbound_capacity : ℕ
  pub session_lock_ttl : ℕ
  pub session_ttl : ℕ
  pub session_renew_interval : ℕ

unfoldable pub public_node_id : Config → String
public_node_id config =
    config.signaling_public_host ++ (":" ++ print_u16 config.signaling_public_port)

-- `sfu::Registry`: the open channels, the event listeners, and two maps under `sdp_peer_key`.
pub record Registry : Type 0 where
  pub clients : List String
  pub listeners : List String
  pub sdp_peer_locks : List String
  pub last_offer_ice_ufrag : Map (List ℕ)

module _ ⦃v : Services⦄ where
  pub record Node : Type 0 where
    pub ext : v.Ext
    pub config : Config
    pub peers : RoomPeers
    pub sessions : SessionStore
    pub sfu : Registry
    pub purging : Bool

module _ ⦃v : Services⦄ {E A : Type 0} where
  -- An action on the outside world, as an action of the node.
  unfoldable pub on_ext : Action v.Ext E A → Action Node E A
  on_ext m = zoom (λ n. n.ext) (λ x n. record n { ext = x }) m
