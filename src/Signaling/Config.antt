-- ===== src/Signaling/Config.antt =====
-- services/signaling/src/config.rs: the configuration of a node, read from the environment.
use callifornia.Environment.{ConfigError, invalid_integer, read_u64, ◌>>=◌}
use callifornia.Exec.{Result, ok, err}
use callifornia.Numerals.{parse_u16}
use callifornia.Prelude.{ℕ, String, Option, none, some, get_or}
use callifornia.Signaling.Node.{Config}

unfoldable pub read_u16 : String → ℕ → Option String → Result ConfigError ℕ
unfolding parse_u16
read_u16 key default none = ok default
read_u16 key default (some value) = elim (parse_u16 value) [
  | none ↦ err (invalid_integer key)
  | some n ↦ ok n
]

-- `env::var(key).ok()`, and what the standard library reads in a text that is a socket's address: the
-- text of its IP and its port.
module _ (env : String → Option String) (parse_addr : String → Option (String × ℕ)) where
  unfoldable pub get_env_or : String → String → String
  get_env_or key default = get_or (env key) default

  unfoldable pub u16_from_env_or : String → ℕ → Result ConfigError ℕ
  unfolding read_u16
  u16_from_env_or key default = read_u16 key default (env key)

  -- `duration_from_env` and `duration_from_secs_env`, and `usize_from_env_or` where a `usize` has 64
  -- bits.
  unfoldable pub u64_from_env : String → ℕ → Result ConfigError ℕ
  unfolding read_u64
  u64_from_env key default = read_u64 key default (env key)

  unfoldable pub port_from_addr : String → Option ℕ
  port_from_addr addr = elim (parse_addr addr) [ none ↦ none | some (_, port) ↦ some port ]

  unfoldable pub host_from_addr : String → Option String
  host_from_addr addr = elim (parse_addr addr) [ none ↦ none | some (ip, _) ↦ some ip ]

  unfoldable pub from_env : Result ConfigError Config
  unfolding get_env_or u16_from_env_or u64_from_env port_from_addr host_from_addr
  from_env = do
    let addr = get_env_or "SIGNALING_ADDR" "0.0.0.0:8080"
    public_port ← u16_from_env_or "SIGNALING_PUBLIC_PORT" (get_or (port_from_addr addr) 8080)
    redis_connect_timeout ← u64_from_env "REDIS_CONNECT_TIMEOUT_MS" 2_000
    rpc_connect_timeout ← u64_from_env "SFU_CONNECT_TIMEOUT_MS" 2_000
    ws_read_timeout ← u64_from_env "WS_READ_TIMEOUT_MS" 30_000
    ws_write_timeout ← u64_from_env "WS_WRITE_TIMEOUT_MS" 10_000
    redis_op_timeout ← u64_from_env "REDIS_OP_TIMEOUT_MS" 800
    sfu_rpc_timeout ← u64_from_env "SFU_RPC_TIMEOUT_MS" 5_000
    sfu_backoff_min ← u64_from_env "SFU_BACKOFF_MIN_MS" 1_000
    sfu_backoff_max ← u64_from_env "SFU_BACKOFF_MAX_MS" 30_000
    peer_outbound_capacity ← u64_from_env "PEER_OUTBOUND_CHANNEL_CAPACITY" 256
    session_lock_ttl ← u64_from_env "SESSION_LOCK_TTL_MS" 5_000
    session_ttl ← u64_from_env "SESSION_TTL_SEC" 600
    session_renew_interval ← u64_from_env "SESSION_RENEW_SEC" 60
    ok (record {
      signaling_addr = addr;
      signaling_public_host =
          get_env_or "SIGNALING_PUBLIC_HOST" (get_or (host_from_addr addr) "127.0.0.1");
      signaling_public_port = public_port;
      admin_grpc_addr = get_env_or "SIGNALING_ADMIN_GRPC_ADDR" "0.0.0.0:50071";
      redis_url = get_env_or "REDIS_URL" "redis://redis:6379/";
      connector_token_secret = get_env_or "CONNECTOR_TOKEN_SECRET" "dev-connector-token-secret";
      redis_connect_timeout = redis_connect_timeout;
      rpc_connect_timeout = rpc_connect_timeout;
      ws_read_timeout = ws_read_timeout;
      ws_write_timeout = ws_write_timeout;
      redis_op_timeout = redis_op_timeout;
      sfu_rpc_timeout = sfu_rpc_timeout;
      sfu_backoff_min = sfu_backoff_min;
      sfu_backoff_max = sfu_backoff_max;
      peer_outbound_capacity = peer_outbound_capacity;
      session_lock_ttl = session_lock_ttl;
      session_ttl = session_ttl;
      session_renew_interval = session_renew_interval;
    })
