-- ===== src/Connector/Config.antt =====
-- services/connector/src/config.rs: the configuration, read from the environment. Durations in
-- milliseconds and seconds are numbers of them.
use callifornia.Environment.{ConfigError, invalid_entry, collect, read_u64, ◌>>=◌}
use callifornia.Exec.{Result, ok, err}
use callifornia.Prelude.{
  ℕ, String, List, [], ◌∷◌, Option, none, some, not, ◌==◌, get_or, filter, map, if◌then◌else◌,
}
use callifornia.Texts.{split, split_once, trim, is_blank}

pub record SignalingInstance : Type 0 where
  pub id : String
  pub ws_url : String

pub record Config : Type 0 where
  pub connector_addr : String
  pub redis_url : String
  pub redis_connect_timeout_ms : ℕ
  pub redis_op_timeout_ms : ℕ
  pub token_secret : String
  pub token_ttl_ms : ℕ
  pub session_ttl : ℕ
  pub signaling_stale_timeout : ℕ
  pub supervisor_stale_sec : ℕ
  pub signaling_instances : List SignalingInstance
  pub cors_allowed_origins : List String

-- `self.signaling_instances.iter().find(|instance| instance.id == id)`
unfoldable pub find_by_id : String → List SignalingInstance → Option SignalingInstance
find_by_id id [] = none
find_by_id id (inst ∷ rest) = if inst.id == id then some inst else find_by_id id rest

unfoldable pub signaling_by_id : Config → String → Option SignalingInstance
unfolding find_by_id
signaling_by_id config id = find_by_id id config.signaling_instances

abbrev pub to_instance : String → Option (String × String) → Result ConfigError SignalingInstance
to_instance entry none = err (invalid_entry entry)
to_instance entry (some (id, ws_url)) = ok (record { id = id; ws_url = ws_url })

unfoldable pub parse_entry : String → Result ConfigError SignalingInstance
unfolding split_once
parse_entry entry = to_instance entry (split_once b'|' entry)

unfoldable pub parse_signaling_instances : String → Result ConfigError (List SignalingInstance)
unfolding split parse_entry collect
parse_signaling_instances value =
    collect parse_entry (filter (λ entry. not (is_blank entry)) (split b',' value))

-- `env::var(key).ok()` is the parameter.
module _ (env : String → Option String) where
  unfoldable pub get_env_or : String → String → String
  get_env_or key default = get_or (env key) default

  unfoldable pub parse_csv_list_env : String → List String
  unfolding split trim
  parse_csv_list_env key =
      filter (λ value. not (value == "")) (map trim (split b',' (get_or (env key) "")))

  unfoldable pub u64_env_or : String → ℕ → Result ConfigError ℕ
  unfolding read_u64
  u64_env_or key default = read_u64 key default (env key)

  unfoldable pub from_env : Result ConfigError Config
  unfolding get_env_or u64_env_or parse_signaling_instances parse_csv_list_env
  from_env = do
    connect_timeout ← u64_env_or "REDIS_CONNECT_TIMEOUT_MS" 2_000
    op_timeout ← u64_env_or "REDIS_OP_TIMEOUT_MS" 800
    token_ttl ← u64_env_or "CONNECTOR_TOKEN_TTL_MS" 120_000
    session_ttl ← u64_env_or "SESSION_TTL_SEC" 600
    signaling_stale ← u64_env_or "SIGNALING_STALE_SEC" 30
    supervisor_stale ← u64_env_or "SUPERVISOR_STALE_SEC" 30
    instances ←
        parse_signaling_instances
          (get_env_or "SIGNALING_INSTANCES" "127.0.0.1:8080|ws://127.0.0.1:8080/ws")
    ok (record {
      connector_addr = get_env_or "CONNECTOR_ADDR" "0.0.0.0:8090";
      redis_url = get_env_or "REDIS_URL" "redis://redis:6379/";
      redis_connect_timeout_ms = connect_timeout;
      redis_op_timeout_ms = op_timeout;
      token_secret = get_env_or "CONNECTOR_TOKEN_SECRET" "dev-connector-token-secret";
      token_ttl_ms = token_ttl;
      session_ttl = session_ttl;
      signaling_stale_timeout = signaling_stale;
      supervisor_stale_sec = supervisor_stale;
      signaling_instances = instances;
      cors_allowed_origins = parse_csv_list_env "CONNECTOR_CORS_ALLOWED_ORIGINS";
    })
