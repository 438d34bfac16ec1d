-- ===== src/Supervisor/Config.antt =====
-- services/supervisor/src/config.rs: the configuration. A random instance id is a parameter.
use callifornia.Environment.{ConfigError, invalid_entry, collect, read_u64, ◌>>=◌}
use callifornia.Exec.{Result, ok, err}
use callifornia.Numerals.{parse_u32}
use callifornia.Prelude.{
  ℕ, String, List, [], ◌∷◌, Option, none, some, not, ◌||◌, ◌==◌, get_or, filter, if◌then◌else◌,
}
use callifornia.Texts.{split, split_once, trim, is_blank}

pub record SignalingAdminInstance : Type 0 where
  pub node_id : String
  pub grpc_addr : String

pub record SfuInventoryInstance : Type 0 where
  pub instance_id : String
  pub grpc_addr : String
  pub max_rooms : ℕ

-- The durations are in milliseconds, but for the two in seconds.
pub record Config : Type 0 where
  pub redis_url : String
  pub redis_connect_timeout_ms : ℕ
  pub redis_op_timeout_ms : ℕ
  pub rpc_connect_timeout_ms : ℕ
  pub signaling_admin_instances : List SignalingAdminInstance
  pub sfu_instances : List SfuInventoryInstance
  pub probe_interval_ms : ℕ
  pub probe_timeout_ms : ℕ
  pub signaling_stale_timeout : ℕ
  pub janitor_interval : ℕ
  pub sfu_connect_timeout_ms : ℕ
  pub instance_id : String

abbrev pub to_admin : String → Option (String × String) → Result ConfigError SignalingAdminInstance
to_admin entry none = err (invalid_entry entry)
to_admin entry (some (node_id, grpc_addr)) =
    ok (record { node_id = trim node_id; grpc_addr = trim grpc_addr })

unfoldable pub parse_admin_entry : String → Result ConfigError SignalingAdminInstance
unfolding split_once trim
parse_admin_entry entry = to_admin entry (split_once b'|' entry)

unfoldable pub parse_signaling_admin_instances :
    String → Result ConfigError (List SignalingAdminInstance)
unfolding split parse_admin_entry collect
parse_signaling_admin_instances value =
    if is_blank value
    then ok []
    else collect parse_admin_entry (filter (λ entry. not (is_blank entry)) (split b',' value))

abbrev pub with_max_rooms :
    String → String → String → Option ℕ → Result ConfigError SfuInventoryInstance
with_max_rooms entry instance_id grpc_addr none = err (invalid_entry entry)
with_max_rooms entry instance_id grpc_addr (some max_rooms) =
    ok
      (record { instance_id = trim instance_id; grpc_addr = trim grpc_addr; max_rooms = max_rooms })

-- The parts between `|`: the first two are not empty, and what comes after the third is not read.
unfoldable pub read_parts : String → List String → Result ConfigError SfuInventoryInstance
unfolding trim parse_u32
read_parts entry (instance_id ∷ grpc_addr ∷ max_rooms ∷ _) =
    if instance_id == "" || grpc_addr == ""
    then err (invalid_entry entry)
    else with_max_rooms entry instance_id grpc_addr (parse_u32 max_rooms)
read_parts entry _ = err (invalid_entry entry)

unfoldable pub parse_sfu_entry : String → Result ConfigError SfuInventoryInstance
unfolding read_parts split
parse_sfu_entry entry = read_parts entry (split b'|' entry)

unfoldable pub parse_sfu_instances : String → Result ConfigError (List SfuInventoryInstance)
unfolding split parse_sfu_entry collect
parse_sfu_instances value =
    if is_blank value
    then ok []
    else collect parse_sfu_entry (filter (λ entry. not (is_blank entry)) (split b';' value))

-- `env::var(key).ok()`, and `Uuid::new_v4()`.
module _ (env : String → Option String) (uuid : String) where
  unfoldable pub env_or : String → String → String
  env_or key default = get_or (env key) default

  unfoldable pub u64_env_or : String → ℕ → Result ConfigError ℕ
  unfolding read_u64
  u64_env_or key default = read_u64 key default (env key)

  unfoldable pub from_env : Result ConfigError Config
  unfolding u64_env_or env_or parse_signaling_admin_instances parse_sfu_instances
  from_env = do
    connect_timeout ← u64_env_or "REDIS_CONNECT_TIMEOUT_MS" 2_000
    op_timeout ← u64_env_or "REDIS_OP_TIMEOUT_MS" 800
    rpc_timeout ← u64_env_or "RPC_CONNECT_TIMEOUT_MS" 2_000
    admins ← parse_signaling_admin_instances (env_or "SIGNALING_ADMIN_INSTANCES" "")
    sfus ← parse_sfu_instances (env_or "SUPERVISOR_SFU_INSTANCES" "")
    probe_interval ← u64_env_or "SUPERVISOR_PROBE_INTERVAL_MS" 2_000
    probe_timeout ← u64_env_or "SUPERVISOR_PROBE_TIMEOUT_MS" 1_000
    stale ← u64_env_or "SIGNALING_STALE_SEC" 30
    janitor ← u64_env_or "JANITOR_INTERVAL_SEC" 5
    sfu_timeout ← u64_env_or "SFU_CONNECT_TIMEOUT_MS" 2_000
    ok (record {
      redis_url = env_or "REDIS_URL" "redis://redis:6379/";
      redis_connect_timeout_ms = connect_timeout;
      redis_op_timeout_ms = op_timeout;
      rpc_connect_timeout_ms = rpc_timeout;
      signaling_admin_instances = admins;
      sfu_instances = sfus;
      probe_interval_ms = probe_interval;
      probe_timeout_ms = probe_timeout;
      signaling_stale_timeout = stale;
      janitor_interval = janitor;
      sfu_connect_timeout_ms = sfu_timeout;
      instance_id = env_or "SUPERVISOR_INSTANCE_ID" uuid;
    })
