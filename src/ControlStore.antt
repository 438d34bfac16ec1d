-- ===== src/ControlStore.antt =====
-- common/control_store/src: what the services keep in Redis together. Here are the keys (keys.rs),
-- the data (models.rs) and the way an operation of storage.rs sends its commands.
pub mod Heartbeat
pub mod Scan
pub mod Cleanup
pub mod Rooms
pub mod Instances
pub mod Select
pub mod Distinct
use callifornia.Commands.{send}
use callifornia.Exec.{Result, Action}
use callifornia.Numerals.{ℤ}
use callifornia.Prelude.{ℕ, String, Option}
use callifornia.Services.{Services, Fault}
use Prim.Native.String.{◌++◌}

abbrev pub signaling_nodes_key : String
signaling_nodes_key = "signaling:nodes"

abbrev pub signaling_instance_load_key : String
signaling_instance_load_key = "signaling:instance_load"

abbrev pub signaling_session_prefix : String
signaling_session_prefix = "signaling:session:"

abbrev pub signaling_nick_prefix : String
signaling_nick_prefix = "signaling:nick:"

abbrev pub signaling_room_prefix : String
signaling_room_prefix = "signaling:room:"

abbrev pub room_binding_prefix : String
room_binding_prefix = "room:"

abbrev pub sfu_instances_key : String
sfu_instances_key = "sfu:instances"

abbrev pub sfu_room_load_key : String
sfu_room_load_key = "sfu:room_load"

abbrev pub supervisor_heartbeat_key : String
supervisor_heartbeat_key = "supervisor:heartbeat"

unfoldable pub session_key : String → String
session_key session_id = signaling_session_prefix ++ session_id

unfoldable pub session_lock_key : String → String
session_lock_key session_id = signaling_session_prefix ++ (session_id ++ ":lock")

unfoldable pub nick_key : String → String
nick_key nickname = signaling_nick_prefix ++ nickname

unfoldable pub room_members_key : String → String
room_members_key room_id = signaling_room_prefix ++ (room_id ++ ":members")

unfoldable pub room_binding_key : String → String
room_binding_key room_id = room_binding_prefix ++ (room_id ++ ":binding")

pub record SfuCandidate : Type 0 where
  pub instance_id : String
  pub grpc_addr : String
  pub max_rooms : ℕ

pub record RoomBinding : Type 0 where
  pub room_id : String
  pub owner_id : String
  pub owner_host : String
  pub owner_port : ℕ
  pub state : String
  pub sfu_instance_id : Option String
  pub sfu_grpc_addr : Option String

pub record SupervisorStatus : Type 0 where
  pub last_seen_unix : ℤ
  pub instance_id : Option String

-- The errors that `anyhow` carries: of Redis, of the JSON, and of an instance that is missing.
pub data StoreError : Type 0 where
  redis : Fault → StoreError
  bad_json missing_instance : StoreError

module _ ⦃v : Services⦄ where
  abbrev pub Store : Type 0 → Type 0
  Store A = Action v.Ext StoreError A

  unfoldable pub write : (v.Db → v.Db) → Store (Unit {0})
  unfolding send
  write f = send redis (λ d. (tt, f d))

module _ ⦃v : Services⦄ {A : Type 0} where
  unfoldable pub query : (v.Db → A) → Store A
  unfolding send
  query f = send redis (λ d. (f d, d))
