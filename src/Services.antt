-- ===== src/Services.antt =====
-- What the program calls and does not implement: the Redis server and the connection to it, the
-- gRPC services of the SFU and of the signaling nodes, the channels of tokio, the WebSocket, the
-- clock, UUIDs, tokens and JSON. All of it is one record, the parameter of every handler. The state
-- of that outside world is `Ext`; each call may change it and may fail.
use callifornia.Exec.{Result}
use callifornia.Message.{ServerMessage, Claims}
use callifornia.Numerals.{ℤ}
use callifornia.Prelude.{ℕ, String, List, Option, Bool}

-- Why a Redis operation or a write to the socket did not return: its timeout, or an error.
pub data Fault : Type 0 where
  timeout failure : Fault

-- The codes of a `tonic::Status` that the client looks at, and all others.
pub data Code : Type 0 where
  unavailable cancelled deadline_exceeded other : Code

pub data RpcFault : Type 0 where
  status : Code → RpcFault
  timed_out : RpcFault

-- The requests of the SFU's service, common/proto/signaling.proto.
pub data SfuRequest : Type 0 where
  create_peer : (room_id participant_id signaling_id : String) → SfuRequest
  delete_peer : (room_id participant_id reason : String) → SfuRequest
  handle_sdp : (room_id participant_id sdp : String) (type : ℕ) → SfuRequest
  add_ice_candidate : (room_id participant_id candidate sdp_mid : String) → SfuRequest

pub record SfuResponse : Type 0 where
  pub success : Bool
  pub error_message : Option String
  pub sdp : String
  pub type : ℕ

-- `SfuInstance` of common/control_store/src/models.rs, stored as JSON.
pub record SfuInstance : Type 0 where
  pub instance_id : String
  pub grpc_addr : String
  pub max_rooms : ℕ
  pub alive : Bool
  pub state : String
  pub last_ping_unix : ℤ
  pub idle_since_unix : ℤ

-- The loads are counts that the program keeps as `f64` scores; they are natural numbers here.
pub record Services : Type 1 where
  pub Ext : Type 0
  pub Db : Type 0
  pub Sender : Type 0
  -- The commands of Redis, as the server runs them on its data.
  pub hgetall : String → Db → List (String × String)
  pub hset : String → String → String → Db → Db
  pub del : String → Db → ℕ × Db
  pub exists : String → Db → Bool
  pub get : String → Db → Option String
  pub set_nx : String → String → Db → Bool × Db
  -- `SET key value NX` with `EX seconds` or `PX milliseconds`.
  pub set_nx_ex : String → String → ℕ → Db → Bool × Db
  pub set_nx_px : String → String → ℕ → Db → Bool × Db
  -- A key whose time to live is not positive is deleted.
  pub expire : String → ℤ → Db → Bool × Db
  pub sismember : String → String → Db → Bool
  pub sadd : String → String → Db → Db
  pub srem : String → String → Db → ℕ × Db
  pub smembers : String → Db → List String
  pub scard : String → Db → ℕ
  pub zscore : String → String → Db → Option ℕ
  pub zadd : String → String → ℕ → Db → Db
  pub zincr : String → String → ℕ → Db → Db
  pub zrem : String → String → Db → Db
  pub zrange : String → Db → List String
  pub zremrangebyscore : String → ℤ → Db → Db
  pub hdel : String → String → Db → Db
  -- `SCAN cursor MATCH pattern COUNT 200`: the next cursor, and keys that match.
  pub scan_keys : ℕ → String → Db → ℕ × List String
  -- The rounds of `SCAN` that fit in the timeout of one operation.
  pub scan_rounds : ℕ
  pub zrange_withscores : String → Db → List (String × ℕ)
  pub zrangebyscore : String → ℤ → Db → List String
  -- One command or script sent to the server, within the timeout of an operation.
  pub deliver : (A : Type 0) → (Db → A × Db) → Ext → Result Fault A × Ext
  pub ping : Ext → Bool × Ext
  pub unix_now : Ext → ℕ × Ext
  pub new_uuid : Ext → String × Ext
  pub is_uuid : String → Bool
  pub socket_send : ServerMessage → Ext → Result Fault (Unit {0}) × Ext
  pub socket_ping : Ext → Result Fault (Unit {0}) × Ext
  pub try_send : Sender → ServerMessage → Ext → Bool × Ext
  pub connect_sfu : String → Ext → Bool × Ext
  pub call_sfu : String → SfuRequest → Ext → Result RpcFault SfuResponse × Ext
  -- The calls of the supervisor, by address; whether they answered in time and without an error.
  pub ping_signaling_admin : String → Ext → Bool × Ext
  pub close_rooms_by_sfu : String → (sfu_grpc_addr reason : String) → Ext → Bool × Ext
  pub purge_signaling : String → (reason : String) → Ext → Bool × Ext
  pub ping_sfu : String → Ext → Bool × Ext
  -- `jsonwebtoken::decode` with the secret: the claims, if the signature and the expiry are good.
  pub decode_token : String → String → Ext → Option Claims × Ext
  pub encode_token : String → Claims → Ext → Option String × Ext
  -- `serde_json`, which takes no payload that lacks a field.
  pub parse_instance : String → Option SfuInstance
  pub print_instance : SfuInstance → String
  -- `cjson.decode` in a script, with the defaults of its `or`: a number that the payload lacks is 0.
  -- None if the script fails on the payload.
  pub decode_instance : String → Option SfuInstance
  pub encode_instance : SfuInstance → String
  -- A payload of JSON with its field `idle_since_unix` set; `none` if it is no JSON.
  pub set_idle_since : ℤ → String → Option String
