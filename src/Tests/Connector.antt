-- ===== src/Tests/Connector.antt =====
-- The theorems about the connector, with one signaling node that is alive.
use callifornia.Connector.Config.{Config, SignalingInstance, signaling_by_id, find_by_id}
use callifornia.Connector.Freshness.{heartbeat-freshness}
use callifornia.Connector.Freshness.Create.{IsFresh, create-IsFresh}
use callifornia.Connector.Handlers.{
  auth, create, join, session_renew, check_supervisor_freshness, choose, load_of,
}
use callifornia.Connector.Lease.{HasLease}
use callifornia.Connector.Lease.Renew.{session_renew-HasLease}
use callifornia.Connector.Lease.Reserve.{IsTaken, auth-IsTaken}
use callifornia.Connector.Message.{SignalingReadyResponse, AuthResponse}
use callifornia.Connector.Nodes.{choose-IsChoice}
use callifornia.Connector.Routes.{values, bind_room-routes}
use callifornia.Connector.Tokens.{IsAdmitted, create-IsAdmitted, join-IsAdmitted}
use callifornia.ControlStore.Heartbeat.{
  write_supervisor_heartbeat, read_supervisor_status, to_status, read_unix, non_empty,
}
use callifornia.ControlStore.Select.Least.{IsChoice}
use callifornia.Exec.{ok, ◌>>=◌, pure, raise, or_raise, total, guard, map_err, attempt, ignore}
use callifornia.Map.{contains, lookup, insert}
use callifornia.Numerals.{
  as_i64, minus, ltz, parse_i64, read_signed, read_number, read_digits, print_u64, print_digits,
  digit, print_u16,
}
use callifornia.Connector.Redis
use callifornia.Signaling.Redis as Assigned
use callifornia.ControlStore.Rooms.{to_binding}
use callifornia.Connector.Handlers
use callifornia.Connector.Message
use callifornia.Connector.Token.{issue_token}
use callifornia.Connector.Errors.{map_redis_error}
use callifornia.ControlStore.Select.{min_by, min_from}
use callifornia.ControlStore
use callifornia.Commands.{send}
use callifornia.Text
use callifornia.Texts
use callifornia.Prelude.{String, [], ◌∷◌, none, some, true, ◌≡◌, refl, arith}
use callifornia.Tests.Laws.{toy_laws, toy_clock}
use callifornia.Tests.Tokens.{toy-Decodes}
use callifornia.Tests.World.{toy, Ext, instance_a}

abbrev node : SignalingInstance
node = record { id = "node:8080"; ws_url = "ws://node:8080/ws" }

abbrev config : Config
config = record {
  connector_addr = "";
  redis_url = "";
  redis_connect_timeout_ms = 2000;
  redis_op_timeout_ms = 800;
  token_secret = "secret";
  token_ttl_ms = 120_000;
  session_ttl = 600;
  signaling_stale_timeout = 30;
  supervisor_stale_sec = 30;
  signaling_instances = node ∷ [];
  cors_allowed_origins = [];
}

abbrev outside : Ext
outside = record {
  db = record {
    hashes =
        ("supervisor:heartbeat", ("last_seen_unix", "95") ∷ [])
        ∷ ("signaling:session:s1", ("nickname", "ann") ∷ [])
        ∷ ("room:r1:binding", ("owner_host", "node") ∷ ("owner_port", "8080") ∷ [])
        ∷ [];
    sets = [];
    strings = ("signaling:nick:ann", "s1") ∷ [];
    scores = ("signaling:nodes", ("node:8080", 99) ∷ []) ∷ [];
  };
  clock = 100;
  reachable = true;
}

-- With its clock at 100, for which there is a token.
abbrev reply_of : String → SignalingReadyResponse
reply_of token = record { signaling_url = "ws://node:8080/ws"; session_id = "s1"; token = token }

-- The last second of the token.
abbrev late : Ext
late = record outside { clock = 220 }

create-IsAdmitted_example : IsAdmitted config "s1" "create" none (reply_of "t1") late
unfolding Handlers.create ◌>>=◌ pure raise or_raise total guard map_err attempt ignore
    Redis.session_key Redis.nick_key Redis.room_binding_key Redis.command Redis.query Redis.write
    Redis.session_get Redis.nick_owner_get Redis.session_refresh_ttl Redis.get_room_route
    Redis.to_route Redis.reserve_nickname Redis.session_create Redis.release_nick_lease
    Redis.load_signaling_loads Redis.alive_signaling_nodes Redis.get_supervisor_status send
    ControlStore.query ControlStore.write read_supervisor_status to_status read_unix non_empty
    parse_i64 read_signed read_number read_digits lookup insert contains Message.validate_auth
    Message.validate_nickname Message.validate_session_id Message.validate_room_id
    Message.validate_join Message.is_allowed Handlers.validated Handlers.check_supervisor_freshness
    Handlers.is_older as_i64 minus ltz Handlers.choose Handlers.select_least_loaded_signaling
    Handlers.issue_signaling_token issue_token Handlers.known_session Handlers.ready Handlers.settle
    map_redis_error signaling_by_id find_by_id min_by min_from
create-IsAdmitted_example =
    create-IsAdmitted toy_clock config (record { session_id = "s1" }) outside late (reply_of "t1")
      refl (toy-Decodes late) (omega arith)

join-IsAdmitted_example : IsAdmitted config "s1" "join" (some "r1") (reply_of "t2") late
unfolding Handlers.join ◌>>=◌ pure raise or_raise total guard map_err attempt ignore
    Redis.session_key Redis.nick_key Redis.room_binding_key Redis.command Redis.query Redis.write
    Redis.session_get Redis.nick_owner_get Redis.session_refresh_ttl Redis.get_room_route
    Redis.to_route Redis.reserve_nickname Redis.session_create Redis.release_nick_lease
    Redis.load_signaling_loads Redis.alive_signaling_nodes Redis.get_supervisor_status send
    ControlStore.query ControlStore.write read_supervisor_status to_status read_unix non_empty
    parse_i64 read_signed read_number read_digits lookup insert contains Message.validate_auth
    Message.validate_nickname Message.validate_session_id Message.validate_room_id
    Message.validate_join Message.is_allowed Handlers.validated Handlers.check_supervisor_freshness
    Handlers.is_older as_i64 minus ltz Handlers.choose Handlers.select_least_loaded_signaling
    Handlers.issue_signaling_token issue_token Handlers.known_session Handlers.ready Handlers.settle
    map_redis_error signaling_by_id find_by_id min_by min_from
join-IsAdmitted_example =
    join-IsAdmitted toy_clock config (record { session_id = "s1"; room_id = "r1" }) outside late
      (reply_of "t2") refl (toy-Decodes late) (omega arith)

create-IsFresh_example : IsFresh 30 100 (toy_laws.db outside)
unfolding Handlers.create ◌>>=◌ pure raise or_raise total guard map_err attempt ignore
    Redis.session_key Redis.nick_key Redis.room_binding_key Redis.command Redis.query Redis.write
    Redis.session_get Redis.nick_owner_get Redis.session_refresh_ttl Redis.get_room_route
    Redis.to_route Redis.reserve_nickname Redis.session_create Redis.release_nick_lease
    Redis.load_signaling_loads Redis.alive_signaling_nodes Redis.get_supervisor_status send
    ControlStore.query ControlStore.write read_supervisor_status to_status read_unix non_empty
    parse_i64 read_signed read_number read_digits lookup insert contains Message.validate_auth
    Message.validate_nickname Message.validate_session_id Message.validate_room_id
    Message.validate_join Message.is_allowed Handlers.validated Handlers.check_supervisor_freshness
    Handlers.is_older as_i64 minus ltz Handlers.choose Handlers.select_least_loaded_signaling
    Handlers.issue_signaling_token issue_token Handlers.known_session Handlers.ready Handlers.settle
    map_redis_error signaling_by_id find_by_id min_by min_from
create-IsFresh_example =
    create-IsFresh toy_laws toy_clock config (record { session_id = "s1" }) outside (reply_of "t1")
      (omega arith) refl

session_renew-HasLease_example : (nickname : String) × HasLease nickname "s1" (toy_laws.db outside)
unfolding Handlers.session_renew ◌>>=◌ pure raise or_raise total guard map_err attempt ignore
    Redis.session_key Redis.nick_key Redis.room_binding_key Redis.command Redis.query Redis.write
    Redis.session_get Redis.nick_owner_get Redis.session_refresh_ttl Redis.get_room_route
    Redis.to_route Redis.reserve_nickname Redis.session_create Redis.release_nick_lease
    Redis.load_signaling_loads Redis.alive_signaling_nodes Redis.get_supervisor_status send
    ControlStore.query ControlStore.write read_supervisor_status to_status read_unix non_empty
    parse_i64 read_signed read_number read_digits lookup insert contains Message.validate_auth
    Message.validate_nickname Message.validate_session_id Message.validate_room_id
    Message.validate_join Message.is_allowed Handlers.validated Handlers.check_supervisor_freshness
    Handlers.is_older as_i64 minus ltz Handlers.choose Handlers.select_least_loaded_signaling
    Handlers.issue_signaling_token issue_token Handlers.known_session Handlers.ready Handlers.settle
    map_redis_error signaling_by_id find_by_id min_by min_from
session_renew-HasLease_example =
    session_renew-HasLease toy_laws config (record { session_id = "s1" }) outside refl

abbrev bob : AuthResponse
bob = record { nickname = "bob"; session_id = "r1" }

auth-IsTaken_example :
    IsTaken toy_laws
      (toy_laws.db outside)
      config
      (record { nickname = " bob " })
      bob
      (toy_laws.db (auth config (record { nickname = " bob " }) outside).1)
unfolding Handlers.auth ◌>>=◌ pure raise or_raise total guard map_err attempt ignore
    Redis.session_key Redis.nick_key Redis.room_binding_key Redis.command Redis.query Redis.write
    Redis.session_get Redis.nick_owner_get Redis.session_refresh_ttl Redis.get_room_route
    Redis.to_route Redis.reserve_nickname Redis.session_create Redis.release_nick_lease
    Redis.load_signaling_loads Redis.alive_signaling_nodes Redis.get_supervisor_status send
    ControlStore.query ControlStore.write read_supervisor_status to_status read_unix non_empty
    parse_i64 read_signed read_number read_digits lookup insert contains Message.validate_auth
    Message.validate_nickname Message.validate_session_id Message.validate_room_id
    Message.validate_join Message.is_allowed Handlers.validated Handlers.check_supervisor_freshness
    Handlers.is_older as_i64 minus ltz Handlers.choose Handlers.select_least_loaded_signaling
    Handlers.issue_signaling_token issue_token Handlers.known_session Handlers.ready Handlers.settle
    map_redis_error signaling_by_id find_by_id min_by min_from Text.is_whitespace
    Text.is_ascii_alphanumeric Text.all Text.trim Text.trim_start Text.trim_end Texts.trim
    Texts.trim_start Texts.trim_end
auth-IsTaken_example =
    auth-IsTaken toy_laws config (record { nickname = " bob " }) outside bob (omega arith)
      (omega arith) refl

heartbeat-freshness_example :
    (check_supervisor_freshness config (write_supervisor_heartbeat (some "sup") 80 outside).1).0
    ≡ ok tt
unfolding write_supervisor_heartbeat print_u64 print_digits digit ◌>>=◌ pure raise or_raise total
    guard map_err attempt ignore send ControlStore.query ControlStore.write read_supervisor_status
    to_status read_unix non_empty parse_i64 read_signed read_number read_digits lookup insert
    contains
heartbeat-freshness_example =
    heartbeat-freshness toy_laws config (some "sup") 80 outside
      (write_supervisor_heartbeat (some "sup") 80 outside).1
      (write_supervisor_heartbeat (some "sup") 80 outside).1 _ (omega arith) (omega arith) refl refl
      refl

choose-IsChoice_example :
    IsChoice
      (load_of (("node:8080", 3) ∷ []))
      (λ inst. contains inst.id ("node:8080" ∷ []))
      (node ∷ [])
      (choose (("node:8080", 3) ∷ []) ("node:8080" ∷ []) (node ∷ []))
choose-IsChoice_example = choose-IsChoice (("node:8080", 3) ∷ []) ("node:8080" ∷ []) (node ∷ [])

bind_room-routes_example :
    (Assigned.to_route (values toy_laws "r2" "node" "node:8080" 8080 instance_a outside.db) outside
      ≡ (
        ok (record {
          owner_host = "node";
          owner_port = 8080;
          room_state = "active";
          sfu_grpc_addr = some "http://sfu:50051";
        }),
        outside,
      ))
    × (Redis.to_route (values toy_laws "r2" "node" "node:8080" 8080 instance_a outside.db) outside
        ≡ (ok (record { signaling_instance_id = "node:8080" }), outside))
    × (to_binding "r2" (values toy_laws "r2" "node" "node:8080" 8080 instance_a outside.db)
        ≡ some (record {
          room_id = "r2";
          owner_id = "node:8080";
          owner_host = "node";
          owner_port = 8080;
          state = "active";
          sfu_instance_id = some "sfu-1";
          sfu_grpc_addr = some "http://sfu:50051";
        }))
unfolding non_empty print_u16 print_digits digit
bind_room-routes_example =
    bind_room-routes toy_laws "r2" "node" "node:8080" 8080 instance_a outside.db refl (omega arith)
      outside
