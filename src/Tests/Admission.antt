-- ===== src/Tests/Admission.antt =====
-- The theorems about the admission to a room, at connections whose tokens allow to create one, and
-- to join one that is bound.
use callifornia.Exec.{
  pure, gets, or_raise, total, modify, ◌>>=◌, map_err, attempt, ignore, zoom, guard, when,
}
use callifornia.Map.{lookup, insert, remove, contains, add, discard}
use callifornia.Numerals.{print_u16, parse_u16}
use callifornia.Prelude.{[], ◌∷◌, some, true, ◌≡◌, refl, is_text, ◌&&◌}
use callifornia.Signaling.Admission.{handle_create-allowed, handle_join-allowed}
use callifornia.Signaling.Attach.{IsAttached, handle_attach-IsAttached}
use callifornia.Signaling.Auth.{validate_connector_token}
use callifornia.Signaling.Entry.{
  HasEntered, handle_create_locked-HasEntered, room_of-handle_join_locked,
}
use callifornia.Signaling.Node.{on_ext, public_node_id}
use callifornia.Signaling.Redis
use callifornia.Signaling.Redis.Assign
use callifornia.Signaling.Sessions.{room_of}
use callifornia.Signaling.Sfu
use callifornia.Signaling.State.{is_redis_available}
use callifornia.Signaling.Websocket.Context
use callifornia.Signaling.Websocket.Context.{Conn, default}
use callifornia.Signaling.Websocket.Handlers
use callifornia.Signaling.Websocket.Handlers.{handle_attach, handle_create, handle_join}
use callifornia.Signaling.Websocket.Rooms
use callifornia.Signaling.Websocket.Rooms.{handle_create_locked, handle_join_locked}
use callifornia.Signaling.Websocket.Rooms.Stale
use callifornia.Signaling.Peers
use callifornia.Signaling.State
use callifornia.Tests.Node.{config, node, outside}
use callifornia.Tests.World.{toy, Ext}

abbrev creator : Conn ⦃v = toy⦄
creator = record { node = node; context = record default { allowed_intent = some "create" } }

handle_create-allowed_example : is_text creator.context.allowed_intent "create" ≡ true
unfolding pure gets or_raise total modify ◌>>=◌ map_err attempt ignore zoom guard lookup insert
    remove contains add discard print_u16 on_ext public_node_id is_redis_available Redis.command
    Redis.query Redis.write Redis.acquire_session_lock Redis.release_session_lock
    Redis.compare_and_del Redis.session_lock_key Redis.session_key Redis.session_get
    Redis.to_session Redis.session_set_room Redis.join_room Redis.room_binding_key
    Redis.room_members_key Assign.assign_room_to_least_loaded_sfu Assign.assign_script Assign.scan
    Assign.is_eligible Assign.is_better Assign.load_of Assign.finish Assign.bind_room
    Assign.read_assignment Assign.or_fault Sfu.ensure_peer Sfu.run_rpc Sfu.channel_for
    Sfu.open_channel Sfu.read_reply Sfu.ensure_success Sfu.ensure_listener Sfu.edit
    Context.require_redis Context.quietly Context.on_node Context.on_redis Context.on_context
    Context.on_sessions Context.send_message Context.is_bound_elsewhere Context.named
    Context.check_session Handlers.with_session_lock Handlers.handle_create Handlers.settle
    Rooms.handle_create_locked Rooms.join_created Rooms.settle_join Rooms.ensure_peer_or
    Rooms.settle Rooms.enter_room Rooms.register_peer default
handle_create-allowed_example = handle_create-allowed 1 "s1" creator refl

abbrev bound : Ext
bound = record outside {
  db = record outside.db {
    hashes =
        (
          "room:r1:binding",
          ("owner_host", "node")
              ∷ ("owner_port", "8080")
              ∷ ("sfu_grpc_addr", "http://sfu:50051")
              ∷ [],
        )
        ∷ outside.db.hashes;
  };
}

abbrev joiner : Conn ⦃v = toy⦄
joiner = record {
  node = record node { ext = bound; peers = [] };
  context = record default { allowed_intent = some "join"; allowed_room_id = some "r1" };
}

handle_join-allowed_example :
    (is_text joiner.context.allowed_intent "join" && is_text joiner.context.allowed_room_id "r1")
    ≡ true
unfolding pure gets or_raise total modify ◌>>=◌ map_err attempt ignore zoom guard lookup insert
    remove contains add discard parse_u16 on_ext is_redis_available Redis.command Redis.query
    Redis.write Redis.acquire_session_lock Redis.release_session_lock Redis.compare_and_del
    Redis.session_lock_key Redis.session_key Redis.session_get Redis.to_session
    Redis.session_set_room Redis.join_room Redis.room_binding_key Redis.room_members_key
    Redis.get_room_route Redis.to_route Sfu.ensure_peer Sfu.run_rpc Sfu.channel_for Sfu.open_channel
    Sfu.read_reply Sfu.ensure_success Sfu.ensure_listener Sfu.edit Context.require_redis
    Context.quietly Context.on_node Context.on_redis Context.on_context Context.on_sessions
    Context.send_message Context.is_bound_elsewhere Context.named Context.check_session
    Context.is_local_target Handlers.with_session_lock Handlers.handle_join Handlers.settle
    Rooms.handle_join_locked Rooms.ensure_peer_or Rooms.settle Rooms.enter_room Rooms.register_peer
    State.broadcast_to_room Peers.broadcast_to_room Peers.register Stale.detach_stale_peers
    Stale.drain Stale.enough_fuel Stale.room_size default
handle_join-allowed_example = handle_join-allowed 1 "s1" "r1" joiner refl

handle_create_locked-HasEntered_example : HasEntered "s1" 1 (handle_create_locked 1 "s1" creator).1
unfolding pure gets or_raise total modify ◌>>=◌ map_err attempt ignore zoom guard lookup insert
    remove contains add discard print_u16 on_ext public_node_id is_redis_available Redis.command
    Redis.query Redis.write Redis.session_key Redis.session_get Redis.to_session
    Redis.session_set_room Redis.join_room Redis.room_binding_key Redis.room_members_key
    Assign.assign_room_to_least_loaded_sfu Assign.assign_script Assign.scan Assign.is_eligible
    Assign.is_better Assign.load_of Assign.finish Assign.bind_room Assign.read_assignment
    Assign.or_fault Sfu.ensure_peer Sfu.run_rpc Sfu.channel_for Sfu.open_channel Sfu.read_reply
    Sfu.ensure_success Sfu.ensure_listener Sfu.edit Context.require_redis Context.quietly
    Context.on_node Context.on_redis Context.on_context Context.on_sessions Context.send_message
    Context.is_bound_elsewhere Context.named Context.check_session Rooms.handle_create_locked
    Rooms.join_created Rooms.settle_join Rooms.ensure_peer_or Rooms.settle Rooms.enter_room
    Rooms.register_peer default
handle_create_locked-HasEntered_example = handle_create_locked-HasEntered 1 "s1" creator refl

room_of-handle_join_locked_example :
    room_of (handle_join_locked 1 "s1" "r1" joiner).1.node.sessions "s1" ≡ some "r1"
unfolding pure gets or_raise total modify ◌>>=◌ map_err attempt ignore zoom guard lookup insert
    remove contains add discard parse_u16 on_ext is_redis_available Redis.command Redis.query
    Redis.write Redis.session_key Redis.session_get Redis.to_session Redis.session_set_room
    Redis.join_room Redis.room_binding_key Redis.room_members_key Redis.get_room_route
    Redis.to_route Sfu.ensure_peer Sfu.run_rpc Sfu.channel_for Sfu.open_channel Sfu.read_reply
    Sfu.ensure_success Sfu.ensure_listener Sfu.edit Context.require_redis Context.quietly
    Context.on_node Context.on_redis Context.on_context Context.on_sessions Context.send_message
    Context.is_bound_elsewhere Context.named Context.check_session Context.is_local_target
    Rooms.handle_join_locked Rooms.ensure_peer_or Rooms.settle Rooms.enter_room Rooms.register_peer
    State.broadcast_to_room Peers.broadcast_to_room Peers.register Stale.detach_stale_peers
    Stale.drain Stale.enough_fuel Stale.room_size default
room_of-handle_join_locked_example = room_of-handle_join_locked 1 "s1" "r1" joiner refl

handle_attach-IsAttached_example : IsAttached config "t1" (handle_attach "t1" creator).1
unfolding handle_attach pure gets or_raise total modify ◌>>=◌ map_err when zoom guard lookup insert
    remove contains add discard print_u16 on_ext public_node_id is_redis_available
    validate_connector_token Redis.command Redis.query Redis.write Redis.session_key
    Redis.session_get Redis.to_session Redis.consume_jti Redis.session_set_owner
    Redis.increment_instance_load Context.require_redis Context.quietly Context.on_node
    Context.on_redis Context.on_context Context.on_sessions Context.send_message Handlers.read_token
    Handlers.consume_once Handlers.jti_ttl Handlers.with_nickname Handlers.bind_session default
handle_attach-IsAttached_example = handle_attach-IsAttached "t1" creator refl
