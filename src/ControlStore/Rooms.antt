-- ===== src/ControlStore/Rooms.antt =====
-- common/control_store/src/storage.rs: the binding of a room to its node and its SFU.
use callifornia.ControlStore.{Store, RoomBinding, query, room_binding_key}
use callifornia.ControlStore.Heartbeat.{non_empty}
use callifornia.Exec.{pure, ◌>>=◌}
use callifornia.Map.{lookup, is_empty}
use callifornia.Numerals.{parse_u16}
use callifornia.Prelude.{ℕ, String, List, Option, none, some, get_or, if◌then◌else◌}
use callifornia.Services.{Services}

-- `.and_then(|v| v.parse().ok()).unwrap_or_default()`
unfoldable pub read_port : Option String → ℕ
read_port none = 0
read_port (some text) = get_or (parse_u16 text) 0

unfoldable pub to_binding : String → List (String × String) → Option RoomBinding
unfolding read_port non_empty
to_binding room_id values =
    if is_empty values
    then none
    else some (record {
      room_id = room_id;
      owner_id = get_or (lookup "signaling_owner_id" values) "";
      owner_host = get_or (lookup "owner_host" values) "";
      owner_port = read_port (lookup "owner_port" values);
      state = get_or (lookup "room_state" values) "active";
      sfu_instance_id = non_empty (lookup "sfu_instance_id" values);
      sfu_grpc_addr = non_empty (lookup "sfu_grpc_addr" values);
    })

module _ ⦃v : Services⦄ where
  unfoldable pub get_room_assignment : String → Store (Option RoomBinding)
  unfolding to_binding
  get_room_assignment room_id = do
    values ← query (v.hgetall (room_binding_key room_id))
    pure (to_binding room_id values)
