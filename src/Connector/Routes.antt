-- ===== src/Connector/Routes.antt =====
-- The binding of a room, from the script in services/signaling/src/redis.rs that writes it to the
-- three that read it: services/signaling, services/connector and common/control_store.
use callifornia.Commands.Laws.{IsRedis}
use callifornia.Connector.Redis
use callifornia.ControlStore
use callifornia.ControlStore.Distinct.{instances_not_binding}
use callifornia.ControlStore.Heartbeat
use callifornia.ControlStore.Rooms.{to_binding, read_port}
use callifornia.Exec.{ok, pure, or_raise, ◌>>=◌}
use callifornia.Map.{lookup}
use callifornia.Numerals.{print_u16}
use callifornia.Numerals.RoundTrip.{parse_u16-print_u16, print_u16-shown}
use callifornia.Prelude.{
  ℕ, ◌<◌, String, List, [], ◌∷◌, some, false, ◌==◌, get_or, ◌≡◌, refl, ◌∙◌, ap, if◌then◌else◌,
}
use callifornia.Services.{Services, SfuInstance}
use callifornia.Signaling.Redis.{to_route, room_binding_key, non_empty}
use callifornia.Signaling.Redis.Assign.{bind_room}
use Prim.Native.String.{◌++◌}

module _ ⦃v : Services⦄ (laws : IsRedis) (room_id host owner : String) (port : ℕ)
    (inst : SfuInstance) (d : v.Db) where
  -- The binding that the script has written.
  abbrev pub values : List (String × String)
  values =
      v.hgetall (room_binding_key room_id)
        (bind_room (room_binding_key room_id) host (print_u16 port) owner inst d)

  record IsWritten : Type 0 where
    owner_host : lookup "owner_host" values ≡ some host
    owner_port : lookup "owner_port" values ≡ some (print_u16 port)
    owner_id : lookup "signaling_owner_id" values ≡ some owner
    state : lookup "room_state" values ≡ some "active"
    instance_id : lookup "sfu_instance_id" values ≡ some inst.instance_id
    addr : lookup "sfu_grpc_addr" values ≡ some inst.grpc_addr

  chain :
      (field : String)
      → lookup field values ≡ (
          if "sfu_grpc_addr" == field
          then some inst.grpc_addr
          else if "sfu_instance_id" == field
          then some inst.instance_id
          else if "room_state" == field
          then some "active"
          else if "signaling_owner_id" == field
          then some owner
          else if "owner_port" == field
          then some (print_u16 port)
          else if "owner_host" == field
          then some host
          else lookup field (v.hgetall (room_binding_key room_id) d))
  unfolding bind_room room_binding_key ControlStore.room_binding_key
  chain field =
      ap (lookup field)
        (laws.hgetall-hset _ _ _ _ _ (instances_not_binding room_id) ∙ laws.hgetall-zincr _ _ _ _ _)
      ∙ simp laws.lookup-hset

  written : IsWritten
  unfolding bind_room
  written = record {
    owner_host = chain "owner_host";
    owner_port = chain "owner_port";
    owner_id = chain "signaling_owner_id";
    state = chain "room_state";
    instance_id = chain "sfu_instance_id";
    addr = chain "sfu_grpc_addr";
  }

  -- Where a field is found, the hash is not empty.
  not_empty :
      (found : List (String × String))
      → lookup "owner_host" found ≡ some host
      → to_binding room_id found
        ≡ some (record {
          room_id = room_id;
          owner_id = get_or (lookup "signaling_owner_id" found) "";
          owner_host = get_or (lookup "owner_host" found) "";
          owner_port = read_port (lookup "owner_port" found);
          state = get_or (lookup "room_state" found) "active";
          sfu_instance_id = Heartbeat.non_empty (lookup "sfu_instance_id" found);
          sfu_grpc_addr = Heartbeat.non_empty (lookup "sfu_grpc_addr" found);
        })
  unfolding to_binding
  not_empty [] h = absurd (unfold lookup in cc)
  not_empty (e ∷ found) h = refl

  shown : (s : String) → (s == "") ≡ false → non_empty (some s) ≡ some s
  shown s e = rw e refl

  shown_again : (s : String) → (s == "") ≡ false → Heartbeat.non_empty (some s) ≡ some s
  unfolding Heartbeat.non_empty
  shown_again s e = rw e refl

  module _ (host_shown : (host == "") ≡ false) (small : port < 65536) where
    signaling-route :
        (x : v.Ext)
        → to_route values x ≡ (
          ok (record {
            owner_host = host;
            owner_port = port;
            room_state = "active";
            sfu_grpc_addr = non_empty (some inst.grpc_addr);
          }),
          x,
        )
    unfolding to_route or_raise pure ◌>>=◌
    signaling-route x =
        rw
          (
            written.owner_host,
            shown host host_shown,
            written.owner_port,
            parse_u16-print_u16 port small,
            written.state,
            written.addr,
          )
          refl

    connector-route :
        (x : v.Ext)
        → Redis.to_route values x
          ≡ (ok (record { signaling_instance_id = host ++ (":" ++ print_u16 port) }), x)
    unfolding Redis.to_route or_raise pure ◌>>=◌
    connector-route x =
        rw
          (
            written.owner_host,
            shown_again host host_shown,
            written.owner_port,
            shown_again (print_u16 port) (print_u16-shown port),
          )
          refl

    store-binding :
        to_binding room_id values
        ≡ some (record {
          room_id = room_id;
          owner_id = owner;
          owner_host = host;
          owner_port = port;
          state = "active";
          sfu_instance_id = Heartbeat.non_empty (some inst.instance_id);
          sfu_grpc_addr = Heartbeat.non_empty (some inst.grpc_addr);
        })
    unfolding read_port
    store-binding =
        rw
          (
            not_empty values written.owner_host,
            written.owner_id,
            written.owner_host,
            written.owner_port,
            parse_u16-print_u16 port small,
            written.state,
            written.instance_id,
            written.addr,
          )
          refl

    -- If Redis works as documented, the binding that the script writes for a room is read back: the
    -- signaling service finds the owner's host and port and the address of the SFU, the connector the
    -- id `host:port` of the owner, and the control store all the fields. The host is not empty, and the
    -- port is one of 16 bits.
    pub bind_room-routes :
        (x : v.Ext)
        → (to_route values x ≡ (
          ok (record {
            owner_host = host;
            owner_port = port;
            room_state = "active";
            sfu_grpc_addr = non_empty (some inst.grpc_addr);
          }),
          x,
        ))
          × (Redis.to_route values x
              ≡ (ok (record { signaling_instance_id = host ++ (":" ++ print_u16 port) }), x))
          × (to_binding room_id values
              ≡ some (record {
                room_id = room_id;
                owner_id = owner;
                owner_host = host;
                owner_port = port;
                state = "active";
                sfu_instance_id = Heartbeat.non_empty (some inst.instance_id);
                sfu_grpc_addr = Heartbeat.non_empty (some inst.grpc_addr);
              }))
    bind_room-routes x = (signaling-route x, connector-route x, store-binding)
