-- ===== src/Signaling/Entry.antt =====
-- services/signaling/src/websocket.rs: where a session and its peer stand once a room is created.
use callifornia.Signaling.Known.{
  Any, IsKnown-IsLocal, IsIn, IsIn-IsLocal, check_session-Ensures, enter_room-Ensures,
}
use callifornia.Exec.{Result, ok, err, modify, zoom, map_err, change_error}
use callifornia.Message.{created}
use callifornia.Signaling.Redis.{RedisRoomError}
use callifornia.Signaling.Redis.Assign.{assign_room_to_least_loaded_sfu}
use callifornia.Exec.Ensures.{
  Ensures, Ensures-bind, Ensures-Keeps, Ensures-modify, Ensures-with, Ensures-carry,
}
use callifornia.Exec.Keeps.{Keeps, Keeps-modify, keeps_rules}
use callifornia.Prelude.{String, some, ◌≡◌, refl, ap, eq_refl}
use callifornia.Services.{Services, Fault}
use callifornia.Signaling.Invariant.Rooms.{IsRoomy, Keeps-broadcast, Keeps-detach_stale_peers}
use callifornia.Signaling.Invariant.Steps.{Keeps-on_ext}
use callifornia.Signaling.Invariant.Writes.{
  OfNode, Keeps-on_redis, Keeps-quietly, Keeps-send_message, Keeps-ensure_peer_or,
  Keeps-join_created, Keeps-undo_create,
}
use callifornia.Signaling.Node.{Config, on_ext, public_node_id}
use callifornia.Signaling.Peers.{find}
use callifornia.Signaling.Peers.Rooms.{find-register}
use callifornia.Signaling.Sessions.{room_of}
use callifornia.Signaling.State.{drop_peer}
use callifornia.Signaling.Websocket.Context.{
  Conn, WsHandlerError, write_failed, map_redis_error, on_node, on_redis, send_message,
}
use callifornia.Signaling.Websocket.Rooms.{register_peer, handle_create_locked, handle_join_locked}

module _ ⦃v : Services⦄ where
  -- The assignment of Redis has bound the room to the SFU at this address.
  pub IsBound : String → String → Type 0
  IsBound room addr =
      (config : Config) × (x : v.Ext) × ((assign_room_to_least_loaded_sfu room
          (public_node_id config) config.signaling_public_host config.signaling_public_port x).0
        ≡ ok addr)

  -- The last thing that happened outside is that the client was told that the room is created.
  pub IsTold : String → String → Conn → Type 0
  IsTold room nick c = (x : v.Ext) × (v.socket_send (created room nick) x ≡ (ok tt, c.node.ext))

  -- One room and nickname: Redis has bound the room to an SFU, the client was told of them last, the
  -- session is in the room in the registry, and a peer is registered in it under the nickname, with
  -- the channel of the connection and that SFU.
  pub record HasEntered (id : String) (tx : v.Sender) (c : Conn) : Type 0 where
    pub room : String
    pub nick : String
    pub addr : String
    pub bound : IsBound room addr
    pub told : IsTold room nick c
    pub in_room : room_of c.node.sessions id ≡ some room
    pub registered :
        find room nick c.node.peers ≡ some (record { sender = tx; sfu_addr = some addr })

  bound-on_redis :
      (room addr : String) (config : Config) (c : Conn)
      → (on_redis
          (assign_room_to_least_loaded_sfu room
            (public_node_id config)
            config.signaling_public_host
            config.signaling_public_port)
          c).0
        ≡ ok addr
      → IsBound room addr
  unfolding on_redis on_node on_ext zoom map_err IsBound
  bound-on_redis room addr config c e = (config, c.node.ext, returned _ addr e)
    where
      returned :
          (r : Result RedisRoomError String) (a : String)
          → change_error map_redis_error r ≡ ok a
          → r ≡ ok a
      returned (ok b) a e = cc
      returned (err f) a e = absurd cc

  send_message-Ensures :
      (id room nick : String)
      → Ensures
          (OfNode (IsIn id room))
          (send_message (created room nick))
          (λ _ c. OfNode (IsIn id room) c × IsTold room nick c)
  unfolding send_message on_node on_ext zoom map_err IsIn IsTold
  send_message-Ensures id room nick = record {
    at = λ c a h e. (
      h,
      (c.node.ext, ap (λ r. (r, (v.socket_send (created room nick) c.node.ext).1)) (returned _ e)),
    );
  }
    where
      returned :
          {a : Unit {0}} (r : Result Fault (Unit {0}))
          → change_error (λ (f : Fault). write_failed) r ≡ ok a
          → r ≡ ok tt
      returned (ok b) e = refl
      returned (err f) e = absurd cc

  register_peer-HasEntered :
      (id room nick : String) (tx : v.Sender) (addr : String) (c : Conn)
      → (OfNode (IsIn id room) c × IsTold room nick c) × IsBound room addr
      → HasEntered id tx (register_peer room nick tx addr c)
  unfolding register_peer IsIn IsTold
  register_peer-HasEntered id room nick tx addr c h = record {
    room = room;
    nick = nick;
    addr = addr;
    bound = h.1;
    told = h.0.1;
    in_room = h.0.0;
    registered =
        rw
          (
            find-register room nick room nick (record { sender = tx; sfu_addr = some addr })
                c.node.peers,
            eq_refl room,
            eq_refl nick,
          )
          refl;
  }

  create_locked-Ensures :
      (tx : v.Sender) (id : String)
      → Ensures Any (handle_create_locked tx id) (λ _. HasEntered id tx)
  unfolding handle_create_locked
  create_locked-Ensures tx id =
      let l = IsKnown-IsLocal id in
      Ensures-bind _ _ (check_session-Ensures id) λ session.
        Ensures-bind _ _ (Ensures-Keeps _ (search keeps_rules)) λ _.
          Ensures-bind _ _ (Ensures-Keeps _ (search keeps_rules)) λ context.
            Ensures-bind _ _ (Ensures-Keeps _ (search keeps_rules)) λ _.
              Ensures-bind _ _ (Ensures-Keeps _ (Keeps-quietly _ (Keeps-on_ext l _))) λ room.
                Ensures-bind _ _ (Ensures-Keeps _ (search keeps_rules)) λ config.
                  Ensures-bind _ _
                    (Ensures-with {C = IsBound room} _ (Keeps-on_redis l _)
                      λ c addr e. bound-on_redis room addr config c e)
                    λ addr.
                      Ensures-bind _ _
                        (Ensures-carry _ (Ensures-Keeps _ (Keeps-join_created l room _)))
                        λ _.
                          Ensures-bind _ _
                            (Ensures-carry _ (
                              Ensures-Keeps _ (
                                Keeps-ensure_peer_or l _ addr room _ (Keeps-undo_create l room _))))
                            λ _.
                              Ensures-bind _ _ (Ensures-carry _ (enter_room-Ensures id room)) λ _.
                                Ensures-bind _ _
                                  (Ensures-carry _ (send_message-Ensures id room session.nickname))
                                  λ _.
                                    Ensures-modify _
                                      (register_peer-HasEntered id room session.nickname tx addr)

  -- If a room is created for a session, then for one room and nickname: Redis has bound the room to an
  -- SFU, the last thing that is done outside is to tell the client that this room is created, the
  -- session is in this room in the node's registry, and a peer is registered in it under the
  -- nickname, with the channel of the connection and that SFU.
  pub handle_create_locked-HasEntered :
      (tx : v.Sender) (id : String) (c : Conn)
      → (handle_create_locked tx id c).0 ≡ ok tt
      → HasEntered id tx (handle_create_locked tx id c).1
  unfolding Any
  handle_create_locked-HasEntered tx id c e = (create_locked-Ensures tx id).at c tt tt e

  IsIn-IsRoomy : (id room : String) → IsRoomy (IsIn id room)
  unfolding IsIn drop_peer
  IsIn-IsRoomy id room = record { local = IsIn-IsLocal id room; on_drop = λ q nick n h. h }

  Keeps-registering :
      (id room q nick : String) (tx : v.Sender) (addr : String)
      → Keeps (OfNode (IsIn id room)) (modify {E = WsHandlerError} (register_peer q nick tx addr))
  unfolding register_peer IsIn
  Keeps-registering id room q nick tx addr = Keeps-modify _ λ c h. h

  join_locked-Ensures :
      (tx : v.Sender) (id room : String)
      → Ensures Any (handle_join_locked tx id room) (λ _. OfNode (IsIn id room))
  unfolding handle_join_locked
  join_locked-Ensures tx id room =
      let l = IsKnown-IsLocal id in
      let entered = IsIn-IsLocal id room in
      Ensures-bind _ _ (check_session-Ensures id) λ session.
        Ensures-bind _ _ (Ensures-Keeps _ (search keeps_rules)) λ _.
          Ensures-bind _ _ (Ensures-Keeps _ (search keeps_rules)) λ context.
            Ensures-bind _ _ (Ensures-Keeps _ (search keeps_rules)) λ _.
              Ensures-bind _ _ (Ensures-Keeps _ (Keeps-on_redis l _)) λ route.
                Ensures-bind _ _ (Ensures-Keeps _ (search keeps_rules)) λ is_local.
                  Ensures-bind _ _ (Ensures-Keeps _ (search keeps_rules)) λ _.
                    Ensures-bind _ _ (Ensures-Keeps _ (search keeps_rules)) λ _.
                      Ensures-bind _ _ (Ensures-Keeps _ (search keeps_rules)) λ addr.
                        Ensures-bind _ _ (Ensures-Keeps _ (Keeps-on_redis l _)) λ participants.
                          Ensures-bind _ _
                            (Ensures-Keeps _ (
                              Keeps-ensure_peer_or l _ addr room _
                                (search (keeps_rules, Keeps-on_ext l))))
                            λ _. Ensures-bind _ _ (enter_room-Ensures id room) λ _.
                              Ensures-bind _ _ (Ensures-Keeps _ (Keeps-send_message entered _)) λ _.
                                Ensures-bind _ _
                                  (Ensures-Keeps _ (Keeps-registering id room _ _ tx addr))
                                  λ _. Ensures-Keeps _ (
                                    search
                                      (
                                        keeps_rules,
                                        Keeps-quietly,
                                        Keeps-broadcast entered,
                                        Keeps-detach_stale_peers (IsIn-IsRoomy id room),
                                      )
                                      depth 8)

  -- If a room is joined by a session, the session is in it in the node's registry, whatever became of
  -- the peers whose channels were found closed.
  pub room_of-handle_join_locked :
      (tx : v.Sender) (id room : String) (c : Conn)
      → (handle_join_locked tx id room c).0 ≡ ok tt
      → room_of (handle_join_locked tx id room c).1.node.sessions id ≡ some room
  unfolding Any IsIn
  room_of-handle_join_locked tx id room c e = (join_locked-Ensures tx id room).at c tt tt e
