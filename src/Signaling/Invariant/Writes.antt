-- ===== src/Signaling/Invariant/Writes.antt =====
-- Predicates on a node that the shared steps of a connection keep.
use callifornia.Exec.{Result, ok, err, Action, modify}
use callifornia.Exec.Keeps.{Keeps, Keeps-modify, Keeps-map_err, Keeps-zoom, keeps_rules}
use callifornia.Message.{ServerMessage}
use callifornia.Prelude.{List, String, Option}
use callifornia.Services.{Services}
use callifornia.Signaling.Invariant.Rooms.{IsRoomy, Keeps-detach_peer, Keeps-tell_left}
use callifornia.Signaling.Invariant.Steps.{IsLocal, Keeps-on_ext, Keeps-ensure_peer}
use callifornia.Signaling.Node.{Node}
use callifornia.Signaling.Peers.{PeerEntry, register}
use callifornia.Signaling.Redis.{Redis, RedisRoomError}
use callifornia.Signaling.Sessions
use callifornia.Signaling.Sessions.{SessionState}
use callifornia.Signaling.Sfu.{SfuClientError}
use callifornia.Signaling.State.{Quiet, is_redis_available}
use callifornia.Signaling.Websocket.Context.{
  Conn, ConnectionContext, WsHandlerError, on_node, on_redis, quietly, on_context, on_sessions,
  require_redis, send_message, check_session,
}
use callifornia.Signaling.Websocket.Rooms
use callifornia.Signaling.Websocket.Rooms.{
  leave_room, enter_room, register_peer, ensure_peer_or, settle_join, join_created, undo_create,
  handle_join_locked, handle_create_locked,
}

module _ ⦃v : Services⦄ where
  -- The predicate is kept by all that a connection writes into its node.
  pub record IsServed (P : Node → Type 0) : Type 0 where
    pub roomy : IsRoomy P
    pub on_register :
        (room nick : String) (entry : PeerEntry) (n : Node)
        → P n
        → P (record n { peers = register room nick entry n.peers })
    pub on_upsert :
        (id : String) (session : SessionState) (n : Node)
        → P n
        → P (record n { sessions = Sessions.upsert id session n.sessions })
    pub on_delete :
        (id : String) (n : Node) → P n → P (record n { sessions = Sessions.delete id n.sessions })
    pub on_set_room :
        (id : String) (room : Option String) (n : Node)
        → P n
        → P (record n { sessions = Sessions.set_room id room n.sessions })

  -- The predicate of a connection's node.
  abbrev pub OfNode : (Node → Type 0) → Conn → Type 0
  OfNode P c = P c.node

module _ ⦃v : Services⦄ {P : Node → Type 0} {E A : Type 0} where
  pub Keeps-on_node : (m : Action Node E A) → Keeps P m → Keeps (OfNode P) (on_node m)
  unfolding on_node
  Keeps-on_node m k = Keeps-zoom _ _ m (λ c i. i) (λ n c i j. j) k

module _ ⦃v : Services⦄ {P : Node → Type 0} {A : Type 0} where
  pub Keeps-on_redis : (l : IsLocal P) (m : Redis A) → Keeps (OfNode P) (on_redis m)
  unfolding on_redis
  Keeps-on_redis l m = Keeps-map_err _ _ (Keeps-on_node _ (Keeps-on_ext l m))

  pub Keeps-quietly : (m : Quiet A) → Keeps P m → Keeps (OfNode P) (quietly m)
  unfolding quietly
  Keeps-quietly m k = Keeps-map_err _ _ (Keeps-on_node m k)

module _ ⦃v : Services⦄ {P : Node → Type 0} (l : IsLocal P) where
  pub Keeps-require_redis : Keeps (OfNode P) require_redis
  unfolding require_redis is_redis_available
  Keeps-require_redis = search (keeps_rules, Keeps-quietly, Keeps-on_ext l)

  pub Keeps-send_message : (payload : ServerMessage) → Keeps (OfNode P) (send_message payload)
  unfolding send_message
  Keeps-send_message payload = search (keeps_rules, Keeps-on_node, Keeps-on_ext l)

  Keeps-settle :
      (undo : Quiet (Unit {0})) (r : Result SfuClientError (Unit {0}))
      → Keeps P undo
      → Keeps (OfNode P) (Rooms.settle undo r)
  unfolding Rooms.settle
  Keeps-settle undo (ok _) k = search keeps_rules
  Keeps-settle undo (err e) k = search (keeps_rules, Keeps-quietly)

  pub Keeps-ensure_peer_or :
      (undo : Quiet (Unit {0})) (addr room nick : String)
      → Keeps P undo
      → Keeps (OfNode P) (ensure_peer_or undo addr room nick)
  unfolding ensure_peer_or
  Keeps-ensure_peer_or undo addr room nick k =
      search (keeps_rules, Keeps-quietly, Keeps-ensure_peer l, Keeps-settle)

  Keeps-settle_join :
      (room : String) (r : Result RedisRoomError (List String))
      → Keeps (OfNode P) (settle_join room r)
  unfolding settle_join
  Keeps-settle_join room (ok _) = search keeps_rules
  Keeps-settle_join room (err e) = search (keeps_rules, Keeps-quietly, Keeps-on_ext l)

  pub Keeps-join_created : (room nick : String) → Keeps (OfNode P) (join_created room nick)
  unfolding join_created
  Keeps-join_created room nick =
      search (keeps_rules, Keeps-quietly, Keeps-on_ext l, Keeps-settle_join)

  pub Keeps-undo_create : (room nick : String) → Keeps P (undo_create room nick)
  unfolding undo_create
  Keeps-undo_create room nick = search (keeps_rules, Keeps-on_ext l)

module _ ⦃v : Services⦄ {P : Node → Type 0} (s : IsServed P) where
  pub Keeps-on_context :
      (f : ConnectionContext → ConnectionContext)
      → Keeps (OfNode P) (modify {E = WsHandlerError} (on_context f))
  unfolding on_context
  Keeps-on_context f = Keeps-modify _ λ c i. i

  pub Keeps-upsert :
      (id : String) (session : SessionState)
      → Keeps (OfNode P) (modify {E = WsHandlerError} (on_sessions (Sessions.upsert id session)))
  unfolding on_sessions
  Keeps-upsert id session = Keeps-modify _ λ c i. s.on_upsert id session c.node i

  pub Keeps-delete :
      (id : String)
      → Keeps (OfNode P) (modify {E = WsHandlerError} (on_sessions (Sessions.delete id)))
  unfolding on_sessions
  Keeps-delete id = Keeps-modify _ λ c i. s.on_delete id c.node i

  pub Keeps-set_room :
      (id : String) (room : Option String)
      → Keeps (OfNode P) (modify {E = WsHandlerError} (on_sessions (Sessions.set_room id room)))
  unfolding on_sessions
  Keeps-set_room id room = Keeps-modify _ λ c i. s.on_set_room id room c.node i

  pub Keeps-register :
      (room nick : String) (tx : v.Sender) (addr : String)
      → Keeps (OfNode P) (modify {E = WsHandlerError} (register_peer room nick tx addr))
  unfolding register_peer
  Keeps-register room nick tx addr = Keeps-modify _ λ c i. s.on_register room nick _ c.node i

  pub Keeps-check_session : (id : String) → Keeps (OfNode P) (check_session id)
  unfolding check_session require_redis is_redis_available
  Keeps-check_session id =
      search
        (
          keeps_rules,
          Keeps-quietly,
          Keeps-on_ext s.roomy.local,
          Keeps-on_redis s.roomy.local,
          Keeps-on_context,
          Keeps-upsert,
        )
        depth 10

  pub Keeps-leave_room :
      (id room nick reason : String) → Keeps (OfNode P) (leave_room id room nick reason)
  unfolding leave_room require_redis is_redis_available
  Keeps-leave_room id room nick reason =
      search
        (
          keeps_rules,
          Keeps-quietly,
          Keeps-on_ext s.roomy.local,
          Keeps-on_redis s.roomy.local,
          Keeps-detach_peer s.roomy,
          Keeps-tell_left s.roomy,
          Keeps-on_context,
          Keeps-set_room,
        )
        depth 10

  pub Keeps-enter_room : (id room : String) → Keeps (OfNode P) (enter_room id room)
  unfolding enter_room
  Keeps-enter_room id room =
      search (keeps_rules, Keeps-on_redis s.roomy.local, Keeps-on_context, Keeps-set_room)
