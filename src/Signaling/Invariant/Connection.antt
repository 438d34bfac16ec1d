-- ===== src/Signaling/Invariant/Connection.antt =====
-- Predicates on a node that a connection keeps, whatever it receives, and when it is cleaned up.
use callifornia.Exec.{Result, ok, err, modify}
use callifornia.Exec.Keeps.{Keeps, Keeps-modify, Keeps-bind, Keeps-when, keeps_rules}
use callifornia.Message.{ClientMessage, ServerMessage, ServerErrorCode, ValidationError, validate}
use callifornia.Prelude.{String, List, [], ◌∷◌, Option, none, some, Bool, true, false}
use callifornia.Services.{Services}
use callifornia.Signaling.Invariant.Rooms.{Keeps-leave_room_and_notify}
use callifornia.Signaling.Invariant.Writes.{IsServed, OfNode, Keeps-on_node, Keeps-send_message}
use callifornia.Signaling.Invariant.Steps.{Keeps-on_ext}
use callifornia.Signaling.Node.{Node}
use callifornia.Signaling.Sessions
use callifornia.Signaling.Sessions.{SessionState}
use callifornia.Signaling.State.{is_redis_available}
use callifornia.Signaling.Websocket.Connection.{
  Event, heartbeat, incoming, other_frame, close, read_error, read_timeout, outbound,
  outbound_closed, try_send_message, send_error, answer, serve, handle_event, find_session,
  edit_sessions, leave_on_close, uncount, release_session, release_bound, stop_renewer,
  cleanup_connection, run_loop, handle_ws,
}
use callifornia.Signaling.Websocket.Context.{WsHandlerError, write_failed}
use callifornia.Signaling.Invariant.Messages.{Keeps-handle_client_message}

module _ ⦃v : Services⦄ {P : Node → Type 0} (s : IsServed P) where
  Keeps-try_send_message : (m : ServerMessage) → Keeps (OfNode P) (try_send_message m)
  unfolding try_send_message
  Keeps-try_send_message m = search (keeps_rules, Keeps-send_message s.roomy.local)

  Keeps-send_error :
      (code : ServerErrorCode) (text : String) → Keeps (OfNode P) (send_error code text)
  unfolding send_error
  Keeps-send_error code text = Keeps-try_send_message _

  Keeps-answer : (r : Result WsHandlerError (Unit {0})) → Keeps (OfNode P) (answer r)
  unfolding answer
  Keeps-answer (ok _) = search keeps_rules
  Keeps-answer (err write_failed) = search keeps_rules
  Keeps-answer (err e) = Keeps-send_error _ _

  Keeps-serve :
      (tx : v.Sender) (m : ClientMessage) (r : Result ValidationError (Unit {0}))
      → Keeps (OfNode P) (serve tx m r)
  unfolding serve
  Keeps-serve tx m (err e) = Keeps-send_error _ _
  Keeps-serve tx m (ok _) = search (keeps_rules, Keeps-handle_client_message, Keeps-answer)

  pub Keeps-handle_event : (tx : v.Sender) (e : Event) → Keeps (OfNode P) (handle_event tx e)
  unfolding handle_event
  Keeps-handle_event tx heartbeat = search (keeps_rules, Keeps-on_node, Keeps-on_ext s.roomy.local)
  Keeps-handle_event tx (incoming none) = Keeps-send_error _ _
  Keeps-handle_event tx (incoming (some m)) = Keeps-serve tx m (validate v.is_uuid m)
  Keeps-handle_event tx other_frame = search keeps_rules
  Keeps-handle_event tx close = search keeps_rules
  Keeps-handle_event tx read_error = search keeps_rules
  Keeps-handle_event tx read_timeout = search keeps_rules
  Keeps-handle_event tx (outbound m) = Keeps-try_send_message m
  Keeps-handle_event tx outbound_closed = search keeps_rules

  Keeps-edit_delete :
      (id : String) → Keeps (OfNode P) (modify {E = ⊥} (edit_sessions (Sessions.delete id)))
  unfolding edit_sessions
  Keeps-edit_delete id = Keeps-modify _ λ c i. s.on_delete id c.node i

  Keeps-edit_room :
      (id : String) (room : Option String)
      → Keeps (OfNode P) (modify {E = ⊥} (edit_sessions (Sessions.set_room id room)))
  unfolding edit_sessions
  Keeps-edit_room id room = Keeps-modify _ λ c i. s.on_set_room id room c.node i

  Keeps-find_session :
      (id : String) (o : Option SessionState) → Keeps (OfNode P) (find_session id o)
  unfolding find_session
  Keeps-find_session id (some session) = search keeps_rules
  Keeps-find_session id none = search (keeps_rules, Keeps-on_node, Keeps-on_ext s.roomy.local)

  Keeps-leave_on_close : (id nick room : String) → Keeps (OfNode P) (leave_on_close id nick room)
  unfolding leave_on_close
  Keeps-leave_on_close id nick room = search (
    keeps_rules,
    Keeps-on_node,
    Keeps-on_ext s.roomy.local,
    Keeps-leave_room_and_notify s.roomy,
    Keeps-edit_room,
  )

  Keeps-release_session :
      (id : String) (o : Option SessionState) → Keeps (OfNode P) (release_session id o)
  unfolding release_session uncount
  Keeps-release_session id none = search keeps_rules
  Keeps-release_session id (some session) =
      search (keeps_rules, Keeps-leave_on_close, Keeps-on_node, Keeps-on_ext s.roomy.local) depth 9

  Keeps-release_bound : (id : String) (b : Bool) → Keeps (OfNode P) (release_bound id b)
  unfolding release_bound
  Keeps-release_bound id false = Keeps-edit_delete id
  Keeps-release_bound id true =
      search (keeps_rules, Keeps-find_session, Keeps-release_session, Keeps-edit_delete)

  Keeps-stop : Keeps (OfNode P) (modify {E = ⊥} stop_renewer)
  unfolding stop_renewer
  Keeps-stop = Keeps-modify _ λ c i. i

  pub Keeps-cleanup_connection : Keeps (OfNode P) cleanup_connection
  unfolding cleanup_connection is_redis_available
  Keeps-cleanup_connection = Keeps-bind _ _ Keeps-stop λ _.
      search (keeps_rules, Keeps-on_node, Keeps-on_ext s.roomy.local, Keeps-release_bound) depth 8

  Keeps-run_loop : (tx : v.Sender) (events : List Event) → Keeps (OfNode P) (run_loop tx events)
  unfolding run_loop
  Keeps-run_loop tx [] = search keeps_rules
  Keeps-run_loop tx (e ∷ events) =
      Keeps-bind _ _ (Keeps-handle_event tx e) λ b. Keeps-when b _ (Keeps-run_loop tx events)

  -- A connection keeps the predicate from its first event to its end.
  pub Keeps-handle_ws :
      (tx : v.Sender) (events : List Event) → Keeps (OfNode P) (handle_ws tx events)
  unfolding handle_ws
  Keeps-handle_ws tx events =
      Keeps-bind _ _ (Keeps-run_loop tx events) λ _. Keeps-cleanup_connection
