-- ===== src/Signaling/Admission.antt =====
-- services/signaling/src/websocket.rs: what a token must allow for a room to be created or joined.
use callifornia.Exec.{zoom, err, raise, Action, Result, ok, modify}
use callifornia.Exec.Ensures.{
  Ensures, Ensures-bind, Ensures-Keeps, Ensures-const, Ensures-gets, Ensures-guard, Ensures-attempt,
  IfOk,
}
use callifornia.Exec.Keeps.{Keeps, Keeps-modify, Keeps-map_err, keeps_rules}
use callifornia.Prelude.{String, Option, some, true, ◌&&◌, is_text, ◌≡◌, refl, ap}
use callifornia.Services.{Services}
use callifornia.Signaling.Node.{Node}
use callifornia.Signaling.Redis.{Redis}
use callifornia.Signaling.Sessions.{SessionState, SessionStore}
use callifornia.Signaling.State.{Quiet}
use callifornia.Signaling.Websocket.Context.{
  Conn, Ws, WsHandlerError, on_node, on_redis, quietly, on_context, on_sessions, require_redis,
  check_session,
}
use callifornia.Signaling.Websocket.Handlers
use callifornia.Signaling.Websocket.Handlers.{with_session_lock, handle_create, handle_join}
use callifornia.Signaling.Websocket.Rooms.{handle_create_locked, handle_join_locked}

module _ ⦃v : Services⦄ where
  -- What the token of the connection allows.
  record Allows (intent room : Option String) (c : Conn) : Type 0 where
    same_intent : c.context.allowed_intent ≡ intent
    same_room : c.context.allowed_room_id ≡ room

module _ ⦃v : Services⦄ {intent room : Option String} {E A : Type 0} where
  Keeps-on_node : (m : Action Node E A) → Keeps (Allows intent room) (on_node m)
  unfolding on_node zoom
  Keeps-on_node m = record {
    at = λ c h. record { same_intent = h.same_intent; same_room = h.same_room };
  }

module _ ⦃v : Services⦄ {intent room : Option String} {A : Type 0} where
  Keeps-on_redis : (m : Redis A) → Keeps (Allows intent room) (on_redis m)
  unfolding on_redis
  Keeps-on_redis m = Keeps-map_err _ _ (Keeps-on_node _)

  Keeps-quietly : (m : Quiet A) → Keeps (Allows intent room) (quietly m)
  unfolding quietly
  Keeps-quietly m = Keeps-map_err _ _ (Keeps-on_node m)

module _ ⦃v : Services⦄ {C : Type 0} where
  settle-Ensures :
      (r : Result WsHandlerError (Unit {0}))
      → Ensures (IfOk (λ _ (_ : Conn). C) r) (Handlers.settle r) (λ _ _. C)
  unfolding Handlers.settle raise
  settle-Ensures (ok _) = Ensures-const _ λ c h. h
  settle-Ensures (err e) = record { at = λ c a h k. absurd cc }

module _ ⦃v : Services⦄ where
  Keeps-promise :
      (C : Type 0) {E A : Type 0} (r : Result WsHandlerError (Unit {0})) (m : Action Conn E A)
      → Keeps (IfOk (λ _ (_ : Conn). C) r) m
  Keeps-promise C (ok _) m = record { at = λ c h. h }
  Keeps-promise C (err e) m = record { at = λ c h. tt }

module _ ⦃v : Services⦄ {intent room : Option String} where
  Keeps-on_sessions :
      (f : SessionStore → SessionStore)
      → Keeps (Allows intent room) (modify {E = WsHandlerError} (on_sessions f))
  unfolding on_sessions
  Keeps-on_sessions f =
      Keeps-modify _ λ c h. record { same_intent = h.same_intent; same_room = h.same_room }

  Keeps-require_redis : Keeps (Allows intent room) require_redis
  unfolding require_redis
  Keeps-require_redis = search (keeps_rules, Keeps-quietly)

  Keeps-bind_context :
      (id : String) (session : SessionState)
      → Keeps (Allows intent room) (
          modify {E = WsHandlerError}
            (on_context λ c. record c { session_id = some id; cached_session = some session }))
  unfolding on_context
  Keeps-bind_context id session =
      Keeps-modify _ λ c h. record { same_intent = h.same_intent; same_room = h.same_room }

  Keeps-check_session : (id : String) → Keeps (Allows intent room) (check_session id)
  unfolding check_session require_redis
  Keeps-check_session id =
      search (keeps_rules, Keeps-quietly, Keeps-on_redis, Keeps-bind_context, Keeps-on_sessions)
        depth 12

  create_locked-Ensures :
      (tx : v.Sender) (id : String)
      → Ensures
          (Allows intent room)
          (handle_create_locked tx id)
          (λ _ _. is_text intent "create" ≡ true)
  unfolding handle_create_locked
  create_locked-Ensures tx id =
      Ensures-bind _ _ (Ensures-Keeps _ (Keeps-check_session id)) λ session.
        Ensures-bind _ _ (Ensures-Keeps _ (search keeps_rules)) λ _.
          Ensures-bind _ _ (Ensures-gets _) λ context. Ensures-bind _ _ (Ensures-guard _ _) λ _.
            Ensures-const _ λ c h. rw (← h.0.0.same_intent, ap (λ k. k.allowed_intent) h.0.1) h.1

  join_locked-Ensures :
      (tx : v.Sender) (id joined : String)
      → Ensures
          (Allows intent room)
          (handle_join_locked tx id joined)
          (λ _ _. (is_text intent "join" && is_text room joined) ≡ true)
  unfolding handle_join_locked
  join_locked-Ensures tx id joined =
      Ensures-bind _ _ (Ensures-Keeps _ (Keeps-check_session id)) λ session.
        Ensures-bind _ _ (Ensures-Keeps _ (search keeps_rules)) λ _.
          Ensures-bind _ _ (Ensures-gets _) λ context. Ensures-bind _ _ (Ensures-guard _ _) λ _.
            Ensures-const _ λ c h.
              rw
                (
                  ← h.0.0.same_intent,
                  ← h.0.0.same_room,
                  ap (λ k. k.allowed_intent) h.0.1,
                  ap (λ k. k.allowed_room_id) h.0.1,
                )
                h.1

  -- The lock round a handler changes nothing in what its success promises.
  with_session_lock-Ensures :
      {C : Type 0} (id : String) (handler : Ws (Unit {0}))
      → Ensures (Allows intent room) handler (λ _ _. C)
      → Ensures (Allows intent room) (with_session_lock id handler) (λ _ _. C)
  unfolding with_session_lock
  with_session_lock-Ensures id handler e =
      Ensures-bind _ _ (Ensures-Keeps _ Keeps-require_redis) λ _.
        Ensures-bind _ _ (Ensures-Keeps _ (Keeps-quietly _)) λ owner.
          Ensures-bind _ _ (Ensures-Keeps _ (search keeps_rules)) λ ttl.
            Ensures-bind _ _ (Ensures-Keeps _ (Keeps-on_redis _)) λ acquired.
              Ensures-bind _ _ (Ensures-Keeps _ (search keeps_rules)) λ _.
                Ensures-bind _ _ (Ensures-attempt handler e) λ result.
                  Ensures-bind _ _ (Ensures-Keeps _ (Keeps-promise _ result _))
                    λ _. settle-Ensures result

module _ ⦃v : Services⦄ where
  -- If creating a room succeeds, the context of the connection held the intent `create` before.
  pub handle_create-allowed :
      (tx : v.Sender) (id : String) (c : Conn)
      → (handle_create tx id c).0 ≡ ok tt
      → is_text c.context.allowed_intent "create" ≡ true
  unfolding handle_create
  handle_create-allowed tx id c e =
      (with_session_lock-Ensures id _ (create_locked-Ensures tx id)).at c tt
        (record { same_intent = refl; same_room = refl }) e

  -- If joining a room succeeds, the context of the connection held the intent `join` and that room
  -- before.
  pub handle_join-allowed :
      (tx : v.Sender) (id room : String) (c : Conn)
      → (handle_join tx id room c).0 ≡ ok tt
      → (is_text c.context.allowed_intent "join" && is_text c.context.allowed_room_id room) ≡ true
  unfolding handle_join
  handle_join-allowed tx id room c e =
      (with_session_lock-Ensures id _ (join_locked-Ensures tx id room)).at c tt
        (record { same_intent = refl; same_room = refl }) e
