-- ===== src/Signaling/Invariant/Messages.antt =====
-- Predicates on a node that the handler of every message keeps.
use callifornia.Exec.{Result, ok, err}
use callifornia.Exec.Keeps.{Keeps, keeps_rules}
use callifornia.Message.{ClientMessage, Claims, attach, logout, create, join, leave}
use callifornia.Prelude.{String}
use callifornia.Services.{Services}
use callifornia.Signaling.Invariant.Handlers.{Keeps-handle_join_locked, Keeps-handle_create_locked}
use callifornia.Signaling.Invariant.Writes.{
  IsServed, OfNode, Keeps-on_node, Keeps-on_redis, Keeps-quietly, Keeps-on_context, Keeps-upsert,
  Keeps-delete, Keeps-send_message, Keeps-check_session, Keeps-leave_room,
}
use callifornia.Signaling.Invariant.Steps.{Keeps-on_ext, Keeps-handle_sdp, Keeps-add_ice_candidate}
use callifornia.Signaling.Node.{Node}
use callifornia.Signaling.Sessions.{SessionState}
use callifornia.Signaling.State.{is_redis_available}
use callifornia.Signaling.Websocket.Context.{Ws, WsHandlerError, require_redis}
use callifornia.Signaling.Websocket.Handlers.{
  consume_once, read_token, bind_session, handle_attach, uncount_load, logout_redis, handle_logout,
  settle, with_session_lock, handle_create, handle_join, handle_leave, sfu_route,
  handle_sdp_message, handle_candidate, handle_client_message,
}

module _ ⦃v : Services⦄ {P : Node → Type 0} (s : IsServed P) where
  Keeps-read_token : (token : String) → Keeps (OfNode P) (read_token token)
  unfolding read_token
  Keeps-read_token token = search (keeps_rules, Keeps-on_node, Keeps-on_ext s.roomy.local)

  Keeps-consume_once : (claims : Claims) → Keeps (OfNode P) (consume_once claims)
  unfolding consume_once
  Keeps-consume_once claims = search (keeps_rules, Keeps-on_redis s.roomy.local)

  Keeps-bind_session :
      (claims : Claims) (session : SessionState) → Keeps (OfNode P) (bind_session claims session)
  unfolding bind_session
  Keeps-bind_session claims session =
      search (keeps_rules, Keeps-on_context s, Keeps-on_redis s.roomy.local, Keeps-upsert s) depth
        10

  Keeps-handle_attach : (token : String) → Keeps (OfNode P) (handle_attach token)
  unfolding handle_attach require_redis is_redis_available
  Keeps-handle_attach token =
      search
        (
          keeps_rules,
          Keeps-quietly,
          Keeps-on_ext s.roomy.local,
          Keeps-read_token,
          Keeps-consume_once,
          Keeps-on_redis s.roomy.local,
          Keeps-bind_session,
          Keeps-send_message s.roomy.local,
        )
        depth 20

  Keeps-logout_redis :
      (id : String) (session : SessionState) → Keeps (OfNode P) (logout_redis id session)
  unfolding logout_redis uncount_load
  Keeps-logout_redis id session =
      search (keeps_rules, Keeps-on_redis s.roomy.local, Keeps-on_context s) depth 10

  Keeps-handle_logout : (id : String) → Keeps (OfNode P) (handle_logout id)
  unfolding handle_logout is_redis_available
  Keeps-handle_logout id =
      search
        (
          keeps_rules,
          Keeps-check_session s,
          Keeps-leave_room s,
          Keeps-quietly,
          Keeps-on_ext s.roomy.local,
          Keeps-logout_redis,
          Keeps-delete s,
          Keeps-on_context s,
          Keeps-send_message s.roomy.local,
        )
        depth 20

  Keeps-settle : (r : Result WsHandlerError (Unit {0})) → Keeps (OfNode P) (settle r)
  unfolding settle
  Keeps-settle (ok _) = search keeps_rules
  Keeps-settle (err e) = search keeps_rules

  Keeps-with_session_lock :
      (id : String) (m : Ws (Unit {0}))
      → Keeps (OfNode P) m
      → Keeps (OfNode P) (with_session_lock id m)
  unfolding with_session_lock require_redis is_redis_available
  Keeps-with_session_lock id m k =
      search
        (
          keeps_rules,
          Keeps-quietly,
          Keeps-on_ext s.roomy.local,
          Keeps-on_redis s.roomy.local,
          Keeps-settle,
        )
        depth 20

  Keeps-handle_leave : (id room : String) → Keeps (OfNode P) (handle_leave id room)
  unfolding handle_leave
  Keeps-handle_leave id room =
      search
        (keeps_rules, Keeps-check_session s, Keeps-leave_room s, Keeps-send_message s.roomy.local)
        depth 10

  Keeps-sfu_route : (session : SessionState) → Keeps (OfNode P) (sfu_route session)
  unfolding sfu_route
  Keeps-sfu_route session = search (keeps_rules, Keeps-on_redis s.roomy.local)

  Keeps-handle_sdp_message :
      (id sdp sdp_type : String) → Keeps (OfNode P) (handle_sdp_message id sdp sdp_type)
  unfolding handle_sdp_message
  Keeps-handle_sdp_message id sdp sdp_type =
      search
        (
          keeps_rules,
          Keeps-check_session s,
          Keeps-sfu_route,
          Keeps-on_node,
          Keeps-handle_sdp s.roomy.local,
          Keeps-send_message s.roomy.local,
        )
        depth 10

  Keeps-handle_candidate :
      (id candidate sdp_mid : String) → Keeps (OfNode P) (handle_candidate id candidate sdp_mid)
  unfolding handle_candidate
  Keeps-handle_candidate id candidate sdp_mid =
      search
        (
          keeps_rules,
          Keeps-check_session s,
          Keeps-sfu_route,
          Keeps-on_node,
          Keeps-add_ice_candidate s.roomy.local,
        )
        depth 10

  pub Keeps-handle_client_message :
      (tx : v.Sender) (message : ClientMessage)
      → Keeps (OfNode P) (handle_client_message tx message)
  unfolding handle_client_message handle_create handle_join
  Keeps-handle_client_message tx (attach token) = Keeps-handle_attach token
  Keeps-handle_client_message tx (logout id _) = Keeps-handle_logout id
  Keeps-handle_client_message tx (create id) =
      Keeps-with_session_lock id _ (Keeps-handle_create_locked s tx id)
  Keeps-handle_client_message tx (join id room) =
      Keeps-with_session_lock id _ (Keeps-handle_join_locked s tx id room)
  Keeps-handle_client_message tx (leave id room _) = Keeps-handle_leave id room
  Keeps-handle_client_message tx (ClientMessage.sdp id sdp sdp_type) =
      Keeps-handle_sdp_message id sdp sdp_type
  Keeps-handle_client_message tx (ClientMessage.candidate id candidate sdp_mid) =
      Keeps-handle_candidate id candidate sdp_mid
