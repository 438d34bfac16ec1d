-- ===== src/Signaling/Logout.antt =====
-- services/signaling/src/websocket.rs: what a logout leaves in the node and in the connection.
use callifornia.Exec.{Action, ok, zoom}
use callifornia.Exec.Ensures.{Ensures, Ensures-bind, Ensures-Keeps, Ensures-modify}
use callifornia.Exec.Keeps.{Keeps, Keeps-map_err}
use callifornia.Message.{ServerMessage}
use callifornia.Prelude.{String, none, false, ◌≡◌, refl}
use callifornia.Services.{Services}
use callifornia.Signaling.Cleanup.{get-delete}
use callifornia.Signaling.Node.{on_ext}
use callifornia.Signaling.Sessions.{get}
use callifornia.Signaling.Websocket.Context.{Conn, on_node, on_context, on_sessions, send_message}
use callifornia.Signaling.Websocket.Handlers.{handle_logout}

module _ ⦃v : Services⦄ where
  Any : Conn → Type 0
  Any c = Unit

  through : {E A : Type 0} {m : Action Conn E A} → Keeps Any m
  unfolding Any
  through = record { at = λ c _. tt }

  -- No session stands under the id, and the connection is bound to none and renews none.
  pub record IsLoggedOut (id : String) (c : Conn) : Type 0 where
    pub no_session : get id c.node.sessions ≡ none
    pub unbound : c.context.session_id ≡ none
    pub not_cached : c.context.cached_session ≡ none
    pub not_renewed : c.context.lease_renewer ≡ false

  Keeps-send_message :
      (id : String) (payload : ServerMessage) → Keeps (IsLoggedOut id) (send_message payload)
  unfolding send_message on_node zoom on_ext
  Keeps-send_message id payload = Keeps-map_err _ _ (record {
    at = λ c h. record {
      no_session = h.no_session;
      unbound = h.unbound;
      not_cached = h.not_cached;
      not_renewed = h.not_renewed;
    };
  })

  handle_logout-Ensures : (id : String) → Ensures Any (handle_logout id) (λ _. IsLoggedOut id)
  unfolding handle_logout on_sessions on_context
  handle_logout-Ensures id = Ensures-bind _ _ (Ensures-Keeps {P = Any} _ through) λ session.
      Ensures-bind _ _ (Ensures-Keeps {P = Any} _ through) λ _.
        Ensures-bind _ _ (Ensures-Keeps {P = Any} _ through) λ available.
          Ensures-bind _ _ (Ensures-Keeps {P = Any} _ through) λ _.
            Ensures-bind _ _ (Ensures-modify _ λ c _. get-delete id c.node.sessions) λ _.
              Ensures-bind _ _
                (Ensures-modify _ λ c h. record {
                  no_session = h;
                  unbound = refl;
                  not_cached = refl;
                  not_renewed = refl;
                })
                λ _. Ensures-Keeps _ (Keeps-send_message id _)

  -- If a logout succeeds, the session has left the node's registry, and the connection is bound to no
  -- session, caches none and renews none.
  pub handle_logout-IsLoggedOut :
      (id : String) (c : Conn)
      → (handle_logout id c).0 ≡ ok tt
      → IsLoggedOut id (handle_logout id c).1
  unfolding Any
  handle_logout-IsLoggedOut id c e = (handle_logout-Ensures id).at c tt tt e
