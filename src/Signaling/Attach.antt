-- ===== src/Signaling/Attach.antt =====
-- services/signaling/src/websocket.rs: what a connection holds once it is attached.
use callifornia.Exec.{Action, Result, ok, err, zoom, gets, change_error, map_err, ◌>>=◌}
use callifornia.Exec.Ensures.{Ensures, Ensures-bind, Ensures-Keeps, Ensures-modify}
use callifornia.Exec.Keeps.{Keeps, Keeps-map_err, Keeps-bind, keeps_rules}
use callifornia.Message.{Claims, ServerMessage}
use callifornia.Prelude.{String, some, ◌≡◌, refl}
use callifornia.Services.{Services}
use callifornia.Signaling.Auth.{validate_connector_token}
use callifornia.Signaling.Node.{Node, Config, public_node_id, on_ext}
use callifornia.Signaling.Sessions.{SessionState}
use callifornia.Signaling.State.{is_redis_available}
use callifornia.Signaling.Websocket.Context.{
  Conn, on_node, on_redis, quietly, on_context, on_sessions, send_message, require_redis,
}
use callifornia.Signaling.Websocket.Handlers.{handle_attach, read_token, bind_session}

module _ ⦃v : Services⦄ where
  -- The token is one that the node, at some moment, takes for the claims.
  pub record IsDecoded (config : Config) (token : String) (claims : Claims) : Type 0 where
    pub moment : v.Ext
    pub decoded :
        (validate_connector_token token config.connector_token_secret
          (public_node_id config)
          moment).0
        ≡ ok claims

  HasConfig : Config → Conn → Type 0
  HasConfig config c = c.node.config ≡ config

  Keeps-require_redis : (config : Config) → Keeps (HasConfig config) require_redis
  unfolding require_redis quietly is_redis_available on_node on_ext zoom HasConfig
  Keeps-require_redis config =
      Keeps-bind _ _ (Keeps-map_err _ _ (record { at = λ c h. h })) λ available. search keeps_rules

  Keeps-const : {C E A : Type 0} {m : Action Conn E A} → Keeps (λ _. C) m
  Keeps-const = record { at = λ c h. h }

  change_error-ok :
      {E D A : Type 0} (f : E → D) (r : Result E A) (a : A) → change_error f r ≡ ok a → r ≡ ok a
  change_error-ok f (ok b) a e = cc
  change_error-ok f (err x) a e = absurd cc

  read_token-Ensures :
      (config : Config) (token : String)
      → Ensures (HasConfig config) (read_token token) (λ claims _. IsDecoded config token claims)
  unfolding read_token ◌>>=◌ gets map_err on_node on_ext zoom HasConfig
  read_token-Ensures config token = record {
    at = λ c claims h e. record {
      moment = c.node.ext;
      decoded = rw (← h) (change_error-ok _ _ claims e);
    };
  }

  -- What the context of a connection holds once the claims are bound, for a token that was decoded.
  pub record IsAttached (config : Config) (token : String) (c : Conn) : Type 0 where
    pub claims : Claims
    pub is_decoded : IsDecoded config token claims
    pub bound : c.context.session_id ≡ some claims.session_id
    pub intent : c.context.allowed_intent ≡ some claims.intent
    pub room : c.context.allowed_room_id ≡ claims.room_id

module _ ⦃v : Services⦄ {config : Config} {token : String} {E A : Type 0} where
  Keeps-on_node : (m : Action Node E A) → Keeps (IsAttached config token) (on_node m)
  unfolding on_node zoom
  Keeps-on_node m = record {
    at = λ c h. record {
      claims = h.claims;
      is_decoded = h.is_decoded;
      bound = h.bound;
      intent = h.intent;
      room = h.room;
    };
  }

module _ ⦃v : Services⦄ {config : Config} {token : String} where
  bind_session-Ensures :
      (claims : Claims) (session : SessionState)
      → Ensures
          (λ _. IsDecoded config token claims)
          (bind_session claims session)
          (λ _. IsAttached config token)
  unfolding bind_session on_context on_sessions on_redis
  bind_session-Ensures claims session =
      Ensures-bind _ _
        (Ensures-modify {Q = IsAttached config token} _ λ c h. record {
          claims = claims;
          is_decoded = h;
          bound = refl;
          intent = refl;
          room = refl;
        })
        λ _. Ensures-bind _ _ (Ensures-Keeps _ (search keeps_rules)) λ node_id.
          Ensures-bind _ _ (Ensures-Keeps _ (Keeps-map_err _ _ (Keeps-on_node _))) λ _.
            Ensures-bind _ _
              (Ensures-modify {Q = IsAttached config token} _ λ c h. record {
                claims = h.claims;
                is_decoded = h.is_decoded;
                bound = h.bound;
                intent = h.intent;
                room = h.room;
              })
              λ _. Ensures-modify _ λ c h. record {
                claims = h.claims;
                is_decoded = h.is_decoded;
                bound = h.bound;
                intent = h.intent;
                room = h.room;
              }

  Keeps-send_message :
      (payload : ServerMessage) → Keeps (IsAttached config token) (send_message payload)
  unfolding send_message
  Keeps-send_message payload = Keeps-map_err _ _ (Keeps-on_node _)

  handle_attach-Ensures :
      Ensures (HasConfig config) (handle_attach token) (λ _. IsAttached config token)
  unfolding handle_attach
  handle_attach-Ensures = Ensures-bind _ _ (Ensures-Keeps _ (search keeps_rules)) λ bound.
      Ensures-bind _ _ (Ensures-Keeps _ (search keeps_rules)) λ _.
        Ensures-bind _ _ (Ensures-Keeps _ (Keeps-require_redis config)) λ _.
          Ensures-bind _ _ (read_token-Ensures config token) λ claims.
            Ensures-bind _ _ (Ensures-Keeps _ Keeps-const) λ _.
              Ensures-bind _ _ (Ensures-Keeps _ Keeps-const) λ found.
                Ensures-bind _ _ (Ensures-Keeps _ Keeps-const) λ session.
                  Ensures-bind _ _ (Ensures-Keeps _ Keeps-const) λ node_id.
                    Ensures-bind _ _ (Ensures-Keeps _ Keeps-const) λ _.
                      Ensures-bind _ _ (bind_session-Ensures claims session)
                        λ _. Ensures-Keeps _ (Keeps-send_message _)

-- If an attach succeeds, the token is one that the node takes at some moment with its secret and its
-- own id, and the connection is bound to the session, the intent and the room of that token's claims.
pub handle_attach-IsAttached :
    ⦃v : Services⦄ (token : String) (c : Conn)
    → (handle_attach token c).0 ≡ ok tt
    → IsAttached c.node.config token (handle_attach token c).1
unfolding HasConfig
handle_attach-IsAttached token c e =
    (handle_attach-Ensures {config = c.node.config} {token = token}).at c tt refl e
