-- ===== src/Connector/Tokens.antt =====
-- services/connector/src/main.rs and services/signaling/src/auth.rs: a token that the connector hands
-- out, at the node that it is for.
use callifornia.Connector.Config.{Config, SignalingInstance, signaling_by_id}
use callifornia.Connector.Errors.{HandlerError, unknown_signaling_route}
use callifornia.Connector.Handlers.{
  create, join, issue_signaling_token, ready, select_least_loaded_signaling,
}
use callifornia.Connector.Message.{CreateRequest, JoinRequest, SignalingReadyResponse}
use callifornia.Connector.Token.{issue_token}
use callifornia.Connector.Nodes.{chosen-Mem, found-Mem}
use mathlib.Core.List.{Memᴰ}
use callifornia.Exec.{Result, ok, pure, or_raise, total, guard, ◌>>=◌}
use callifornia.Exec.Ensures.{
  Ensures, Ensures-bind, Ensures-Keeps, Ensures-weaken, Ensures-or_raise,
}
use callifornia.Exec.Keeps.{Keeps-map_err}
use callifornia.Connector.Lease.{Keeps-validated}
use callifornia.Connector.Clock.{
  IsClock, After, After-loads, After-alive, After-freshness, After-session, After-route,
}
use callifornia.Message.{Claims}
use callifornia.Prelude.{ℕ, ◌+◌, ◌/◌, ◌≤◌, String, Option, none, some, arith, ◌≡◌, refl, eq_refl}
use callifornia.Services.{Services}
use callifornia.Signaling.Auth.{validate_connector_token}

module _ ⦃v : Services⦄ where
  -- The token was encoded, at some moment, from claims for that session, node, intent and room, which
  -- do not expire before the given time.
  pub record IsIssued (until : ℕ) (secret token session_id node intent : String)
      (room_id : Option String) : Type 0 where
    pub claims : Claims
    pub moment : v.Ext
    pub encoded : (v.encode_token secret claims moment).0 ≡ some token
    pub for_session : claims.session_id ≡ session_id
    pub for_node : claims.signaling_instance_id ≡ node
    pub for_intent : claims.intent ≡ intent
    pub for_room : claims.room_id ≡ room_id
    pub lasts : until ≤ claims.exp

  or_raise-ok :
      {A : Type 0} (o : Option A) (e : HandlerError) (x : v.Ext) (a : A)
      → (or_raise o e x).0 ≡ ok a
      → o ≡ some a
  unfolding or_raise
  or_raise-ok none e x a h = absurd cc
  or_raise-ok (some b) e x a h = cc

  issue_signaling_token-Ensures :
      (config : Config) (id nickname node intent : String) (room_id : Option String) (since : ℕ)
      → {C : Type 0}
      → Ensures
          (λ x. After since x × C)
          (issue_signaling_token config id nickname node intent room_id)
          (λ token _.
            C
            × IsIssued
                (since + config.token_ttl_ms / 1000)
                config.token_secret
                token
                id
                node
                intent
                room_id)
  unfolding issue_signaling_token issue_token total After ◌>>=◌
  issue_signaling_token-Ensures config id nickname node intent room_id since = record {
    at = λ x token h e. (
      h.1,
      record {
        claims = _;
        moment = (v.new_uuid (v.unix_now x).1).1;
        encoded = or_raise-ok _ HandlerError.token _ token e;
        for_session = refl;
        for_node = refl;
        for_intent = refl;
        for_room = refl;
        lasts = omega (arith, h.0);
      },
    );
  }

  -- The reply has the address of a node, and a token for that node.
  pub record IsReply (config : Config) (until : ℕ) (session_id intent : String)
      (room_id : Option String) (reply : SignalingReadyResponse) : Type 0 where
    pub node : SignalingInstance
    pub configured : Memᴰ node config.signaling_instances
    pub address : reply.signaling_url ≡ node.ws_url
    pub issued : IsIssued until config.token_secret reply.token session_id node.id intent room_id

  ready-Ensures :
      (config : Config) (until : ℕ) (session_id intent : String) (room_id : Option String)
      (signaling : SignalingInstance) (token : String)
      → Ensures {S = v.Ext}
          (λ _.
            Memᴰ signaling config.signaling_instances
            × IsIssued until config.token_secret token session_id signaling.id intent room_id)
          (pure {E = HandlerError} (ready config session_id signaling token))
          (λ reply _. IsReply config until session_id intent room_id reply)
  unfolding pure ready
  ready-Ensures config until session_id intent room_id signaling token = record {
    at = λ x reply h e.
        rw (← replied e)
          (record { node = signaling; configured = h.0; address = refl; issued = h.1 });
  }
    where
      replied :
          {r s : SignalingReadyResponse} → ◌≡◌ {A = Result HandlerError _} (ok r) (ok s) → r ≡ s
      replied e = cc

  -- At this moment a token that was encoded with a secret is decoded with it to its claims, unless
  -- they have expired.
  unfoldable pub Decodes : v.Ext → Type 0
  Decodes y =
      (secret : String) (claims : Claims) (x : v.Ext) (token : String)
      → (v.encode_token secret claims x).0 ≡ some token
      → (v.unix_now y).0 ≤ claims.exp
      → (v.decode_token secret token y).0 ≡ some claims

  -- The address in the reply is that of a configured node, which accepts the token and reads these in
  -- it.
  pub record IsAdmitted (config : Config) (session_id intent : String) (room_id : Option String)
      (reply : SignalingReadyResponse) (y : v.Ext) : Type 0 where
    pub node : SignalingInstance
    pub claims : Claims
    pub configured : Memᴰ node config.signaling_instances
    pub address : reply.signaling_url ≡ node.ws_url
    pub accepted :
        (validate_connector_token reply.token config.token_secret node.id y).0 ≡ ok claims
    pub for_session : claims.session_id ≡ session_id
    pub for_intent : claims.intent ≡ intent
    pub for_room : claims.room_id ≡ room_id

  admitted :
      {config : Config} {until : ℕ} {session_id intent : String} {room_id : Option String}
      {reply : SignalingReadyResponse} (y : v.Ext)
      → Decodes y
      → (v.unix_now y).0 ≤ until
      → IsReply config until session_id intent room_id reply
      → IsAdmitted config session_id intent room_id reply y
  unfolding validate_connector_token total or_raise guard pure Decodes ◌>>=◌
  admitted {config} {reply} y decodes early i = record {
    node = i.node;
    claims = i.issued.claims;
    configured = i.configured;
    address = i.address;
    accepted =
        rw
          (
            decodes config.token_secret i.issued.claims i.issued.moment reply.token i.issued.encoded
                (omega (arith, early, i.issued.lasts)),
            i.issued.for_node,
            eq_refl i.node.id,
          )
          refl;
    for_session = i.issued.for_session;
    for_intent = i.issued.for_intent;
    for_room = i.issued.for_room;
  }

module _ ⦃v : Services⦄ (clock : IsClock) (config : Config) (since : ℕ) where
  until : ℕ
  until = since + config.token_ttl_ms / 1000

  chosen-Ensures :
      Ensures
        (After since)
        (select_least_loaded_signaling config)
        (λ inst x. After since x × Memᴰ inst config.signaling_instances)
  unfolding select_least_loaded_signaling
  chosen-Ensures = Ensures-bind _ _ (Ensures-Keeps _ (After-loads clock since)) λ loads.
      Ensures-bind _ _ (Ensures-Keeps _ (After-alive clock since _)) λ alive.
        Ensures-weaken _
          (λ inst x h. (h.0, chosen-Mem loads alive config.signaling_instances inst h.1))
          (Ensures-or_raise _ _)

  found-Ensures :
      (id : String)
      → Ensures
          (After since)
          (or_raise (signaling_by_id config id) unknown_signaling_route)
          (λ inst x. After since x × Memᴰ inst config.signaling_instances)
  unfolding signaling_by_id
  found-Ensures id =
      Ensures-weaken _ (λ inst x h. (h.0, found-Mem id config.signaling_instances inst h.1))
        (Ensures-or_raise _ _)

  create-Ensures :
      (payload : CreateRequest)
      → Ensures
          (After since)
          (create config payload)
          (λ reply _. IsReply config until payload.session_id "create" none reply)
  unfolding create until
  create-Ensures payload = Ensures-bind _ _ (Ensures-Keeps _ (Keeps-validated config _ _)) λ _.
      Ensures-bind _ _ (Ensures-Keeps _ (Keeps-map_err _ _ (After-freshness clock since config)))
        λ _. Ensures-bind _ _ (Ensures-Keeps _ (After-session clock since config _)) λ session.
          Ensures-bind _ _ chosen-Ensures λ signaling.
            Ensures-bind _ _ (issue_signaling_token-Ensures config _ _ _ _ _ since)
              λ token. ready-Ensures config _ _ _ _ _ _

  join-Ensures :
      (payload : JoinRequest)
      → Ensures
          (After since)
          (join config payload)
          (λ reply _. IsReply config until payload.session_id "join" (some payload.room_id) reply)
  unfolding join until
  join-Ensures payload = Ensures-bind _ _ (Ensures-Keeps _ (Keeps-validated config _ _)) λ _.
      Ensures-bind _ _ (Ensures-Keeps _ (After-session clock since config _)) λ session.
        Ensures-bind _ _ (Ensures-Keeps _ (After-route clock since _)) λ route.
          Ensures-bind _ _ (found-Ensures route.signaling_instance_id) λ signaling.
            Ensures-bind _ _ (issue_signaling_token-Ensures config _ _ _ _ _ since)
              λ token. ready-Ensures config _ _ _ _ _ _

module _ ⦃v : Services⦄ (clock : IsClock) where
  -- If `/create` replies, the address in the reply is that of a configured node, and for
  -- `token_ttl_ms` from the request on that node accepts the reply's token, with the same secret, and
  -- reads in it the session of the request, the intent `create` and no room. The clock does not go
  -- back, and a token is decoded with its secret until its claims expire.
  pub create-IsAdmitted :
      (config : Config) (payload : CreateRequest) (x y : v.Ext) (reply : SignalingReadyResponse)
      → (create config payload x).0 ≡ ok reply
      → Decodes y
      → (v.unix_now y).0 ≤ (v.unix_now x).0 + config.token_ttl_ms / 1000
      → IsAdmitted config payload.session_id "create" none reply y
  unfolding until After
  create-IsAdmitted config payload x y reply e decodes early =
      admitted y decodes early
        ((create-Ensures clock config (v.unix_now x).0 payload).at x reply (omega arith) e)

  -- If `/join` replies, the address in the reply is that of a configured node, and for `token_ttl_ms`
  -- from the request on that node accepts the reply's token, with the same secret, and reads in it
  -- the session and the room of the request, and the intent `join`. The clock does not go back, and a
  -- token is decoded with its secret until its claims expire.
  pub join-IsAdmitted :
      (config : Config) (payload : JoinRequest) (x y : v.Ext) (reply : SignalingReadyResponse)
      → (join config payload x).0 ≡ ok reply
      → Decodes y
      → (v.unix_now y).0 ≤ (v.unix_now x).0 + config.token_ttl_ms / 1000
      → IsAdmitted config payload.session_id "join" (some payload.room_id) reply y
  unfolding until After
  join-IsAdmitted config payload x y reply e decodes early =
      admitted y decodes early
        ((join-Ensures clock config (v.unix_now x).0 payload).at x reply (omega arith) e)
