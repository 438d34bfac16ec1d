-- ===== src/Connector/Handlers.antt =====
-- services/connector/src/main.rs: the handlers of the requests.
use callifornia.Connector.Config.{Config, SignalingInstance, signaling_by_id}
use callifornia.Connector.Errors.{
  HandlerError, unauthorized, signaling_unavailable, unknown_signaling_route, token,
  supervisor_unavailable, invalid_payload, map_redis_error,
}
use callifornia.Connector.Message.{
  ValidationError, AuthRequest, AuthResponse, CreateRequest, JoinRequest, LogoutRequest,
  SessionRenewRequest, SignalingReadyResponse, validate_auth, validate_session_id, validate_join,
}
use callifornia.Connector.Redis.{
  Redis, RedisError, SessionData, reserve_nickname, nick_owner_get, release_nick_lease,
  session_create, session_delete, session_get, session_refresh_ttl, get_room_route,
  load_signaling_loads, alive_signaling_nodes, get_supervisor_status,
}
use callifornia.Connector.Token.{issue_token}
use callifornia.ControlStore.Select.{min_by}
use callifornia.Exec.{
  Result, ok, err, Action, pure, raise, or_raise, total, guard, map_err, attempt, ignore, ◌>>=◌,
  ◌>>◌,
}
use callifornia.Map.{lookup, contains}
use callifornia.Numerals.{ℤ, as_i64, minus, ltz}
use callifornia.Prelude.{ℕ, String, List, Option, none, some, Bool, not, get_or, is_text, filter}
use callifornia.Services.{Services}
use callifornia.Texts.{trim}

-- `now - last_seen > stale as i64`
unfoldable pub is_older : ℕ → ℕ → ℤ → Bool
is_older now stale last_seen = ltz (as_i64 stale) (minus now last_seen)

abbrev pub load_of : List (String × ℕ) → SignalingInstance → ℕ
load_of loads inst = get_or (lookup inst.id loads) 0

unfoldable pub choose :
    List (String × ℕ) → List String → List SignalingInstance → Option SignalingInstance
unfolding min_by
choose loads alive instances =
    min_by (load_of loads) (filter (λ inst. contains inst.id alive) instances)

module _ ⦃v : Services⦄ where
  abbrev pub Handler : Type 0 → Type 0
  Handler A = Action v.Ext HandlerError A

module _ ⦃v : Services⦄ {A : Type 0} where
  -- `.await.map_err(map_redis_error)?`
  abbrev pub on_redis : Redis A → Handler A
  on_redis m = map_err map_redis_error m

module _ ⦃v : Services⦄ (config : Config) where
  -- `payload.validate().map_err(|_| HandlerError::InvalidPayload(message))?`
  unfoldable pub validated : Result ValidationError (Unit {0}) → String → Handler (Unit {0})
  validated (ok _) message = pure tt
  validated (err e) message = raise (invalid_payload message)

  unfoldable pub check_supervisor_freshness : Handler (Unit {0})
  unfolding is_older
  check_supervisor_freshness = do
    found ← on_redis get_supervisor_status
    status ← or_raise found supervisor_unavailable
    now ← total v.unix_now
    guard (not (is_older now config.supervisor_stale_sec status.last_seen_unix))
        supervisor_unavailable

  unfoldable pub select_least_loaded_signaling : Handler SignalingInstance
  unfolding choose
  select_least_loaded_signaling = do
    loads ← on_redis load_signaling_loads
    alive ← on_redis (alive_signaling_nodes config.signaling_stale_timeout)
    or_raise (choose loads alive config.signaling_instances) signaling_unavailable

  unfoldable pub issue_signaling_token :
      String → String → String → String → Option String → Handler String
  issue_signaling_token session_id nickname signaling_instance_id intent room_id = do
    issued ←
        issue_token config.token_secret config.token_ttl_ms session_id nickname
          signaling_instance_id intent room_id
    or_raise issued token

  -- `if let Err(err) = session_create(…) { … return Err(…) }`
  unfoldable pub settle : String → String → Result RedisError (Unit {0}) → Handler (Unit {0})
  settle nickname session_id (ok _) = pure tt
  settle nickname session_id (err e) = do
    ignore (release_nick_lease nickname session_id)
    raise (map_redis_error e)

  unfoldable pub auth : AuthRequest → Handler AuthResponse
  unfolding validate_auth
  auth payload = do
    validated (validate_auth payload) "Invalid auth request"
    let nickname = trim payload.nickname
    session_id ← total v.new_uuid
    on_redis (reserve_nickname nickname session_id)
    created ← attempt (session_create session_id nickname config.session_ttl)
    settle nickname session_id created
    pure (record { nickname = nickname; session_id = session_id })

  unfoldable pub known_session : String → Handler SessionData
  known_session session_id = do
    found ← on_redis (session_get session_id)
    or_raise found unauthorized

  unfoldable pub ready : String → SignalingInstance → String → SignalingReadyResponse
  ready session_id signaling issued = record {
    signaling_url = signaling.ws_url;
    session_id = session_id;
    token = issued;
  }

  unfoldable pub create : CreateRequest → Handler SignalingReadyResponse
  unfolding validate_session_id
  create payload = do
    validated (validate_session_id v.is_uuid payload.session_id) "Invalid create request"
    map_err (λ _. supervisor_unavailable) check_supervisor_freshness
    session ← known_session payload.session_id
    signaling ← select_least_loaded_signaling
    issued ← issue_signaling_token payload.session_id session.nickname signaling.id "create" none
    pure (ready payload.session_id signaling issued)

  unfoldable pub join : JoinRequest → Handler SignalingReadyResponse
  unfolding validate_join signaling_by_id
  join payload = do
    validated (validate_join v.is_uuid payload) "Invalid join request"
    session ← known_session payload.session_id
    route ← on_redis (get_room_route payload.room_id)
    signaling ←
        or_raise (signaling_by_id config route.signaling_instance_id) unknown_signaling_route
    issued ←
        issue_signaling_token payload.session_id session.nickname signaling.id "join"
          (some payload.room_id)
    pure (ready payload.session_id signaling issued)

  unfoldable pub forget : String → Option SessionData → Handler (Unit {0})
  forget session_id none = pure tt
  forget session_id (some session) = do
    ignore (session_delete session_id)
    ignore (release_nick_lease session.nickname session_id)

  -- The replies without a body: `StatusCode::NO_CONTENT`.
  unfoldable pub logout : LogoutRequest → Handler (Unit {0})
  logout payload = do
    validated (validate_session_id v.is_uuid payload.session_id) "Invalid logout request"
    session ← on_redis (session_get payload.session_id)
    forget payload.session_id session

  unfoldable pub session_renew : SessionRenewRequest → Handler (Unit {0})
  session_renew payload = do
    validated (validate_session_id v.is_uuid payload.session_id) "Invalid session renew request"
    session ← known_session payload.session_id
    owner ← on_redis (nick_owner_get session.nickname)
    guard (is_text owner payload.session_id) unauthorized
    renewed ← on_redis (session_refresh_ttl payload.session_id config.session_ttl)
    guard renewed unauthorized
