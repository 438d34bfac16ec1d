-- ===== src/Connector/Freshness/Create.antt =====
-- services/connector/src/main.rs: `/create` replies only while the supervisor is fresh.
use callifornia.Commands.Laws.{IsRedis}
use callifornia.Commands.Rules.{On, Ensures-send}
use callifornia.Connector.Clock.{IsClock, After, After-status}
use callifornia.Connector.Config.{Config}
use callifornia.Connector.Handlers.{check_supervisor_freshness, create, is_older, on_redis}
use callifornia.Connector.Lease.{Keeps-validated}
use callifornia.Connector.Message.{CreateRequest, SignalingReadyResponse}
use callifornia.Connector.Redis.{get_supervisor_status}
use callifornia.ControlStore
use callifornia.ControlStore.{SupervisorStatus, query, supervisor_heartbeat_key}
use callifornia.ControlStore.Heartbeat.{read_supervisor_status, to_status}
use callifornia.Exec.{ok, pure, total}
use callifornia.Exec.Ensures.{
  Ensures, Ensures-bind, Ensures-Keeps, Ensures-map_err, Ensures-or_raise, Ensures-guard,
  Ensures-const, Ensures-weaken,
}
use callifornia.Numerals.{pos, minus, ltz}
use callifornia.Numerals.Words.{as_i64-small, ltz-minus}
use callifornia.Prelude.{
  ℕ, ◌+◌, ◌≤◌, ◌<◌, ◌^◌, Option, some, true, not, ◌≡◌, refl, ap, sym, ◌∙◌, arith,
}
use callifornia.Services.{Services}

module _ ⦃v : Services⦄ where
  -- The data have a heartbeat of the supervisor; its time, if it is not negative, is at most `stale`
  -- before the moment.
  pub record IsFresh (stale since : ℕ) (d : v.Db) : Type 0 where
    pub status : SupervisorStatus
    pub found : to_status (v.hgetall supervisor_heartbeat_key d) ≡ some status
    pub recent : (n : ℕ) → status.last_seen_unix ≡ pos n → since ≤ n + stale

module _ ⦃v : Services⦄ (laws : IsRedis) (clock : IsClock) (known : v.Db) (since : ℕ)
    (config : Config) where
  -- The data are these, and it is this time or later.
  Begun : v.Ext → Type 0
  Begun x = (laws.db x ≡ known) × After since x

  Found : Option SupervisorStatus → Type 0
  Found found = found ≡ to_status (v.hgetall supervisor_heartbeat_key known)

  read-Ensures :
      Ensures (On laws (λ d. d ≡ known)) (on_redis get_supervisor_status) (λ found _. Found found)
  unfolding get_supervisor_status read_supervisor_status query pure Found
  read-Ensures = Ensures-map_err _ _ (
      Ensures-map_err _ _ (
        Ensures-bind {R = λ found _. Found found} _ _
          (Ensures-send laws ControlStore.redis (λ d. d ≡ known)
            (λ values _. values ≡ v.hgetall supervisor_heartbeat_key known) _
            (λ d h. ap (v.hgetall supervisor_heartbeat_key) h))
          λ values. record { at = λ y found h e. cc (h, e) }))

  status-Ensures :
      Ensures Begun (on_redis get_supervisor_status) (λ found x. After since x × Found found)
  unfolding Begun
  status-Ensures = record {
    at = λ x found h e. ((After-status clock since).at x h.1, read-Ensures.at x found h.0 e);
  }

  not_older :
      (now n : ℕ)
      → config.supervisor_stale_sec < 2 ^ 63
      → not (is_older now config.supervisor_stale_sec (pos n)) ≡ true
      → now ≤ n + config.supervisor_stale_sec
  unfolding is_older
  not_older now n small h = ground (
    arith,
    ap (λ s. not (ltz s (minus now (pos n)))) (as_i64-small config.supervisor_stale_sec small),
    ltz-minus now n config.supervisor_stale_sec,
    h,
  )

  now-Ensures :
      {E C : Type 0}
      → Ensures (λ x. After since x × C) (total {E = E} v.unix_now) (λ now _. (since ≤ now) × C)
  unfolding total After
  now-Ensures = record {
    at = λ x now h e. (let same : (v.unix_now x).0 ≡ now = cc in rw (← same) h.0, h.1);
  }

  check-Ensures :
      config.supervisor_stale_sec < 2 ^ 63
      → Ensures Begun
          (check_supervisor_freshness config)
          (λ _ _. IsFresh config.supervisor_stale_sec since known)
  unfolding check_supervisor_freshness Found
  check-Ensures small = Ensures-bind _ _ status-Ensures λ found.
      Ensures-bind _ _
        (Ensures-weaken _ (λ status x h. (h.0.0, sym h.0.1 ∙ h.1)) (Ensures-or_raise found _))
        λ status. Ensures-bind _ _ now-Ensures λ now.
          Ensures-weaken _
            (λ _ x h. record {
              status = status;
              found = h.0.1;
              recent = λ n e.
                  let later : now ≤ n + config.supervisor_stale_sec =
                    not_older now n small
                      (ap (λ t. not (is_older now config.supervisor_stale_sec t)) (sym e) ∙ h.1) in
                  omega (arith, later, h.0.0);
            })
            (Ensures-guard _ _)

module _ ⦃v : Services⦄ (laws : IsRedis) (clock : IsClock) where
  -- If `/create` replies, then Redis has a heartbeat of the supervisor when the request comes, and its
  -- time, if it is not negative, is at most `supervisor_stale_sec` before the request. Redis works as
  -- documented, the clock does not go back, and `supervisor_stale_sec` is below 2^63.
  pub create-IsFresh :
      (config : Config) (payload : CreateRequest) (x : v.Ext) (reply : SignalingReadyResponse)
      → config.supervisor_stale_sec < 2 ^ 63
      → (create config payload x).0 ≡ ok reply
      → IsFresh config.supervisor_stale_sec (v.unix_now x).0 (laws.db x)
  unfolding create Begun After
  create-IsFresh config payload x reply small e =
      let since = (v.unix_now x).0 in
      (Ensures-bind {R = λ _ _. IsFresh config.supervisor_stale_sec since (laws.db x)} _ _
          (Ensures-Keeps {P = Begun laws clock (laws.db x) since config} _
            (Keeps-validated config _ _))
          λ _.
            Ensures-bind _ _
              (Ensures-map_err _ _ (check-Ensures laws clock (laws.db x) since config small))
              λ _. Ensures-const _ (λ s h. h)).at
        x reply (refl, omega arith) e
