-- ===== src/Connector/Freshness.antt =====
-- The supervisor's heartbeat, from common/control_store/src/storage.rs to the test in
-- services/connector/src/main.rs.
pub mod Create
use callifornia.Commands.Laws.{IsRedis}
use callifornia.Commands.Rules.{Ensures-send}
use callifornia.Connector.Config.{Config}
use callifornia.Connector.Errors.{supervisor_unavailable}
use callifornia.Connector.Handlers.{check_supervisor_freshness, is_older}
use callifornia.Connector.Redis.{get_supervisor_status}
use callifornia.ControlStore.{
  Store, StoreError, SupervisorStatus, query, write, supervisor_heartbeat_key,
}
use callifornia.ControlStore
use callifornia.ControlStore.Heartbeat.{
  to_status, read_unix, non_empty, write_supervisor_heartbeat, read_supervisor_status,
}
use callifornia.Exec.{ok, err, pure, or_raise, total, guard, map_err, ◌>>=◌}
use callifornia.Exec.Ensures.{Ensures-bind}
use callifornia.Map.{lookup}
use callifornia.Numerals.{print_u64, pos}
use callifornia.Numerals.Words.{as_i64-small, ltz-minus}
use callifornia.Numerals.RoundTrip.{parse_i64-print_u64}
use callifornia.Prelude.{
  ℕ, ◌+◌, ◌<◌, ◌^◌, String, List, [], ◌∷◌, Option, some, ltb, get_or, ◌≡◌, refl, ap, ◌∙◌,
  if◌then◌else◌, Bool-cases, inl, inr,
}
use callifornia.Services.{Services}

module _ ⦃v : Services⦄ where
  -- The last heartbeat is of this time.
  Heard : ℕ → v.Db → Type 0
  Heard now d =
      lookup "last_seen_unix" (v.hgetall supervisor_heartbeat_key d) ≡ some (print_u64 now)

  to_status-seen :
      (values : List (String × String)) (now : ℕ)
      → now < 2 ^ 63
      → lookup "last_seen_unix" values ≡ some (print_u64 now)
      → to_status values
        ≡ some (record {
          last_seen_unix = pos now;
          instance_id = non_empty (lookup "instance_id" values);
        })
  unfolding to_status read_unix
  to_status-seen [] now small h = absurd (unfold lookup in cc)
  to_status-seen (e ∷ values) now small h = rw (h, parse_i64-print_u64 now small) refl

module _ ⦃v : Services⦄ (laws : IsRedis) where
  lookup-seen :
      (who seen : String) (d : v.Db)
      → lookup "last_seen_unix" (
          v.hgetall supervisor_heartbeat_key (
            v.hset supervisor_heartbeat_key "instance_id" who
              (v.hset supervisor_heartbeat_key "last_seen_unix" seen d)))
        ≡ some seen
  lookup-seen who seen d = laws.lookup-hset _ _ _ _ _ ∙ laws.lookup-hset _ _ _ _ d

  write-Heard :
      (who : Option String) (now : ℕ) (x : v.Ext)
      → (write_supervisor_heartbeat who now x).0 ≡ ok tt
      → Heard now (laws.db (write_supervisor_heartbeat who now x).1)
  unfolding write_supervisor_heartbeat write Heard
  write-Heard who now x e =
      (Ensures-send laws ControlStore.redis (λ _. Unit {0}) (λ _. Heard now) _
          λ d _. lookup-seen (get_or who "") (print_u64 now) d).at
        x tt tt e

  status-read :
      (x y : v.Ext) (found : Option SupervisorStatus)
      → read_supervisor_status x ≡ (ok found, y)
      → found ≡ to_status (v.hgetall supervisor_heartbeat_key (laws.db x))
  unfolding read_supervisor_status query pure
  status-read x y found e =
      (Ensures-bind
          {R = λ found _. found ≡ to_status (v.hgetall supervisor_heartbeat_key (laws.db x))} _ _
          (Ensures-send laws ControlStore.redis (λ d. d ≡ laws.db x)
            (λ values _. values ≡ v.hgetall supervisor_heartbeat_key (laws.db x)) _
            (λ d h. ap (v.hgetall supervisor_heartbeat_key) h))
          λ values. record { at = λ y found h e. cc (h, e) }).at
        x found refl (ap (λ p. p.0) e)

  -- If Redis works as documented, the supervisor has written its heartbeat at a time, and that is what
  -- the connector finds when Redis answers, then the connector takes the supervisor for fresh exactly
  -- until `supervisor_stale_sec` after that time. That number and the time are below 2^63.
  pub heartbeat-freshness :
      (config : Config) (who : Option String) (now : ℕ) (x y z : v.Ext)
      (found : Option SupervisorStatus)
      → now < 2 ^ 63
      → config.supervisor_stale_sec < 2 ^ 63
      → (write_supervisor_heartbeat who now x).0 ≡ ok tt
      → laws.db y ≡ laws.db (write_supervisor_heartbeat who now x).1
      → read_supervisor_status y ≡ (ok found, z)
      → (check_supervisor_freshness config y).0 ≡ (
          if ltb (now + config.supervisor_stale_sec) (v.unix_now z).0
          then err supervisor_unavailable
          else ok tt)
  unfolding check_supervisor_freshness get_supervisor_status map_err or_raise total guard is_older
      ◌>>=◌ Heard
  heartbeat-freshness config who now x y z found small in_range written same read =
      let seen = to_status-seen _ now small (write-Heard who now x written) in
      let f =
        status-read y z found read
        ∙ ap (λ d. to_status (v.hgetall supervisor_heartbeat_key d)) same
        ∙ seen in
      rw
        (
          read,
          f,
          as_i64-small config.supervisor_stale_sec in_range,
          ltz-minus (v.unix_now z).0 now config.supervisor_stale_sec,
        )
        (elim (Bool-cases (ltb (now + config.supervisor_stale_sec) (v.unix_now z).0)) [
          | inl e ↦ rw e refl
          | inr e ↦ rw e refl
        ])
