-- ===== src/Supervisor/Monitor/Outage.antt =====
-- services/supervisor/src/main.rs: what the loop that watches Redis does in an outage.
use callifornia.ControlStore.{redis}
use callifornia.ControlStore.Heartbeat.{health_ping, ping_reply}
use callifornia.Exec.{ok, err, pure, raise, total, attempt, when, ◌>>=◌}
use callifornia.Exec.Leads.{quiet-bind}
use callifornia.Prelude.{ℕ, suc, Bool, true, false, ◌≡◌, refl, ◌∙◌}
use callifornia.Services.{Services, failure}
use callifornia.Supervisor.Config.{Config}
use callifornia.Supervisor.Monitor.{note_ping, check_redis, monitor}
use callifornia.Supervisor.Probes.{Probe, purge_all_signaling_for_redis_down}

module _ ⦃v : Services⦄ where
  -- So many pings in a row that Redis does not answer.
  pub data Silent : ℕ → v.Ext → v.Ext → Type 0 where
    stop : {x : v.Ext} → Silent 0 x x
    next : {n : ℕ} {x y z : v.Ext} → v.ping x ≡ (false, y) → Silent n y z → Silent (suc n) x z

module _ ⦃v : Services⦄ {A : Type 0} where
  -- Of an action without errors, only the state that it leaves matters to what follows.
  bind-ok :
      {B : Type 0} (m : Probe A) (f : A → Probe B) (s : v.Ext) (a : A) (s' : v.Ext)
      → m s ≡ (ok a, s')
      → (m >>= f) s ≡ f a s'
  unfolding ◌>>=◌
  bind-ok m f s a s' e = rw e refl

module _ ⦃v : Services⦄ (config : Config) where
  health_ping-silent :
      {x y : v.Ext}
      → v.ping x ≡ (false, y)
      → attempt {D = ⊥} health_ping x ≡ (ok (err (redis failure)), y)
  unfolding attempt health_ping ping_reply total raise ◌>>=◌
  health_ping-silent e = rw e refl

  note_ping-down : (y : v.Ext) → note_ping config true (err (redis failure)) y ≡ (ok true, y)
  unfolding note_ping when pure ◌>>=◌
  note_ping-down y = refl

  note_ping-purge :
      (y : v.Ext)
      → note_ping config false (err (redis failure)) y
        ≡ (ok true, (purge_all_signaling_for_redis_down config y).1)
  unfolding note_ping when
  note_ping-purge y =
      let (_, _, e) =
        quiet-bind (when true (purge_all_signaling_for_redis_down config)) (λ _. pure true) y in
      e ∙ unfold pure in refl

  check_redis-silent :
      {x y : v.Ext} (down : Bool)
      → v.ping x ≡ (false, y)
      → check_redis config down x ≡ note_ping config down (err (redis failure)) y
  unfolding check_redis
  check_redis-silent down e = bind-ok _ _ _ _ _ (health_ping-silent e)

  monitor-Silent : {n : ℕ} {x z : v.Ext} → Silent n x z → monitor config n true x ≡ (ok true, z)
  unfolding monitor
  monitor-Silent stop = unfold pure in refl
  monitor-Silent (next {y} e more) =
      bind-ok _ _ _ _ _ (check_redis-silent true e ∙ note_ping-down y) ∙ monitor-Silent more

  -- If Redis was up and a ping is not answered, all the signaling nodes are asked to purge, and while
  -- the pings that follow are not answered either, none is asked again: an outage of whatever length
  -- causes one purge.
  pub monitor-outage :
      {n : ℕ} {x y z : v.Ext}
      → v.ping x ≡ (false, y)
      → Silent n (purge_all_signaling_for_redis_down config y).1 z
      → monitor config (suc n) false x ≡ (ok true, z)
  unfolding monitor
  monitor-outage {y} e more =
      bind-ok _ _ _ _ _ (check_redis-silent false e ∙ note_ping-purge y) ∙ monitor-Silent more
