-- ===== src/Commands/Laws.antt =====
-- What the services rely on of a Redis server and of the connection to it: the documented behaviour
-- of the commands, and that a command which is not answered was run once or not at all.
use callifornia.Exec.{ok}
use callifornia.Map.{lookup}
use callifornia.Numerals.{ℤ, pos}
use callifornia.Prelude.{ℕ, ◌<◌, String, [], none, some, true, false, ◌==◌, ◌⊎◌, ◌≡◌, if◌then◌else◌}
use callifornia.Services.{Services}

pub record IsRedis ⦃v : Services⦄ : Type 1 where
  -- The data of the server.
  pub db : v.Ext → v.Db
  pub delivered :
      {A : Type 0} (f : v.Db → A × v.Db) (x : v.Ext)
      → (db (v.deliver A f x).1 ≡ db x) ⊎ (db (v.deliver A f x).1 ≡ (f (db x)).1)
  pub answered :
      {A : Type 0} (f : v.Db → A × v.Db) (x : v.Ext) (a : A)
      → (v.deliver A f x).0 ≡ ok a
      → (a ≡ (f (db x)).0) × (db (v.deliver A f x).1 ≡ (f (db x)).1)
  pub db-unix_now : (x : v.Ext) → db (v.unix_now x).1 ≡ db x
  pub db-new_uuid : (x : v.Ext) → db (v.new_uuid x).1 ≡ db x
  pub lookup-hset :
      (key field value other : String) (d : v.Db)
      → lookup other (v.hgetall key (v.hset key field value d))
        ≡ (if field == other then some value else lookup other (v.hgetall key d))
  pub hgetall-hset :
      (key field value other : String) (d : v.Db)
      → (key == other) ≡ false
      → v.hgetall other (v.hset key field value d) ≡ v.hgetall other d
  pub hgetall-del :
      (key other : String) (d : v.Db)
      → v.hgetall other (v.del key d).1 ≡ (if key == other then [] else v.hgetall other d)
  pub hgetall-zadd :
      (key member other : String) (score : ℕ) (d : v.Db)
      → v.hgetall other (v.zadd key member score d) ≡ v.hgetall other d
  pub hgetall-zincr :
      (key member other : String) (n : ℕ) (d : v.Db)
      → v.hgetall other (v.zincr key member n d) ≡ v.hgetall other d
  pub hgetall-zrem :
      (key member other : String) (d : v.Db)
      → v.hgetall other (v.zrem key member d) ≡ v.hgetall other d
  pub hgetall-zremrangebyscore :
      (key other : String) (cutoff : ℤ) (d : v.Db)
      → v.hgetall other (v.zremrangebyscore key cutoff d) ≡ v.hgetall other d
  -- A time to live that is positive changes nothing now.
  pub hgetall-expire :
      (key other : String) (ttl : ℕ) (d : v.Db)
      → 0 < ttl
      → v.hgetall other (v.expire key (pos ttl) d).1 ≡ v.hgetall other d
  -- `SET` with `NX` sets what is not there, and only that.
  pub set_nx-get :
      (key value : String) (d : v.Db)
      → (v.set_nx key value d).0 ≡ true
      → (v.get key d ≡ none) × (v.get key (v.set_nx key value d).1 ≡ some value)
  pub get-hset :
      (key field value other : String) (d : v.Db)
      → v.get other (v.hset key field value d) ≡ v.get other d
  pub get-expire :
      (key other : String) (ttl : ℕ) (d : v.Db)
      → 0 < ttl
      → v.get other (v.expire key (pos ttl) d).1 ≡ v.get other d
  pub zscore-zadd :
      (key member other : String) (score : ℕ) (d : v.Db)
      → v.zscore key other (v.zadd key member score d)
        ≡ (if member == other then some score else v.zscore key other d)
