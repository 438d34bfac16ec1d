-- ===== src/Tests/Laws.antt =====
-- The outside world of the tests works as documented.
use callifornia.Commands.Laws.{IsRedis}
use callifornia.Connector.Clock.{IsClock}
use callifornia.Exec.{Result, ok, err}
use callifornia.Map.{Map, lookup, insert, remove, lookup-insert, lookup-remove}
use callifornia.Numerals.{pos, ltz}
use callifornia.Prelude.{
  ℕ, ◌<◌, ◌≤◌, arith, String, [], Option, none, some, Bool, true, false, ◌==◌, eq_refl, ◌⊎◌, inl,
  inr, ◌≡◌, refl, if◌then◌else◌, get_or,
}
use callifornia.Services.{Fault}
use callifornia.Tests.World.{toy, Db, Ext, table, is_there}

module _ {A : Type 0} where
  abbrev reply : Bool → Ext → A × Db → Result Fault A × Ext
  reply reachable x r =
      if reachable then (ok r.0, record x { db = r.1 }) else (err Fault.timeout, x)

  reply-delivered :
      (reachable : Bool) (x : Ext) (r : A × Db)
      → ((reply reachable x r).1.db ≡ x.db) ⊎ ((reply reachable x r).1.db ≡ r.1)
  reply-delivered true x r = inr refl
  reply-delivered false x r = inl refl

  reply-answered :
      (reachable : Bool) (x : Ext) (r : A × Db) (a : A)
      → (reply reachable x r).0 ≡ ok a
      → (a ≡ r.0) × ((reply reachable x r).1.db ≡ r.1)
  reply-answered true x r a e = (cc, refl)
  reply-answered false x r a e = absurd cc

table-insert :
    {A : Type 0} (key other : String) (m : Map A) (tables : Map (Map A))
    → table other (insert key m tables) ≡ (if key == other then m else table other tables)
table-insert key other m tables = rw (lookup-insert key other m tables) (go (key == other))
  where
    go :
        (b : Bool)
        → get_or (if b then some m else lookup other tables) []
          ≡ (if b then m else table other tables)
    go true = refl
    go false = refl

table-remove :
    (key other : String) (tables : Map (Map String))
    → table other (remove key tables) ≡ (if key == other then [] else table other tables)
table-remove key other tables = rw (lookup-remove key other tables) (go (key == other))
  where
    go :
        (b : Bool)
        → get_or (if b then none else lookup other tables) []
          ≡ (if b then [] else table other tables)
    go true = refl
    go false = refl

-- What `put_string` does, by what stands under the key.
abbrev put : String → String → Db → Option String → Bool × Db
put key value d held =
    if is_there held then (false, d) else (true, record d { strings = insert key value d.strings })

put-get :
    (key value : String) (d : Db) (held : Option String)
    → (put key value d held).0 ≡ true
    → (held ≡ none) × (lookup key (put key value d held).1.strings ≡ some value)
put-get key value d none h = (refl, rw (lookup-insert key key value d.strings, eq_refl key) refl)
put-get key value d (some s) h = absurd cc

positive : (ttl : ℕ) → 0 < ttl → ltz (pos 0) (pos ttl) ≡ true
unfolding ltz
positive ttl h = ground (arith, h)

forward :
    {A : Type 0} (reachable : Bool) (x : Ext) (r : A × Db) → x.clock ≤ (reply reachable x r).1.clock
forward true x r = omega arith
forward false x r = omega arith

pub toy_laws : IsRedis
toy_laws = record {
  db = λ x. x.db;
  delivered = λ f x. reply-delivered x.reachable x (f x.db);
  answered = λ f x a e. reply-answered x.reachable x (f x.db) a e;
  db-unix_now = λ x. refl;
  db-new_uuid = λ x. refl;
  lookup-hset = λ key field value other d.
      rw (table-insert key key (insert field value (table key d.hashes)) d.hashes, eq_refl key)
        (lookup-insert field other value (table key d.hashes));
  hgetall-hset = λ key field value other d e.
      rw (table-insert key other (insert field value (table key d.hashes)) d.hashes, e) refl;
  hgetall-del = λ key other d. table-remove key other d.hashes;
  hgetall-zadd = λ key member other score d. refl;
  hgetall-zincr = λ key member other n d. refl;
  hgetall-zrem = λ key member other d. refl;
  hgetall-zremrangebyscore = λ key other cutoff d. refl;
  hgetall-expire = λ key other ttl d h. rw (positive ttl h) refl;
  set_nx-get = λ key value d h. put-get key value d (lookup key d.strings) h;
  get-hset = λ key field value other d. refl;
  get-expire = λ key other ttl d h. rw (positive ttl h) refl;
  zscore-zadd = λ key member other score d.
      rw (table-insert key key (insert member score (table key d.scores)) d.scores, eq_refl key)
        (lookup-insert member other score (table key d.scores));
}

pub db_toy : (x : Ext) → toy_laws.db x ≡ x.db
unfolding toy_laws
db_toy x = refl

pub toy_clock : IsClock
toy_clock = record {
  deliver_forward = λ f x. forward x.reachable x (f x.db);
  unix_now_forward = λ x. omega arith;
}
