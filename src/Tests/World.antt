-- ===== src/Tests/World.antt =====
-- An outside world for the tests: Redis as four maps, an SFU that agrees, and a channel that is
-- closed if its number is 0.
use callifornia.Exec.{ok, err}
use callifornia.Map.{Map, lookup, insert, remove, contains, add, discard}
use callifornia.Message.{Claims}
use callifornia.Numerals.{pos, ltz, lez}
use callifornia.Prelude.{
  ℕ, ◌+◌, String, List, [], Option, none, some, Bool, true, false, not, ◌==◌, if◌then◌else◌, get_or,
  length, nat_eq, ◌||◌, ◌&&◌, leb, map, filter,
}
use callifornia.Services.{Services, Fault, SfuInstance}

pub record Db : Type 0 where
  pub hashes : Map (Map String)
  pub sets : Map (List String)
  pub strings : Map String
  pub scores : Map (Map ℕ)

pub record Ext : Type 0 where
  pub db : Db
  pub clock : ℕ
  pub reachable : Bool

module _ {A : Type 0} where
  abbrev pub table : String → Map (Map A) → Map A
  table key m = get_or (lookup key m) []

  abbrev pub is_there : Option A → Bool
  is_there none = false
  is_there (some a) = true

abbrev pub put_string : String → String → Db → Bool × Db
put_string key value d =
    if is_there (lookup key d.strings)
    then (false, d)
    else (true, record d { strings = insert key value d.strings })

abbrev pub delete_key : String → Db → ℕ × Db
delete_key key d = (
  if is_there (lookup key d.hashes)
        || is_there (lookup key d.sets)
        || is_there (lookup key d.strings)
      then 1
      else 0,
  record d {
    hashes = remove key d.hashes;
    sets = remove key d.sets;
    strings = remove key d.strings;
  },
)

abbrev pub remove_member : String → String → Db → ℕ × Db
remove_member key m d =
    let members = get_or (lookup key d.sets) [] in
    (if contains m members then 1 else 0, record d { sets = insert key (discard m members) d.sets })

abbrev pub instance_a : SfuInstance
instance_a = record {
  instance_id = "sfu-1";
  grpc_addr = "http://sfu:50051";
  max_rooms = 2;
  alive = true;
  state = "ready";
  last_ping_unix = pos 100;
  idle_since_unix = pos 90;
}

abbrev pub claims_create : Claims
claims_create = record {
  jti = "r1";
  session_id = "s1";
  nickname = "ann";
  signaling_instance_id = "node:8080";
  intent = "create";
  room_id = none;
  iat = 100;
  exp = 220;
}

abbrev pub claims_join : Claims
claims_join = record claims_create { intent = "join"; room_id = some "r1" }

abbrev pub is_same : Claims → Claims → Bool
is_same a b =
    a.jti == b.jti
    && (a.session_id == b.session_id)
    && (a.nickname == b.nickname)
    && (a.signaling_instance_id == b.signaling_instance_id)
    && (a.intent == b.intent)
    && (get_or a.room_id "" == get_or b.room_id "")
    && not (
        is_there a.room_id && not (is_there b.room_id)
        || not (is_there a.room_id) && is_there b.room_id)
    && nat_eq a.iat b.iat
    && nat_eq a.exp b.exp

-- The two claims that there is a token for.
abbrev pub token_of : Claims → Option String
token_of claims =
    if is_same claims claims_create
    then some "t1"
    else if is_same claims claims_join
    then some "t2"
    else none

instance abbrev pub toy : Services
toy = record {
  Ext = Ext;
  Db = Db;
  Sender = ℕ;
  hgetall = λ key d. table key d.hashes;
  hset = λ key field value d. record d {
    hashes = insert key (insert field value (table key d.hashes)) d.hashes;
  };
  del = delete_key;
  exists = λ key d. is_there (lookup key d.hashes);
  get = λ key d. lookup key d.strings;
  set_nx = put_string;
  set_nx_ex = λ key value ttl d. put_string key value d;
  set_nx_px = λ key value ttl d. put_string key value d;
  expire = λ key ttl d.
      (is_there (lookup key d.hashes), if ltz (pos 0) ttl then d else (delete_key key d).1);
  sismember = λ key m d. contains m (get_or (lookup key d.sets) []);
  sadd = λ key m d. record d { sets = insert key (add m (get_or (lookup key d.sets) [])) d.sets };
  srem = remove_member;
  smembers = λ key d. get_or (lookup key d.sets) [];
  scard = λ key d. length (get_or (lookup key d.sets) []);
  zscore = λ key m d. lookup m (table key d.scores);
  zadd = λ key m n d. record d { scores = insert key (insert m n (table key d.scores)) d.scores };
  zincr = λ key m n d. record d {
    scores =
        insert key (insert m (get_or (lookup m (table key d.scores)) 0 + n) (table key d.scores))
          d.scores;
  };
  zrem = λ key m d. record d { scores = insert key (remove m (table key d.scores)) d.scores };
  zrange = λ key d. map (λ e. e.0) (table key d.scores);
  zremrangebyscore = λ key cutoff d. record d {
    scores = insert key (filter (λ e. ltz cutoff (pos e.1)) (table key d.scores)) d.scores;
  };
  hdel =
      λ key field d. record d { hashes = insert key (remove field (table key d.hashes)) d.hashes };
  scan_keys = λ cursor pattern d. (0, map (λ e. e.0) d.hashes);
  scan_rounds = 10;
  zrange_withscores = λ key d. table key d.scores;
  zrangebyscore =
      λ key cutoff d. map (λ e. e.0) (filter (λ e. lez cutoff (pos e.1)) (table key d.scores));
  deliver = λ A f x.
      let (a, d) = f x.db in
      if x.reachable then (ok a, record x { db = d }) else (err Fault.timeout, x);
  ping = λ x. (x.reachable, x);
  unix_now = λ x. (x.clock, x);
  new_uuid = λ x. ("r1", x);
  is_uuid = λ s. not (s == "");
  socket_send = λ m x. (ok tt, x);
  socket_ping = λ x. (ok tt, x);
  try_send = λ sender m x. (not (nat_eq sender 0), x);
  connect_sfu = λ addr x. (true, x);
  call_sfu = λ addr request x.
      (ok (record { success = true; error_message = none; sdp = "v=0"; type = 2 }), x);
  ping_signaling_admin = λ addr x. (x.reachable, x);
  close_rooms_by_sfu = λ addr sfu_grpc_addr reason x. (x.reachable, x);
  purge_signaling = λ addr reason x. (true, record x { clock = x.clock + 1 });
  ping_sfu = λ addr x. (x.reachable, x);
  decode_token = λ secret token x. (
    if leb x.clock 220
        then if token == "t1"
          then some claims_create
          else if token == "t2"
          then some claims_join
          else none
        else none,
    x,
  );
  encode_token = λ secret claims x. (token_of claims, x);
  parse_instance = λ json. if json == "sfu-1" then some instance_a else none;
  print_instance = λ inst. inst.instance_id;
  decode_instance = λ json. if json == "sfu-1" then some instance_a else none;
  encode_instance = λ inst. inst.instance_id;
  set_idle_since = λ now json. some json;
}
