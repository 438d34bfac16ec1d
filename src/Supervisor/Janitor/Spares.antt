-- ===== src/Supervisor/Janitor/Spares.antt =====
-- services/supervisor/src/probes.rs: the operations of the janitor that leave the binding of a room
-- as it is.
use callifornia.Commands.Laws.{IsRedis}
use callifornia.Commands.Rules.{On, Keeps-send, Keeps-unix_now}
use callifornia.ControlStore.{
  Store, RoomBinding, redis, query, write, room_binding_key, room_members_key, session_key,
}
use callifornia.ControlStore.Cleanup.{
  delete_signaling_session, delete_signaling_room_members, delete_room_assignment,
}
use callifornia.ControlStore.Distinct.{
  members_not_binding, session_not_binding, instances_not_binding, room_binding_key-inj,
}
use callifornia.ControlStore.Heartbeat.{
  remove_signaling_node_heartbeats_below, remove_signaling_load,
}
use callifornia.ControlStore.Instances.{
  decrement_sfu_room_load, update_idle_since, get_sfu_instance, parse_found, parse,
  save_sfu_instance,
}
use callifornia.ControlStore.Scan.{scan_loop}
use callifornia.Exec.{total}
use callifornia.Exec.Keeps.{Keeps, Keeps-bind, Keeps-pure, keeps_rules}
use callifornia.Numerals.{ℤ}
use callifornia.Prelude.{
  ℕ, zero, suc, String, List, Option, none, some, Bool, true, false, nat_eq, ◌≡◌, ◌≢◌, refl, ◌∙◌,
}
use callifornia.Services.{Services, SfuInstance}
use callifornia.Supervisor.Janitor.{reclaim}

module _ ⦃v : Services⦄ (room_id : String) (values : List (String × String)) where
  -- The binding of the room is as it was.
  unfoldable pub Bound : v.Db → Type 0
  Bound d = v.hgetall (room_binding_key room_id) d ≡ values

module _ ⦃v : Services⦄ (laws : IsRedis) (room_id : String) (values : List (String × String))
    {A : Type 0} where
  abbrev pub Spares : Store A → Type 0
  Spares m = Keeps (On laws (Bound room_id values)) m

  pub Spares-query : (f : v.Db → A) → Spares (query f)
  unfolding query
  Spares-query f = Keeps-send laws redis (Bound room_id values) _ λ d h. h

module _ ⦃v : Services⦄ (laws : IsRedis) (room_id : String) (values : List (String × String)) where
  pub Spares-write :
      (f : v.Db → v.Db)
      → ((d : v.Db)
          → v.hgetall (room_binding_key room_id) (f d) ≡ v.hgetall (room_binding_key room_id) d)
      → Spares laws room_id values (write f)
  unfolding write Bound
  Spares-write f k = Keeps-send laws redis (Bound room_id values) _ λ d h. k d ∙ h

  pub Spares-unix_now : Spares laws room_id values (total v.unix_now)
  Spares-unix_now = Keeps-unix_now laws (Bound room_id values)

  -- The commands of the operations on other keys.
  pub Spares-delete_members :
      (other : String) → Spares laws room_id values (delete_signaling_room_members other)
  unfolding delete_signaling_room_members
  Spares-delete_members other = Spares-write _ λ d.
      rw
        (
          laws.hgetall-del (room_members_key other) (room_binding_key room_id) d,
          members_not_binding other room_id,
        )
        refl

  pub Spares-delete_session :
      (other : String) → Spares laws room_id values (delete_signaling_session other)
  unfolding delete_signaling_session
  Spares-delete_session other = Spares-write _ λ d.
      rw
        (
          laws.hgetall-del (session_key other) (room_binding_key room_id) d,
          session_not_binding other room_id,
        )
        refl

  pub Spares-delete_binding :
      (other : String) → other ≢ room_id → Spares laws room_id values (delete_room_assignment other)
  unfolding delete_room_assignment
  Spares-delete_binding other ne = Spares-write _ λ d.
      rw
        (
          laws.hgetall-del (room_binding_key other) (room_binding_key room_id) d,
          room_binding_key-inj other room_id ne,
        )
        refl

  pub Spares-load : (node_id : String) → Spares laws room_id values (remove_signaling_load node_id)
  unfolding remove_signaling_load
  Spares-load node_id = Spares-write _ λ d. laws.hgetall-zrem _ _ _ d

  pub Spares-heartbeats :
      (cutoff : ℤ) → Spares laws room_id values (remove_signaling_node_heartbeats_below cutoff)
  unfolding remove_signaling_node_heartbeats_below
  Spares-heartbeats cutoff = Spares-write _ λ d. laws.hgetall-zremrangebyscore _ _ _ d

  pub Spares-save : (inst : SfuInstance) → Spares laws room_id values (save_sfu_instance inst)
  unfolding save_sfu_instance
  Spares-save inst = Spares-write _ λ d. laws.hgetall-hset _ _ _ _ d (instances_not_binding room_id)

  pub Spares-zadd :
      (key member : String) (n : ℕ) → Spares laws room_id values (write (v.zadd key member n))
  Spares-zadd key member n = Spares-write _ λ d. laws.hgetall-zadd _ _ _ _ d

  pub Spares-parse_found : (o : Option String) → Spares laws room_id values (parse_found o)
  unfolding parse_found parse
  Spares-parse_found none = search keeps_rules
  Spares-parse_found (some json) = search keeps_rules

  pub Spares-decrement : (id : String) → Spares laws room_id values (decrement_sfu_room_load id)
  unfolding decrement_sfu_room_load update_idle_since get_sfu_instance
  Spares-decrement id =
      search
        (keeps_rules, Spares-query, Spares-zadd, Spares-save, Spares-unix_now, Spares-parse_found)
        depth 14

  pub Spares-reclaim :
      (other : String) (binding : RoomBinding)
      → other ≢ room_id
      → Spares laws room_id values (reclaim other binding)
  unfolding reclaim
  Spares-reclaim other binding ne =
      search (keeps_rules, Spares-decrement, Spares-delete_members, Spares-delete_binding) depth 14

  pub Spares-elim :
      {A : Type 0} (b : Bool) (m n : Store A)
      → Spares laws room_id values m
      → Spares laws room_id values n
      → Spares laws room_id values (elim b as (λ _. Store A) [ true ↦ m | false ↦ n ])
  Spares-elim true m n km kn = km
  Spares-elim false m n km kn = kn

  pub Spares-scan_loop :
      (fuel : ℕ) (pattern : String) (id_of : String → Option String) (cursor : ℕ)
      (results : List String)
      → Spares laws room_id values (scan_loop fuel pattern id_of cursor results)
  unfolding scan_loop
  Spares-scan_loop zero pattern id_of cursor results = search keeps_rules
  Spares-scan_loop (suc fuel) pattern id_of cursor results =
      Keeps-bind _ _ (Spares-query laws room_id values _) λ page.
        Spares-elim (nat_eq page.0 0) _ _ (Keeps-pure _)
          (Spares-scan_loop fuel pattern id_of page.0 _)
