-- ===== src/Supervisor/Janitor/Safety.antt =====
-- services/supervisor/src/probes.rs: what the janitor does not touch.
use callifornia.Commands.Laws.{IsRedis}
use callifornia.Commands.Rules.{On, Ensures-send, bind-at}
use callifornia.ControlStore.{RoomBinding, redis, query, room_binding_key, signaling_nodes_key}
use callifornia.ControlStore.Cleanup.{get_session_owner}
use callifornia.ControlStore.Heartbeat.{alive_signaling_nodes, signaling_load_members}
use callifornia.ControlStore.Rooms.{get_room_assignment, to_binding}
use callifornia.ControlStore.Scan.{
  scan_room_binding_ids, scan_signaling_room_ids, scan_signaling_session_ids,
}
use callifornia.Exec.{ok, pure, total, ◌>>=◌}
use callifornia.Exec.Ensures.{Ensures, Ensures-bind}
use callifornia.Exec.Keeps.{Keeps-bind, Keeps-pure, keeps_rules}
use callifornia.Map.{contains}
use callifornia.Numerals.{pos, as_i64, minus}
use callifornia.Numerals.Words.{as_i64-small}
use callifornia.Prelude.{
  ℕ, ◌<◌, ◌^◌, String, List, Option, none, some, true, ◌==◌, ◌||◌, eq_iff, ◌≡◌, ◌≢◌, refl, ◌∙◌,
  arith, Bool-cases, inl, inr,
}
use callifornia.Services.{Services}
use callifornia.Supervisor.Janitor.{
  reclaim_if_stale, check_binding, check_members, check_load, delete_if_stale, check_session, clean,
  run_janitor_iteration,
}
use callifornia.Supervisor.Janitor.Spares.{
  Bound, Spares, Spares-query, Spares-unix_now, Spares-delete_members, Spares-delete_session,
  Spares-load, Spares-heartbeats, Spares-reclaim, Spares-scan_loop,
}

module _ ⦃v : Services⦄ (laws : IsRedis) (room_id : String) (values : List (String × String)) where
  Spares-alive : (stale : ℕ) → Spares laws room_id values (alive_signaling_nodes stale)
  unfolding alive_signaling_nodes
  Spares-alive stale = search (keeps_rules, Spares-unix_now, Spares-query)

  Spares-owner : (id : String) → Spares laws room_id values (get_session_owner id)
  unfolding get_session_owner
  Spares-owner id = search (keeps_rules, Spares-query)

  Spares-check_members :
      (ids : List String) (other : String) → Spares laws room_id values (check_members ids other)
  unfolding check_members
  Spares-check_members ids other = search (keeps_rules, Spares-delete_members)

  Spares-check_load :
      (alive : List String) (node_id : String)
      → Spares laws room_id values (check_load alive node_id)
  unfolding check_load
  Spares-check_load alive node_id = search (keeps_rules, Spares-load)

  Spares-delete_if_stale :
      (alive : List String) (id : String) (owner : Option String)
      → Spares laws room_id values (delete_if_stale alive id owner)
  unfolding delete_if_stale
  Spares-delete_if_stale alive id none = search keeps_rules
  Spares-delete_if_stale alive id (some owner) = search (keeps_rules, Spares-delete_session)

  Spares-assignment : (other : String) → Spares laws room_id values (get_room_assignment other)
  unfolding get_room_assignment
  Spares-assignment other = search (keeps_rules, Spares-query)

  -- What is read of the room's binding is what it is.
  assignment-Ensures :
      Ensures
        (On laws (Bound room_id values))
        (get_room_assignment room_id)
        (λ b. On laws (λ d. Bound room_id values d × (b ≡ to_binding room_id values)))
  unfolding get_room_assignment query Bound pure
  assignment-Ensures =
      Ensures-bind _ _
        (Ensures-send laws redis (Bound room_id values)
          (λ a d. Bound room_id values d × (a ≡ values)) _ (λ d h. (h, h)))
        λ a. record { at = λ x b h e. (h.0, cc (h.1, e)) }

  module _ (alive : List String) (binding : RoomBinding)
      (owned : to_binding room_id values ≡ some binding)
      (lives : contains binding.owner_id alive ≡ true) where
    reclaim-spared :
        (b : Option RoomBinding)
        → b ≡ some binding
        → Spares laws room_id values (reclaim_if_stale alive room_id b)
    unfolding reclaim_if_stale
    reclaim-spared none e = absurd cc
    reclaim-spared (some b) e =
        let same : b ≡ binding = cc in
        let held : contains b.owner_id alive ≡ true = rw same lives in
        let skipped : (b.owner_id == "" || contains b.owner_id alive) ≡ true =
          ground (arith, held) in
        rw skipped (Keeps-pure _)

    Spares-reclaim_if_stale :
        (other : String) (b : Option RoomBinding)
        → other ≢ room_id
        → Spares laws room_id values (reclaim_if_stale alive other b)
    unfolding reclaim_if_stale
    Spares-reclaim_if_stale other none ne = search keeps_rules
    Spares-reclaim_if_stale other (some b) ne = search (keeps_rules, Spares-reclaim)

    check_binding-spared : Spares laws room_id values (check_binding alive room_id)
    unfolding check_binding
    check_binding-spared = record {
      at = λ x h.
          bind-at (On laws (Bound room_id values)) _ _ x ((Spares-assignment room_id).at x h) λ b k.
            let (kept, read) = assignment-Ensures.at x b h k in
            (reclaim-spared b (read ∙ owned)).at _ kept;
    }

    Spares-check_binding : (other : String) → Spares laws room_id values (check_binding alive other)
    unfolding check_binding
    Spares-check_binding other = elim (Bool-cases (other == room_id)) [
      | inl e ↦ rw ((eq_iff other room_id).0 e) check_binding-spared
      | inr e ↦ Keeps-bind _ _ (Spares-assignment other) λ b.
          Spares-reclaim_if_stale other b
            (λ same. absurd (ground (arith, e, (eq_iff other room_id).1 same)))
    ]

    Spares-check_session : (id : String) → Spares laws room_id values (check_session alive id)
    unfolding check_session
    Spares-check_session id = search (keeps_rules, Spares-owner, Spares-delete_if_stale)

    Spares-clean : (stale : ℕ) → Spares laws room_id values (clean stale alive)
    unfolding clean scan_room_binding_ids scan_signaling_room_ids scan_signaling_session_ids
        signaling_load_members
    Spares-clean stale =
        search
          (
            keeps_rules, Spares-unix_now, Spares-query, Spares-scan_loop, Spares-check_binding,
            Spares-check_members, Spares-check_load, Spares-check_session, Spares-heartbeats,
          )
          depth 24

module _ ⦃v : Services⦄ (laws : IsRedis) where
  -- The nodes that are found alive, if Redis answers.
  alive-read :
      (stale : ℕ) (x : v.Ext) (alive : List String)
      → stale < 2 ^ 63
      → (alive_signaling_nodes stale x).0 ≡ ok alive
      → alive ≡ v.zrangebyscore signaling_nodes_key (minus (v.unix_now x).0 (pos stale)) (laws.db x)
  unfolding alive_signaling_nodes total query ◌>>=◌
  alive-read stale x alive small h = rw (← as_i64-small stale small) (
      (Ensures-send laws redis (λ d. d ≡ laws.db x)
          (λ a d.
            a
            ≡ v.zrangebyscore signaling_nodes_key (minus (v.unix_now x).0 (as_i64 stale))
                (laws.db x))
          _ (λ d e. rw e refl)).at
        (v.unix_now x).1 alive (laws.db-unix_now x) h)

  -- If Redis works as documented, an iteration of the janitor leaves the binding of a room as it is
  -- when the node that owns the room was seen within the stale timeout, whatever fails on the way. The
  -- timeout is below 2^63 seconds.
  pub run_janitor_iteration-spares :
      (stale : ℕ) (room_id : String) (binding : RoomBinding) (x : v.Ext)
      → stale < 2 ^ 63
      → to_binding room_id (v.hgetall (room_binding_key room_id) (laws.db x)) ≡ some binding
      → contains binding.owner_id
          (v.zrangebyscore signaling_nodes_key (minus (v.unix_now x).0 (pos stale)) (laws.db x))
        ≡ true
      → v.hgetall (room_binding_key room_id) (laws.db (run_janitor_iteration stale x).1)
        ≡ v.hgetall (room_binding_key room_id) (laws.db x)
  unfolding run_janitor_iteration Bound
  run_janitor_iteration-spares stale room_id binding x small owned lives =
      let values = v.hgetall (room_binding_key room_id) (laws.db x) in
      let first = (Spares-alive laws room_id values stale).at x refl in
      bind-at (On laws (Bound room_id values)) (alive_signaling_nodes stale) (clean stale) x first
        λ alive e.
          (Spares-clean laws room_id values alive binding owned
              (rw (alive-read stale x alive small e) lives) stale).at
            _ first
