-- ===== src/ControlStore/Cleanup.antt =====
-- common/control_store/src/storage.rs: what is read and deleted of sessions, nickname leases and
-- rooms when they are cleaned up.
use callifornia.ControlStore.{
  Store, query, write, session_key, nick_key, room_members_key, room_binding_key,
}
use callifornia.ControlStore.Heartbeat.{non_empty}
use callifornia.Exec.{pure, ◌>>=◌}
use callifornia.Map.{lookup}
use callifornia.Prelude.{String, List, Option, is_text, if◌then◌else◌}
use callifornia.Services.{Services}

module _ ⦃v : Services⦄ where
  unfoldable pub get_session_owner : String → Store (Option String)
  unfolding non_empty
  get_session_owner session_id = do
    owner ← query (λ d. lookup "signaling_owner_id" (v.hgetall (session_key session_id) d))
    pure (non_empty owner)

  unfoldable pub delete_signaling_session : String → Store (Unit {0})
  delete_signaling_session session_id = write (λ d. (v.del (session_key session_id) d).1)

  -- `COMPARE_AND_DEL`, one script.
  unfoldable pub delete_nick_lease : String → String → Store (Unit {0})
  delete_nick_lease nickname session_id = write λ d.
      if is_text (v.get (nick_key nickname) d) session_id
      then (v.del (nick_key nickname) d).1
      else d

  unfoldable pub delete_signaling_room_members : String → Store (Unit {0})
  delete_signaling_room_members room_id = write (λ d. (v.del (room_members_key room_id) d).1)

  unfoldable pub get_room_members : String → Store (List String)
  get_room_members room_id = query (v.smembers (room_members_key room_id))

  unfoldable pub delete_room_assignment : String → Store (Unit {0})
  delete_room_assignment room_id = write (λ d. (v.del (room_binding_key room_id) d).1)

  unfoldable pub session_clear_room : String → Store (Unit {0})
  session_clear_room session_id = write (v.hset (session_key session_id) "room_id" "")
