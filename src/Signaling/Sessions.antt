-- ===== src/Signaling/Sessions.antt =====
-- services/signaling/src/session_registry.rs: the sessions that a signaling node serves, by id, and
-- the ids of the sessions in each room. The lock round the store is held for each whole operation,
-- so an operation is a function on the store.
pub mod Rooms
pub mod Moves
use callifornia.Map.{Map, lookup, insert, remove, contains, add, discard, is_empty}
use callifornia.Prelude.{
  ℕ, ◌%◌, ◌^◌, String, List, [], ◌∷◌, Option, none, some, Bool, if◌then◌else◌, get_or, length,
}

-- `SessionState` of services/signaling/src/redis.rs.
pub record SessionState : Type 0 where
  pub nickname : String
  pub room_id : Option String

pub record SessionStore : Type 0 where
  pub by_session_id : Map SessionState
  pub by_room_id : Map (List String)

unfoldable pub default : SessionStore
default = record { by_session_id = []; by_room_id = [] }

unfoldable pub unlink :
    String → String → Map (List String) → Option (List String) → Map (List String)
unlink session_id room_id m none = m
unlink session_id room_id m (some ids) =
    let rest = discard session_id ids in
    if is_empty rest then remove room_id m else insert room_id rest m

unfoldable pub remove_room_link : String → String → SessionStore → SessionStore
unfolding unlink
remove_room_link session_id room_id s = record s {
  by_room_id = unlink session_id room_id s.by_room_id (lookup room_id s.by_room_id);
}

-- `if let Some(room) = previous_room { self.remove_room_link(session_id, &room) }`
unfoldable pub unlink_previous : String → Option String → SessionStore → SessionStore
unfolding remove_room_link
unlink_previous session_id none s = s
unlink_previous session_id (some room) s = remove_room_link session_id room s

-- `if let Some(room) = room_id { self.by_room_id.entry(room).or_default().insert(session_id) }`
unfoldable pub link : String → Option String → SessionStore → SessionStore
link session_id none s = s
link session_id (some room) s = record s {
  by_room_id = insert room (add session_id (get_or (lookup room s.by_room_id) [])) s.by_room_id;
}

-- The room of the session under an id, as the first index tells it.
unfoldable pub room_of : SessionStore → String → Option String
room_of s session_id = elim (lookup session_id s.by_session_id) [
  | none ↦ none
  | some session ↦ session.room_id
]

unfoldable pub upsert : String → SessionState → SessionStore → SessionStore
unfolding unlink_previous link room_of
upsert session_id session s = link session_id session.room_id (
    unlink_previous session_id (room_of s session_id)
      (record s { by_session_id = insert session_id session s.by_session_id }))

unfoldable pub delete : String → SessionStore → SessionStore
unfolding unlink_previous room_of
delete session_id s =
    unlink_previous session_id (room_of s session_id)
      (record s { by_session_id = remove session_id s.by_session_id })

unfoldable pub assign_room :
    String → Option String → Option SessionState → SessionStore → SessionStore
assign_room session_id room_id none s = s
assign_room session_id room_id (some session) s = record s {
  by_session_id = insert session_id (record session { room_id = room_id }) s.by_session_id;
}

unfoldable pub move_to : String → Option String → Option SessionState → SessionStore → SessionStore
unfolding unlink_previous link assign_room
move_to session_id room_id none s = s
move_to session_id room_id (some session) s =
    assign_room session_id room_id (some session)
      (link session_id room_id (unlink_previous session_id session.room_id s))

unfoldable pub set_room : String → Option String → SessionStore → SessionStore
unfolding move_to
set_room session_id room_id s = move_to session_id room_id (lookup session_id s.by_session_id) s

-- The loop of `clear_room` over the ids that the room held.
unfoldable pub clear_ids : List String → Map SessionState → Map SessionState × List String
clear_ids [] m = (m, [])
clear_ids (id ∷ ids) m = elim (lookup id m) [
  | none ↦ clear_ids ids m
  | some session ↦
      let (m', affected) = clear_ids ids (insert id (record session { room_id = none }) m) in
      (m', id ∷ affected)
]

unfoldable pub clear_found :
    String → Option (List String) → SessionStore → SessionStore × List String
unfolding clear_ids
clear_found room_id none s = (s, [])
clear_found room_id (some ids) s =
    let (m, affected) = clear_ids ids s.by_session_id in
    (record { by_session_id = m; by_room_id = remove room_id s.by_room_id }, affected)

unfoldable pub clear_room : String → SessionStore → SessionStore × List String
unfolding clear_found
clear_room room_id s = clear_found room_id (lookup room_id s.by_room_id) s

unfoldable pub get : String → SessionStore → Option SessionState
get session_id s = lookup session_id s.by_session_id

unfoldable pub clear : SessionStore → SessionStore
unfolding default
clear s = default

-- `len() as u32`
unfoldable pub count : SessionStore → ℕ
count s = length s.by_session_id % 2 ^ 32
