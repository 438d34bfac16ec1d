-- ===== src/Client/App/Entry.antt =====
-- client/src/signaling.rs with client/src/app.rs: what the page shows once the node says that the
-- session has joined a room.
use callifornia.Client.App.{App, room, page_after, handle_event, deliver, receive}
use callifornia.Client.Participants.{ActiveRoom, add_unique, from_snapshot}
use callifornia.Client.App.Rooms.{
  IsUnique, contains-add_unique, contains-unique_participants, unique_participants-IsUnique,
}
use callifornia.Client.Messages.{Browser, SignalingStart, joined}
use callifornia.Client.Signaling.{emit, with_self, handle_server_message}
use callifornia.Exec.{modify}
use callifornia.Map.{contains}
use callifornia.Prelude.{String, List, some, ◌||◌, ◌==◌, ◌≡◌, refl, ◌∙◌}

contains-with_self :
    ⦃b : Browser⦄ (n your_nickname : String) (names : List String)
    → contains n (with_self your_nickname names) ≡ (your_nickname == n || contains n names)
unfolding with_self add_unique
contains-with_self n your_nickname names = contains-add_unique n your_nickname names

-- The page is in a room, whose participants are listed once each and are just these.
pub record IsIn ⦃b : Browser⦄ (room_id your_nickname : String) (names : List String) (app : App)
    : Type 0 where
  pub shows : app.screen ≡ room
  pub current : ActiveRoom
  pub active : app.active_room ≡ some current
  pub same_room : current.room_id ≡ room_id
  pub same_nickname : current.your_nickname ≡ your_nickname
  pub unique : IsUnique current.participants
  pub members :
      (n : String) → contains n current.participants ≡ (your_nickname == n || contains n names)

-- When the node says that the session has joined a room, whatever the page was, it then shows that
-- room: the participants are the ones of the message and oneself, each listed once, also if the
-- message repeats a name or leaves oneself out.
pub joined-IsIn :
    ⦃b : Browser⦄ (ws : b.Socket) (start : SignalingStart) (room_id your_nickname : String)
    (names : List String) (app : App)
    → IsIn room_id your_nickname names
        (receive (handle_server_message ws start (joined room_id your_nickname names)) app)
unfolding receive page_after handle_server_message emit modify deliver handle_event from_snapshot
joined-IsIn ws start room_id your_nickname names app = record {
  shows = refl;
  current = from_snapshot (record {
    room_id = room_id;
    your_nickname = your_nickname;
    participants = with_self your_nickname names;
  });
  active = refl;
  same_room = refl;
  same_nickname = refl;
  unique = unique_participants-IsUnique (with_self your_nickname names);
  members = λ n.
      contains-unique_participants n (with_self your_nickname names)
      ∙ contains-with_self n your_nickname names;
}
