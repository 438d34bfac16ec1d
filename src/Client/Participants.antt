-- ===== src/Client/Participants.antt =====
-- client/src/app.rs: the room that the page is in, with its participants.
use callifornia.Client.Messages.{RoomSnapshot}
use callifornia.Map.{contains, discard}
use callifornia.Prelude.{String, List, [], ◌∷◌, push, Option, none, some, if◌then◌else◌}

pub record ActiveRoom : Type 0 where
  pub room_id : String
  pub your_nickname : String
  pub participants : List String

unfoldable pub add_unique : List String → String → List String
add_unique unique name = if contains name unique then unique else push unique name

-- The fold, from what it has gathered.
unfoldable pub gather_unique : List String → List String → List String
gather_unique unique [] = unique
gather_unique unique (name ∷ names) = gather_unique (add_unique unique name) names

unfoldable pub unique_participants : List String → List String
unique_participants participants = gather_unique [] participants

unfoldable pub from_snapshot : RoomSnapshot → ActiveRoom
from_snapshot snapshot = record {
  room_id = snapshot.room_id;
  your_nickname = snapshot.your_nickname;
  participants = unique_participants snapshot.participants;
}

unfoldable pub active_room_with_participant : Option ActiveRoom → String → Option ActiveRoom
active_room_with_participant none name = none
active_room_with_participant (some r) name =
    some (record r { participants = add_unique r.participants name })

unfoldable pub active_room_without_participant : Option ActiveRoom → String → Option ActiveRoom
active_room_without_participant none name = none
active_room_without_participant (some r) name =
    some (record r { participants = discard name r.participants })
