-- ===== src/Client/Relay.antt =====
-- client/src/webrtc_room.rs: the parts of the WebRTC session that compute. A track that the SFU relays
-- is named after its publisher and its source; what a session started is stale after a later start.
pub mod Names
use callifornia.Prelude.{
  ℕ, ◌+◌, ◌-◌, ◌^◌, min, String, Option, none, some, Bool, not, ◌||◌, ◌==◌, nat_eq, if◌then◌else◌,
}
use callifornia.Texts.{split_once}

pub data RemoteSource : Type 0 where
  camera screen : RemoteSource

unfoldable pub source_of : String → RemoteSource
source_of source_type = if source_type == "screen" then screen else camera

unfoldable pub named_source : String → String → Option (String × RemoteSource)
named_source publisher source_type =
    if publisher == "" || source_type == "" then none else some (publisher, source_of source_type)

unfoldable pub typed_source : String → Option (String × String) → Option (String × RemoteSource)
typed_source publisher none = none
typed_source publisher (some (source_type, _)) = named_source publisher source_type

unfoldable pub published_source : Option (String × String) → Option (String × RemoteSource)
published_source none = none
published_source (some (publisher, source_track_id)) =
    typed_source publisher (split_once b':' source_track_id)

unfoldable pub remote_source_from_relay_track_id : String → Option (String × RemoteSource)
remote_source_from_relay_track_id track_id = published_source (split_once b'|' track_id)

-- `saturating_add(1)` on 64 bits; the cell has the result.
unfoldable pub next_generation : ℕ → ℕ
next_generation generation = min (generation + 1) (2 ^ 64 - 1)

unfoldable pub is_stale : Bool → ℕ → ℕ → Bool
is_stale closed current generation = closed || not (nat_eq current generation)
