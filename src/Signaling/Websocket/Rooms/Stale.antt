-- ===== src/Signaling/Websocket/Rooms/Stale.antt =====
-- services/signaling/src/websocket.rs: `detach_stale_peers`. The loop runs on fuel; what it is given
-- is computed from the peers of the room.
use callifornia.Exec.{pure, gets, ◌>>=◌, ◌>>◌}
use callifornia.Map.{lookup}
use callifornia.Message.{participant_left}
use callifornia.Prelude.{
  ℕ, zero, suc, ◌+◌, ◌*◌, String, List, [], ◌∷◌, ◌++◌, some, Bool, true, false, length, get_or,
}
use callifornia.Services.{Services}
use callifornia.Signaling.Peers.{RoomPeers}
use callifornia.Signaling.State.{Quiet, detach_peer, broadcast_to_room}
use mathlib.Core.List.{reverse}

module _ ⦃v : Services⦄ where
  -- The vector's end is the list's head. The result is whether the loop came to its end.
  unfoldable pub drain : ℕ → String → String → List String → Quiet Bool
  drain fuel room_id reason [] = pure true
  drain zero room_id reason (nickname ∷ rest) = pure false
  drain (suc fuel) room_id reason (nickname ∷ rest) = do
    more_stale ← broadcast_to_room room_id (some nickname) (participant_left nickname)
    detach_peer room_id nickname reason
    drain fuel room_id reason (reverse more_stale ++ rest)

  unfoldable pub room_size : String → RoomPeers → ℕ
  room_size room_id peers = length (get_or (lookup room_id peers) [])

  unfoldable pub enough_fuel : String → List String → RoomPeers → ℕ
  enough_fuel room_id stale peers =
      length stale + 2 * (room_size room_id peers * room_size room_id peers) + 1

  unfoldable pub detach_stale_peers : String → List String → String → Quiet (Unit {0})
  detach_stale_peers room_id stale_nicknames reason = do
    fuel ← gets (λ n. enough_fuel room_id stale_nicknames n.peers)
    drain fuel room_id reason (reverse stale_nicknames)
    pure tt
