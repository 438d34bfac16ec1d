-- ===== src/Signaling/Peers.antt =====
-- services/signaling/src/peer_registry.rs: the outbound channel of each peer, by room and nickname.
-- The channels belong to tokio: a sender is a value of the parameter, and `try_send` is its call.
pub mod Rooms
pub mod Broadcast
use callifornia.Map.{Map, lookup, insert, remove, keys, is_empty}
use callifornia.Message.{ServerMessage}
use callifornia.Prelude.{
  ℕ, ◌+◌, ◌%◌, ◌^◌, String, List, [], ◌∷◌, Option, none, some, Bool, true, false, if◌then◌else◌,
  get_or, is_text, length, map,
}
use callifornia.Services.{Services}

pub data DeliveryStatus : Type 0 where
  delivered missing stale : DeliveryStatus

module _ ⦃v : Services⦄ where
  pub record PeerEntry : Type 0 where
    pub sender : v.Sender
    pub sfu_addr : Option String

  abbrev pub RoomPeers : Type 0
  RoomPeers = Map (Map PeerEntry)

  unfoldable pub register : String → String → PeerEntry → RoomPeers → RoomPeers
  register room_id nickname entry peers =
      insert room_id (insert nickname entry (get_or (lookup room_id peers) [])) peers

  unfoldable pub drop_member : String → String → Option (Map PeerEntry) → RoomPeers → RoomPeers
  drop_member room_id nickname none peers = peers
  drop_member room_id nickname (some room_peers) peers =
      let rest = remove nickname room_peers in
      if is_empty rest then remove room_id peers else insert room_id rest peers

  unfoldable pub unregister : String → String → RoomPeers → RoomPeers
  unfolding drop_member
  unregister room_id nickname peers = drop_member room_id nickname (lookup room_id peers) peers

  -- The entry of a peer, `peers.get(room_id).and_then(|room| room.get(nickname))`.
  unfoldable pub find : String → String → RoomPeers → Option PeerEntry
  find room_id nickname peers = lookup nickname (get_or (lookup room_id peers) [])

  deliver_to : ServerMessage → Option PeerEntry → v.Ext → DeliveryStatus × v.Ext
  deliver_to payload none x = (missing, x)
  deliver_to payload (some entry) x =
      let (sent, x') = v.try_send entry.sender payload x in (if sent then delivered else stale, x')

  unfoldable pub send_to_peer :
      String → String → ServerMessage → RoomPeers → v.Ext → DeliveryStatus × v.Ext
  unfolding find deliver_to
  send_to_peer room_id nickname payload peers x = deliver_to payload (find room_id nickname peers) x

  -- `.filter(|(nickname, _)| except_nickname != Some(nickname.as_str()))`
  unfoldable pub targets : Option String → Map PeerEntry → Map PeerEntry
  targets except [] = []
  targets except ((nickname, entry) ∷ room) =
      let rest = targets except room in
      if is_text except nickname then rest else (nickname, entry) ∷ rest

  -- The loop of sends: the nicknames whose channel is closed or full.
  unfoldable pub send_all : ServerMessage → Map PeerEntry → v.Ext → List String × v.Ext
  send_all payload [] x = ([], x)
  send_all payload ((nickname, entry) ∷ room) x =
      let (sent, x₁) = v.try_send entry.sender payload x in
      let (stale_nicknames, x₂) = send_all payload room x₁ in
      (if sent then stale_nicknames else nickname ∷ stale_nicknames, x₂)

  unfoldable pub broadcast_to_room :
      String → Option String → ServerMessage → RoomPeers → v.Ext → List String × v.Ext
  unfolding targets send_all
  broadcast_to_room room_id except payload peers x =
      send_all payload (targets except (get_or (lookup room_id peers) [])) x

  unfoldable pub snapshot_rooms : RoomPeers → Map (List String)
  snapshot_rooms = map λ e. (e.0, keys e.1)

  unfoldable pub snapshot_rooms_with_sfu : RoomPeers → Map (Map (Option String))
  snapshot_rooms_with_sfu = map λ e. (e.0, map (λ p. (p.0, p.1.sfu_addr)) e.1)

  unfoldable pub clear : RoomPeers → RoomPeers
  clear peers = []

  -- `room_peers.len() as u32`, summed in a `u32`
  unfoldable pub peer_count : RoomPeers → ℕ
  peer_count [] = 0
  peer_count ((_, room) ∷ peers) = (length room % 2 ^ 32 + peer_count peers) % 2 ^ 32
