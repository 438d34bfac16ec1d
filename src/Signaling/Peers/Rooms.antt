-- ===== src/Signaling/Peers/Rooms.antt =====
-- peer_registry.rs: the entries after `register` and `unregister`.
use callifornia.Map.{Map, lookup, insert, remove, lookup-insert, lookup-remove}
use callifornia.Prelude.{
  String, [], ◌∷◌, Option, none, some, ◌==◌, ◌&&◌, eq_iff, if◌then◌else◌, get_or, ◌≡◌, ◌≢◌, refl,
  arith,
}
use callifornia.Services.{Services}
use callifornia.Signaling.Peers.{PeerEntry, RoomPeers, register, unregister, drop_member, find}

module _ ⦃v : Services⦄ where
  -- After `register` the peer has the entry given, and every other entry is as it was.
  pub find-register :
      (room nick q j : String) (entry : PeerEntry) (peers : RoomPeers)
      → find q j (register room nick entry peers)
        ≡ (if room == q && nick == j then some entry else find q j peers)
  unfolding find register
  find-register room nick q j entry peers = ground (
    arith,
    eq_iff room q,
    lookup-insert room q (insert nick entry (get_or (lookup room peers) [])) peers,
    lookup-insert nick j entry (get_or (lookup room peers) []),
  )

  find-drop_member :
      (room nick q j : String) (o : Option (Map PeerEntry)) (peers : RoomPeers)
      → lookup room peers ≡ o
      → find q j (drop_member room nick o peers)
        ≡ (if room == q && nick == j then none else find q j peers)
  unfolding find drop_member lookup
  find-drop_member room nick q j none peers h = ground (arith, eq_iff room q)
  find-drop_member room nick q j (some room_peers) peers h = ground (
    arith,
    eq_iff room q,
    lookup-remove nick j room_peers,
    lookup-remove room q peers,
    lookup-insert room q (remove nick room_peers) peers,
  )

  -- After `unregister` the peer has no entry in the room, and every other entry, of this room and of
  -- others, is as it was.
  pub find-unregister :
      (room nick q j : String) (peers : RoomPeers)
      → find q j (unregister room nick peers)
        ≡ (if room == q && nick == j then none else find q j peers)
  unfolding unregister
  find-unregister room nick q j peers =
      find-drop_member room nick q j (lookup room peers) peers refl

  -- No room is kept without a peer.
  abbrev pub IsOccupied : RoomPeers → Type 0
  IsOccupied peers = (room : String) → lookup room peers ≢ some []

  insert-ne-nil : (k : String) (e : PeerEntry) (m : Map PeerEntry) → insert k e m ≢ []
  unfolding insert
  insert-ne-nil k e [] = ground arith
  insert-ne-nil k e (p ∷ m) = ground arith

  pub register-IsOccupied :
      (room nick : String) (entry : PeerEntry) (peers : RoomPeers)
      → IsOccupied peers
      → IsOccupied (register room nick entry peers)
  unfolding register
  register-IsOccupied room nick entry peers h = λ q. ground (
    arith,
    h q,
    lookup-insert room q (insert nick entry (get_or (lookup room peers) [])) peers,
    insert-ne-nil nick entry (get_or (lookup room peers) []),
  )

  drop_member-IsOccupied :
      (room nick q : String) (o : Option (Map PeerEntry)) (peers : RoomPeers)
      → lookup q peers ≢ some []
      → lookup q (drop_member room nick o peers) ≢ some []
  unfolding drop_member
  drop_member-IsOccupied room nick q none peers h = h
  drop_member-IsOccupied room nick q (some room_peers) peers h =
      ground
        (arith, lookup-remove room q peers, lookup-insert room q (remove nick room_peers) peers)

  pub unregister-IsOccupied :
      (room nick : String) (peers : RoomPeers)
      → IsOccupied peers
      → IsOccupied (unregister room nick peers)
  unfolding unregister
  unregister-IsOccupied room nick peers h =
      λ q. drop_member-IsOccupied room nick q (lookup room peers) peers (h q)
