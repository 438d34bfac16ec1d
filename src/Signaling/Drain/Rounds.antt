-- ===== src/Signaling/Drain/Rounds.antt =====
-- services/signaling/src/websocket.rs: one round of the loop of `detach_stale_peers`.
use callifornia.Exec.{◌>>=◌, total}
use callifornia.Exec.Leads.{quiet-bind}
use callifornia.Map.{
  Map, lookup, remove, length-remove-le, length-remove-lt, lookup-remove, lookup-insert,
}
use callifornia.Message.{participant_left}
use callifornia.Prelude.{
  ℕ, suc, ◌≤◌, ◌<◌, String, List, [], ◌∷◌, ◌++◌, false, Option, none, some, ◌≡◌, ◌≢◌, refl, ap,
  arith, All, length, length-append, inl, inr, ◌==◌, eq_refl, get_or, Option-cases,
}
use callifornia.Services.{Services}
use callifornia.Signaling.Detach.{peers-detach_peer}
use callifornia.Signaling.Node.{Node}
use callifornia.Signaling.Peers
use callifornia.Signaling.Peers.{PeerEntry, RoomPeers, unregister, find, drop_member}
use callifornia.Signaling.Peers.Broadcast.{
  broadcast-IsTarget, length-targets-le, length-send_all-le,
}
use callifornia.Signaling.Peers.Rooms.{find-unregister}
use callifornia.Signaling.State.{detach_peer, broadcast_to_room}
use callifornia.Signaling.Websocket.Rooms.Stale.{drain, room_size}
use mathlib.Core.List.{reverse, reverse-cons}

pub length-reverse {ℓ} : {A : Type ℓ} (xs : List A) → length (reverse xs) ≡ length xs
length-reverse [] = refl
length-reverse (x ∷ xs) =
    omega
      (arith, ap length (reverse-cons x xs), length-append (reverse xs) (x ∷ []), length-reverse xs)

All-append {ℓ κ} :
    {A : Type ℓ} (P : A → Type κ) (xs ys : List A) → All P xs → All P ys → All P (xs ++ ys)
All-append P [] ys hx hy = hy
All-append P (x ∷ xs) ys hx hy = (hx.0, All-append P xs ys hx.1 hy)

pub All-reverse {ℓ κ} : {A : Type ℓ} (P : A → Type κ) (xs : List A) → All P xs → All P (reverse xs)
All-reverse P [] h = h
All-reverse P (x ∷ xs) h =
    rw (reverse-cons x xs) (All-append P (reverse xs) (x ∷ []) (All-reverse P xs h.1) (h.0, tt))

module _ ⦃v : Services⦄ where
  unregister_smaller :
      (room nick : String) (o : Option (Map PeerEntry)) (peers : RoomPeers)
      → lookup room peers ≡ o
      → (room_size room (drop_member room nick o peers) ≤ room_size room peers)
        × (find room nick peers ≢ none
            → room_size room (drop_member room nick o peers) < room_size room peers)
  unfolding room_size find drop_member lookup
  unregister_smaller room nick none peers h = ground arith
  unregister_smaller room nick (some m) peers h = elim (Option-cases (lookup nick m)) [
    | inl e ↦ ground (
      arith,
      eq_refl room,
      lookup-remove room room peers,
      lookup-insert room room (remove nick m) peers,
      length-remove-le nick m,
    )
    | inr (entry, e) ↦ ground (
      arith,
      eq_refl room,
      lookup-remove room room peers,
      lookup-insert room room (remove nick m) peers,
      length-remove-lt nick m entry e,
    )
  ]

  -- What one round of the loop reports and leaves.
  pub record Round (room nick : String) (n : Node) (more : List String) (m : Node) : Type 0 where
    pub reported : All (λ j. ((nick == j) ≡ false) × (find room j n.peers ≢ none)) more
    pub few : length more ≤ room_size room n.peers
    pub removed : m.peers ≡ unregister room nick n.peers

  pub drain-Round :
      (fuel : ℕ) (room reason nick : String) (rest : List String) (n : Node)
      → (more : List String) × (m : Node) × (drain (suc fuel) room reason (nick ∷ rest) n
          ≡ drain fuel room reason (reverse more ++ rest) m)
        × Round room nick n more m
  unfolding drain ◌>>=◌ broadcast_to_room total Peers.broadcast_to_room room_size
  drain-Round fuel room reason nick rest n =
      let payload = participant_left nick in
      let sent = Peers.broadcast_to_room room (some nick) payload n.peers n.ext in
      let n₁ : Node = record n { ext = sent.1 } in
      let targets = Peers.targets (some nick) (get_or (lookup room n.peers) []) in
      let (_, _, e) =
        quiet-bind (detach_peer room nick reason)
          (λ _. drain fuel room reason (reverse sent.0 ++ rest)) n₁ in
      (
        sent.0,
        (detach_peer room nick reason n₁).1,
        e,
        record {
          reported = broadcast-IsTarget room (some nick) payload n.peers n.ext;
          few = omega (
            arith,
            length-send_all-le payload targets n.ext,
            length-targets-le (some nick) (get_or (lookup room n.peers) []),
          );
          removed = peers-detach_peer room nick reason n₁;
        },
      )

  pub size_after :
      (room nick : String) (n : Node) (more : List String) (m : Node)
      → Round room nick n more m
      → (room_size room m.peers ≤ room_size room n.peers)
        × (find room nick n.peers ≢ none → room_size room m.peers < room_size room n.peers)
  unfolding unregister
  size_after room nick n more m r =
      rw r.removed (unregister_smaller room nick (lookup room n.peers) n.peers refl)

  pub registered_after :
      (room nick j : String) (n : Node) (more : List String) (m : Node)
      → Round room nick n more m
      → (nick == j) ≡ false
      → find room j n.peers ≢ none
      → find room j m.peers ≢ none
  registered_after room nick j n more m r h k =
      ground (arith, r.removed, find-unregister room nick room j n.peers)
