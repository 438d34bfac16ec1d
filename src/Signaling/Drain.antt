-- ===== src/Signaling/Drain.antt =====
-- services/signaling/src/websocket.rs: the loop of `detach_stale_peers`, round by round.
pub mod Rounds
use callifornia.Exec.{ok, pure, ◌>>=◌, total}
use callifornia.Exec.Leads.{quiet-bind}
use callifornia.Map.{
  Map, lookup, remove, length-remove-le, length-remove-lt, lookup-remove, lookup-insert,
}
use callifornia.Message.{participant_left}
use callifornia.Prelude.{
  ℕ, zero, suc, ◌+◌, ◌*◌, ◌≤◌, ◌<◌, String, List, [], ◌∷◌, ◌++◌, true, false, Option, none, some,
  ◌≡◌, ◌≢◌, refl, ap, arith, All, length, length-append, ◌⊎◌, inl, inr, ◌==◌, eq_refl, get_or,
  Option-cases,
}
use callifornia.Services.{Services}
use callifornia.Signaling.Detach.{peers-detach_peer}
use callifornia.Signaling.Node.{Node}
use callifornia.Signaling.Peers
use callifornia.Signaling.Peers.{PeerEntry, RoomPeers, unregister, find, drop_member}
use callifornia.Signaling.Peers.Broadcast.{
  broadcast-IsTarget, length-targets-le, length-send_all-le,
}
use callifornia.Signaling.Peers.Rooms.{find-unregister}
use callifornia.Signaling.State.{detach_peer, broadcast_to_room}
use callifornia.Signaling.Websocket.Rooms.Stale.{drain, room_size, enough_fuel}
use mathlib.Core.List.{reverse, reverse-cons}
use Rounds.{Round, length-reverse, All-reverse, drain-Round, size_after, registered_after}

module _ ⦃v : Services⦄ where
  -- The top of the stack is registered in the room.
  abbrev IsRegistered : String → List String → RoomPeers → Type 0
  IsRegistered room [] peers = ⊥
  IsRegistered room (nick ∷ rest) peers = find room nick peers ≢ none

  abbrev HasFuel : ℕ → ℕ → String → List String → RoomPeers → Type 0
  HasFuel bound fuel room names peers =
      (length names + 2 * (bound * room_size room peers) < fuel)
      ⊎ (IsRegistered room names peers
          × (length names + 2 * (bound * room_size room peers) < fuel + bound))

  top_after :
      (room nick : String) (n : Node) (more : List String) (m : Node) (tops rest : List String)
      → Round room nick n more m
      → All (λ j. ((nick == j) ≡ false) × (find room j n.peers ≢ none)) tops
      → (tops ≡ []) ⊎ IsRegistered room (tops ++ rest) m.peers
  top_after room nick n more m [] rest r h = inl refl
  top_after room nick n more m (j ∷ tops) rest r h =
      inr (registered_after room nick j n more m r h.0.0 h.0.1)

  entry_in : (nick : String) (room : Map PeerEntry) → lookup nick room ≢ none → 0 < length room
  unfolding lookup
  entry_in nick [] h = absurd (h refl)
  entry_in nick (e ∷ room) h = omega arith

  has_entry :
      (room nick : String) (peers : RoomPeers)
      → find room nick peers ≢ none
      → 0 < room_size room peers
  unfolding find room_size
  has_entry room nick peers h = entry_in nick (get_or (lookup room peers) []) h

  product_mono : (b r s : ℕ) → s ≤ r → b * s ≤ b * r
  product_mono b r s h = grind arith

  product_drop : (b r s : ℕ) → s < r → b * s + b ≤ b * r
  product_drop b r s h = omega (arith, product_mono b r (s + 1) (omega arith))

  module _ (bound fuel : ℕ) (room nick : String) (rest : List String) (n : Node)
      (more : List String) (m : Node) (r : Round room nick n more m)
      (small : room_size room n.peers ≤ bound) where
    length_next : length (reverse more ++ rest) ≡ length more + length rest
    length_next = omega (arith, length-append {0} (reverse more) rest, length-reverse {0} more)

    fuel_if_new :
        find room nick n.peers ≡ none
        → HasFuel bound (suc fuel) room (nick ∷ rest) n.peers
        → HasFuel bound fuel room (reverse more ++ rest) m.peers
    fuel_if_new e (inr (reg, _)) = absurd (reg e)
    fuel_if_new e (inl h) =
        elim (top_after room nick n more m (reverse more) rest r (All-reverse _ more r.reported)) [
          | inl none_more ↦ inl (
              omega (
                arith,
                length_next,
                ap length none_more,
                length-reverse {0} more,
                product_mono bound _ _ (size_after room nick n more m r).0,
              ))
          | inr reg ↦ inr (
            reg,
            omega (
              arith,
              length_next,
              r.few,
              product_mono bound _ _ (size_after room nick n more m r).0,
            ),
          )
        ]

    fuel_if_registered :
        find room nick n.peers ≢ none
        → HasFuel bound (suc fuel) room (nick ∷ rest) n.peers
        → HasFuel bound fuel room (reverse more ++ rest) m.peers
    fuel_if_registered k h =
        let falls = product_drop bound _ _ ((size_after room nick n more m r).1 k) in
        elim h [
          | inl few ↦ inl (omega (arith, length_next, r.few, falls))
          | inr (_, few) ↦ inl (omega (arith, length_next, r.few, falls))
        ]

    fuel_after :
        HasFuel bound (suc fuel) room (nick ∷ rest) n.peers
        → HasFuel bound fuel room (reverse more ++ rest) m.peers
    fuel_after h = elim (Option-cases (find room nick n.peers)) [
      | inl e ↦ fuel_if_new e h
      | inr (entry, e) ↦ fuel_if_registered (λ k. cc) h
    ]

  no_fuel_left :
      (bound : ℕ) (room nick : String) (rest : List String) (peers : RoomPeers)
      → ¬ HasFuel bound 0 room (nick ∷ rest) peers
  no_fuel_left bound room nick rest peers (inl h) = omega arith
  no_fuel_left bound room nick rest peers (inr (reg, h)) =
      omega (arith, product_mono bound (room_size room peers) 1 (has_entry room nick peers reg))

  drain-ends :
      (bound fuel : ℕ) (room reason : String) (names : List String) (n : Node)
      → room_size room n.peers ≤ bound
      → HasFuel bound fuel room names n.peers
      → (drain fuel room reason names n).0 ≡ ok true
  drain-ends bound zero room reason [] n small h = unfold drain pure in refl
  drain-ends bound (suc fuel) room reason [] n small h = unfold drain pure in refl
  drain-ends bound zero room reason (nick ∷ rest) n small h =
      absurd (no_fuel_left bound room nick rest n.peers h)
  drain-ends bound (suc fuel) room reason (nick ∷ rest) n small h =
      let (more, m, e, r) = drain-Round fuel room reason nick rest n in
      rw e (
        drain-ends bound fuel room reason (reverse more ++ rest) m
          (omega (arith, (size_after room nick n more m r).0))
          (fuel_after bound fuel room nick rest n more m r small h))

  -- With the fuel that `detach_stale_peers` takes the loop comes to its end, whatever the channels,
  -- Redis and the SFU answer.
  pub drain-enough_fuel :
      (room reason : String) (names : List String) (n : Node)
      → (drain (enough_fuel room names n.peers) room reason (reverse names) n).0 ≡ ok true
  unfolding enough_fuel
  drain-enough_fuel room reason names n =
      drain-ends (room_size room n.peers) _ room reason (reverse names) n (omega arith)
        (inl (omega (arith, length-reverse {0} names)))
