-- ===== src/Signaling/Peers/Broadcast.antt =====
-- peer_registry.rs: whom a broadcast reaches, and whom it reports.
use callifornia.Map.{Map, lookup}
use callifornia.Message.{ServerMessage}
use callifornia.Prelude.{
  ◌≤◌, String, List, [], ◌∷◌, Option, none, Bool, true, false, if◌then◌else◌, get_or, ◌≡◌, ◌≢◌,
  arith, All, length, is_text, eq_refl, Bool-cases, inl, inr,
}
use callifornia.Services.{Services}
use callifornia.Signaling.Peers.{PeerEntry, RoomPeers, find, targets, send_all, broadcast_to_room}

module _ ⦃v : Services⦄ where
  -- The name is another than the one left out, and has an entry in the room.
  abbrev pub IsTarget : Option String → Map PeerEntry → String → Type 0
  IsTarget except room nick = (is_text except nick ≡ false) × (lookup nick room ≢ none)

  IsTarget-cons :
      (except : Option String) (e : String × PeerEntry) (room : Map PeerEntry) (xs : List String)
      → All (IsTarget except room) xs
      → All (IsTarget except (e ∷ room)) xs
  unfolding lookup
  IsTarget-cons except (j, entry) room [] h = tt
  IsTarget-cons except (j, entry) room (x ∷ xs) h =
      ((h.0.0, ground (arith, h.0.1)), IsTarget-cons except (j, entry) room xs h.1)

  stale-IsTarget :
      (except : Option String) (payload : ServerMessage) (room : Map PeerEntry) (x : v.Ext)
      → All (IsTarget except room) (send_all payload (targets except room) x).0
  unfolding send_all targets lookup
  stale-IsTarget except payload [] x = tt
  stale-IsTarget except payload ((j, entry) ∷ room) x = elim (Bool-cases (is_text except j)) [
    | inl out ↦
        rw out (IsTarget-cons except (j, entry) room _ (stale-IsTarget except payload room x))
    | inr sent_to ↦ rw sent_to (
        All-if (v.try_send entry.sender payload x).0 _ sent_to (
          IsTarget-cons except (j, entry) room _
            (stale-IsTarget except payload room (v.try_send entry.sender payload x).1)))
  ]
    where
      All-if :
          (b : Bool) (xs : List String)
          → is_text except j ≡ false
          → All (IsTarget except ((j, entry) ∷ room)) xs
          → All (IsTarget except ((j, entry) ∷ room)) (if b then xs else j ∷ xs)
      All-if true xs p h = h
      All-if false xs p h = ((p, ground (arith, eq_refl j)), h)

  -- The nicknames that a broadcast reports are peers of the room, and none is the one left out.
  pub broadcast-IsTarget :
      (room : String) (except : Option String) (payload : ServerMessage) (peers : RoomPeers)
      (x : v.Ext)
      → All
          (λ nick. (is_text except nick ≡ false) × (find room nick peers ≢ none))
          (broadcast_to_room room except payload peers x).0
  unfolding broadcast_to_room find
  broadcast-IsTarget room except payload peers x =
      stale-IsTarget except payload (get_or (lookup room peers) []) x

  pub length-targets-le :
      (except : Option String) (room : Map PeerEntry) → length (targets except room) ≤ length room
  unfolding targets
  length-targets-le except [] = omega arith
  length-targets-le except ((j, entry) ∷ room) = ground (arith, length-targets-le except room)

  pub length-send_all-le :
      (payload : ServerMessage) (room : Map PeerEntry) (x : v.Ext)
      → length (send_all payload room x).0 ≤ length room
  unfolding send_all
  length-send_all-le payload [] x = omega arith
  length-send_all-le payload ((j, entry) ∷ room) x =
      ground (arith, length-send_all-le payload room (v.try_send entry.sender payload x).1)
