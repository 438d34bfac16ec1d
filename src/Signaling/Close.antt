-- ===== src/Signaling/Close.antt =====
-- services/signaling/src/state.rs: what is left of a room that is closed because its SFU is lost.
use callifornia.Exec.{total}
use callifornia.Exec.Keeps.{keeps_rules}
use callifornia.Exec.Leads.{Leads, Leads-bind, Leads-Keeps, Leads-modify, Leads-for_each}
use callifornia.Map.{Map, lookup, keys, contains}
use callifornia.Prelude.{
  String, List, [], ◌∷◌, none, false, ◌≡◌, refl, arith, get_or, is_text, eq_refl, Bool-cases, inl,
  inr, ◌==◌,
}
use callifornia.Services.{Services}
use callifornia.Signaling.Invariant.Rooms.{
  IsRoomy, Keeps-broadcast, Keeps-forget_all, Keeps-close_in_redis,
}
use callifornia.Signaling.Invariant.Steps.{IsLocal, Keeps-on_ext, Keeps-edit}
use callifornia.Signaling.Node.{Node}
use callifornia.Signaling.Peers.{PeerEntry, find}
use callifornia.Signaling.Peers.Rooms.{find-unregister}
use callifornia.Signaling.Sessions.{room_of}
use callifornia.Signaling.Sessions.Moves.{room_of-clear_room}
use callifornia.Signaling.Sessions.Rooms.{IsValid}
use callifornia.Signaling.Sfu.{cleanup_peer_sdp_state}
use callifornia.Signaling.State.{forget_peer, drop_peer, clear_room, close_room, is_redis_available}

module _ ⦃v : Services⦄ where
  -- The room has no peer, and no session is in it.
  pub record IsClosed (room : String) (n : Node) : Type 0 where
    pub no_peers : (nick : String) → find room nick n.peers ≡ none
    pub no_sessions : (id : String) → is_text (room_of n.sessions id) room ≡ false

  -- No peer of the room has a name that is not among those left.
  record Closing (room : String) (left : List String) (n : Node) : Type 0 where
    only : (nick : String) → contains nick left ≡ false → find room nick n.peers ≡ none
    valid : IsValid n.sessions

  Closing-IsLocal : (room : String) (left : List String) → IsLocal (Closing room left)
  Closing-IsLocal room left = record {
    on_ext = λ n x h. record { only = h.only; valid = h.valid };
    on_sfu = λ n r h. record { only = h.only; valid = h.valid };
  }

  IsClosed-IsLocal : (room : String) → IsLocal (IsClosed room)
  IsClosed-IsLocal room = record {
    on_ext = λ n x h. record { no_peers = h.no_peers; no_sessions = h.no_sessions };
    on_sfu = λ n r h. record { no_peers = h.no_peers; no_sessions = h.no_sessions };
  }

  drop_peer-Closing :
      (room nick : String) (left : List String) (n : Node)
      → Closing room (nick ∷ left) n
      → Closing room left (drop_peer room nick n)
  unfolding drop_peer contains
  drop_peer-Closing room nick left n h = record {
    only = λ j out. elim (Bool-cases (nick == j)) [
      | inl e ↦ ground (arith, find-unregister room nick room j n.peers, eq_refl room, e)
      | inr e ↦
          ground
            (arith, find-unregister room nick room j n.peers, e, h.only j (ground (arith, e, out)))
    ];
    valid = h.valid;
  }

  IsClosed-IsRoomy : (room : String) → IsRoomy (IsClosed room)
  unfolding drop_peer
  IsClosed-IsRoomy room = record {
    local = IsClosed-IsLocal room;
    on_drop = λ q nick n h. record {
      no_peers = λ j. ground (arith, find-unregister q nick room j n.peers, h.no_peers j);
      no_sessions = h.no_sessions;
    };
  }

  Closing-IsRoomy : (room : String) (left : List String) → IsRoomy (Closing room left)
  unfolding drop_peer
  Closing-IsRoomy room left = record {
    local = Closing-IsLocal room left;
    on_drop = λ q nick n h. record {
      only = λ j out. ground (arith, find-unregister q nick room j n.peers, h.only j out);
      valid = h.valid;
    };
  }

  forget_peer-Leads :
      (room nick : String) (left : List String)
      → Leads (Closing room (nick ∷ left)) (Closing room left) (forget_peer room nick)
  unfolding forget_peer cleanup_peer_sdp_state
  forget_peer-Leads room nick left =
      Leads-bind _ _ (Leads-modify _ (drop_peer-Closing room nick left))
        λ _. Leads-Keeps _ (search (keeps_rules, Keeps-edit (Closing-IsLocal room left)))

  clear_room-Leads : (room : String) → Leads (Closing room []) (IsClosed room) (clear_room room)
  unfolding clear_room total contains
  clear_room-Leads room = record {
    at = λ n h. record {
      no_peers = λ nick. h.only nick refl;
      no_sessions =
          λ id. ground (arith, room_of-clear_room room id n.sessions, h.valid.inverse room id);
    };
  }

  close_room-Leads :
      (room reason : String) (names : List String)
      → Leads (Closing room names) (IsClosed room) (close_room reason (room, names))
  unfolding close_room is_redis_available
  close_room-Leads room reason names =
      Leads-bind _ _ (Leads-Keeps _ (Keeps-broadcast (Closing-IsLocal room names) room none _))
        λ stale.
          Leads-bind _ _ (Leads-for_each (Closing room) _ (forget_peer-Leads room) names) λ _.
            Leads-bind _ _ (Leads-Keeps _ (Keeps-forget_all (Closing-IsRoomy room []) room stale))
              λ _. Leads-bind _ _ (clear_room-Leads room) λ ids. Leads-Keeps _ (
                search (
                  keeps_rules,
                  Keeps-on_ext (IsClosed-IsLocal room),
                  Keeps-close_in_redis (IsClosed-IsRoomy room),
                ))

  lookup-keys :
      (nick : String) (m : Map PeerEntry) → contains nick (keys m) ≡ false → lookup nick m ≡ none
  unfolding lookup contains
  lookup-keys nick [] h = refl
  lookup-keys nick (e ∷ m) h = ground (arith, h, lookup-keys nick m (ground (arith, h)))

  -- If the session indices are inverse to one another, closing a room with the peers that the
  -- snapshot lists leaves no peer in it and no session in it, whatever fails on the way.
  pub close_room-IsClosed :
      (room reason : String) (n : Node)
      → IsValid n.sessions
      → IsClosed room (close_room reason (room, keys (get_or (lookup room n.peers) [])) n).1
  unfolding find
  close_room-IsClosed room reason n h =
      (close_room-Leads room reason _).at n
        (record { only = λ nick. lookup-keys nick (get_or (lookup room n.peers) []); valid = h })
