-- ===== src/Signaling/Invariant/Rooms.antt =====
-- Predicates on a node that the steps of state.rs and of the SFU's events keep, and the loop of
-- `detach_stale_peers`.
use callifornia.Exec.{modify, for_each}
use callifornia.Exec.Keeps.{
  Keeps, Keeps-modify, Keeps-total, Keeps-for_each, Keeps-bind, keeps_rules,
}
use callifornia.Message.{ServerMessage}
use callifornia.Prelude.{ℕ, zero, suc, String, List, [], ◌∷◌, Option, none, Bool, true, false}
use callifornia.Services.{Services}
use callifornia.Signaling.Events.{
  Detail, SfuEvent, broadcast_event, send_payload, after_send, send_to_peer, handle_detail,
  handle_sfu_event, listen_once, peer_connected, track_added, track_removed, empty,
  peer_disconnected, ice_candidate, sfu_error,
}
use callifornia.Signaling.Invariant.Steps.{IsLocal, Keeps-on_ext, Keeps-edit, Keeps-delete_peer}
use callifornia.Signaling.Node.{Node}
use callifornia.Signaling.Peers.{DeliveryStatus, delivered, missing, stale}
use callifornia.Signaling.Sessions
use callifornia.Signaling.Sfu.{invalidate_channel, cleanup_peer_sdp_state}
use callifornia.Signaling.State.{
  is_redis_available, drop_peer, broadcast_to_room, known_route, leave_redis, detach_peer,
  purge_peer, clear_registries, purge, try_begin_purge, run_purge, forget_peer, clear_room,
  close_in_redis, close_room, close_if_on, close_rooms_due_to_sfu_addr,
}
use callifornia.Signaling.Websocket.Rooms.Stale.{drain, detach_stale_peers}
use callifornia.Signaling.Websocket.Rooms.{tell_left, leave_room_and_notify}

module _ ⦃v : Services⦄ where
  -- The predicate is kept by the removal of a peer, too.
  pub record IsRoomy (P : Node → Type 0) : Type 0 where
    pub local : IsLocal P
    pub on_drop : (room nick : String) (n : Node) → P n → P (drop_peer room nick n)

  pub record IsStable (P : Node → Type 0) : Type 0 where
    pub roomy : IsRoomy P
    pub on_clear_room :
        (room : String) (n : Node)
        → P n
        → P (record n { sessions = (Sessions.clear_room room n.sessions).0 })
    pub on_clear : (n : Node) → P n → P (clear_registries n)
    pub on_purging : (n : Node) → P n → P (record n { purging = true })

module _ ⦃v : Services⦄ {P : Node → Type 0} (l : IsLocal P) where
  pub Keeps-broadcast :
      (room : String) (except : Option String) (payload : ServerMessage)
      → Keeps P (broadcast_to_room room except payload)
  unfolding broadcast_to_room
  Keeps-broadcast room except payload = Keeps-total _ λ n i. l.on_ext n _ i

  pub Keeps-is_redis_available : Keeps P is_redis_available
  unfolding is_redis_available
  Keeps-is_redis_available = Keeps-on_ext l _

  pub Keeps-known_route : (b : Bool) (room : String) → Keeps P (known_route b room)
  unfolding known_route
  Keeps-known_route false room = search keeps_rules
  Keeps-known_route true room = search (keeps_rules, Keeps-on_ext l)

  pub Keeps-leave_redis : (b : Bool) (room nick : String) → Keeps P (leave_redis b room nick)
  unfolding leave_redis
  Keeps-leave_redis false room nick = search keeps_rules
  Keeps-leave_redis true room nick = search (keeps_rules, Keeps-on_ext l)

module _ ⦃v : Services⦄ {P : Node → Type 0} (r : IsRoomy P) where
  Keeps-drop : (room nick : String) → Keeps P (modify {E = ⊥} (drop_peer room nick))
  Keeps-drop room nick = Keeps-modify _ (r.on_drop room nick)

  pub Keeps-detach_peer : (room nick reason : String) → Keeps P (detach_peer room nick reason)
  unfolding detach_peer is_redis_available
  Keeps-detach_peer room nick reason =
      search
        (
          keeps_rules,
          Keeps-on_ext r.local,
          Keeps-known_route r.local,
          Keeps-leave_redis r.local,
          Keeps-delete_peer r.local,
          Keeps-drop,
        )
        depth 10

  pub Keeps-drain :
      (fuel : ℕ) (room reason : String) (names : List String)
      → Keeps P (drain fuel room reason names)
  unfolding drain
  Keeps-drain zero room reason [] = search keeps_rules
  Keeps-drain (suc fuel) room reason [] = search keeps_rules
  Keeps-drain zero room reason (nick ∷ rest) = search keeps_rules
  Keeps-drain (suc fuel) room reason (nick ∷ rest) =
      search (keeps_rules, Keeps-broadcast r.local, Keeps-detach_peer, Keeps-drain fuel room reason)

  pub Keeps-detach_stale_peers :
      (room : String) (names : List String) (reason : String)
      → Keeps P (detach_stale_peers room names reason)
  unfolding detach_stale_peers
  Keeps-detach_stale_peers room names reason = search (keeps_rules, Keeps-drain)

  pub Keeps-tell_left : (room nick : String) → Keeps P (tell_left room nick)
  unfolding tell_left
  Keeps-tell_left room nick =
      search (keeps_rules, Keeps-broadcast r.local, Keeps-detach_stale_peers)

  pub Keeps-leave_room_and_notify :
      (room nick reason : String) → Keeps P (leave_room_and_notify room nick reason)
  unfolding leave_room_and_notify
  Keeps-leave_room_and_notify room nick reason =
      search (keeps_rules, Keeps-detach_peer, Keeps-tell_left)

  pub Keeps-broadcast_event :
      (room : String) (except : Option String) (payload : ServerMessage)
      → Keeps P (broadcast_event room except payload)
  unfolding broadcast_event
  Keeps-broadcast_event room except payload =
      search (keeps_rules, Keeps-broadcast r.local, Keeps-detach_peer)

  Keeps-after_send : (room nick : String) (s : DeliveryStatus) → Keeps P (after_send room nick s)
  unfolding after_send
  Keeps-after_send room nick delivered = search keeps_rules
  Keeps-after_send room nick missing = search keeps_rules
  Keeps-after_send room nick stale = search (keeps_rules, Keeps-broadcast_event, Keeps-detach_peer)

  Keeps-send_payload :
      (room nick : String) (payload : ServerMessage) → Keeps P (send_payload room nick payload)
  unfolding send_payload
  Keeps-send_payload room nick payload = Keeps-total _ λ n i. r.local.on_ext n _ i

  Keeps-send_to_peer :
      (room nick : String) (payload : ServerMessage) → Keeps P (send_to_peer room nick payload)
  unfolding send_to_peer
  Keeps-send_to_peer room nick payload = search (keeps_rules, Keeps-send_payload, Keeps-after_send)

  pub Keeps-handle_sfu_event : (event : SfuEvent) → Keeps P (handle_sfu_event event)
  unfolding handle_sfu_event
  Keeps-handle_sfu_event event = by_detail event.room_id event.participant_id event.detail
    where
      by_detail : (room nick : String) (d : Detail) → Keeps P (handle_detail room nick d)
      by_detail room nick peer_connected = unfold handle_detail in search keeps_rules
      by_detail room nick track_added = unfold handle_detail in search keeps_rules
      by_detail room nick track_removed = unfold handle_detail in search keeps_rules
      by_detail room nick empty = unfold handle_detail in search keeps_rules
      by_detail room nick (peer_disconnected reason) =
          unfold handle_detail in search (keeps_rules, Keeps-broadcast_event)
      by_detail room nick (ice_candidate text mid) =
          unfold handle_detail in search (keeps_rules, Keeps-send_to_peer)
      by_detail room nick (sfu_error message) =
          unfold handle_detail in search (keeps_rules, Keeps-send_to_peer)

  pub Keeps-forget_peer : (room nick : String) → Keeps P (forget_peer room nick)
  unfolding forget_peer cleanup_peer_sdp_state
  Keeps-forget_peer room nick = search (keeps_rules, Keeps-drop, Keeps-edit r.local)

  pub Keeps-forget_all :
      (room : String) (names : List String) → Keeps P (for_each names (forget_peer room))
  Keeps-forget_all room names = Keeps-for_each names _ (Keeps-forget_peer room)

  pub Keeps-close_in_redis : (room : String) (ids : List String) → Keeps P (close_in_redis room ids)
  unfolding close_in_redis
  Keeps-close_in_redis room ids = search (keeps_rules, Keeps-on_ext r.local)

  Keeps-purge_peer : (room : String) (p : String × Option String) → Keeps P (purge_peer room p)
  unfolding purge_peer
  Keeps-purge_peer room p = search (keeps_rules, Keeps-delete_peer r.local)

module _ ⦃v : Services⦄ {P : Node → Type 0} (s : IsStable P) where
  Keeps-clear_room : (room : String) → Keeps P (clear_room room)
  unfolding clear_room
  Keeps-clear_room room = Keeps-total _ (s.on_clear_room room)

  Keeps-close_room :
      (reason : String) (room : String × List String) → Keeps P (close_room reason room)
  unfolding close_room is_redis_available
  Keeps-close_room reason (room, members) =
      Keeps-bind _ _ (Keeps-broadcast s.roomy.local room none _) λ stale.
        Keeps-bind _ _ (Keeps-forget_all s.roomy room members) λ _.
          Keeps-bind _ _ (Keeps-forget_all s.roomy room stale) λ _.
            Keeps-bind _ _ (Keeps-clear_room room)
              λ ids. search (keeps_rules, Keeps-on_ext s.roomy.local, Keeps-close_in_redis s.roomy)

  Keeps-close_if_on :
      (addr reason : String) (room : String × List String) → Keeps P (close_if_on addr reason room)
  unfolding close_if_on
  Keeps-close_if_on addr reason room =
      search (keeps_rules, Keeps-on_ext s.roomy.local, Keeps-close_room)

  pub Keeps-close_rooms : (addr reason : String) → Keeps P (close_rooms_due_to_sfu_addr addr reason)
  unfolding close_rooms_due_to_sfu_addr
  Keeps-close_rooms addr reason = search (keeps_rules, Keeps-close_if_on)

  pub Keeps-listen_once :
      (addr : String) (events : List SfuEvent) → Keeps P (listen_once addr events)
  unfolding listen_once invalidate_channel
  Keeps-listen_once addr events =
      search
        (keeps_rules, Keeps-handle_sfu_event s.roomy, Keeps-edit s.roomy.local, Keeps-close_rooms)

  pub Keeps-purge : (dependency : String) → Keeps P (purge dependency)
  unfolding purge
  Keeps-purge dependency =
      search
        (
          keeps_rules,
          Keeps-broadcast s.roomy.local,
          Keeps-purge_peer s.roomy,
          Keeps-modify clear_registries s.on_clear,
        )
        depth 8

  Keeps-try_begin_purge : Keeps P try_begin_purge
  unfolding try_begin_purge
  Keeps-try_begin_purge = Keeps-total _ s.on_purging

  pub Keeps-run_purge : (dependency : String) → Keeps P (run_purge dependency)
  unfolding run_purge
  Keeps-run_purge dependency = search (keeps_rules, Keeps-try_begin_purge, Keeps-purge)
