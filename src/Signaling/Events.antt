-- ===== src/Signaling/Events.antt =====
-- services/signaling/src/sfu.rs: the events of an SFU and the task that listens to them.
use callifornia.Exec.{pure, total, modify, when, for_each, ◌>>=◌, ◌>>◌}
use callifornia.Message.{ServerMessage, participant_left, candidate, error, sfu_unavailable}
use callifornia.Prelude.{ℕ, ◌*◌, min, String, List, Option, some, Bool, not, ◌==◌, if◌then◌else◌}
use callifornia.Services.{Services}
use callifornia.Signaling.Peers
use callifornia.Signaling.Peers.{DeliveryStatus, delivered, missing, stale}
use callifornia.Signaling.Sfu.{invalidate_channel}
use callifornia.Signaling.State.{Quiet, detach_peer, broadcast_to_room, close_rooms_due_to_sfu_addr}

-- The details that only write to the log are kept apart from those that reach a peer.
pub data Detail : Type 0 where
  peer_connected track_added track_removed empty : Detail
  peer_disconnected : (reason : String) → Detail
  ice_candidate : (candidate sdp_mid : String) → Detail
  sfu_error : (error_message : String) → Detail

pub record SfuEvent : Type 0 where
  pub room_id : String
  pub participant_id : String
  pub detail : Detail

module _ ⦃v : Services⦄ where
  -- The function `broadcast_to_room` of sfu.rs.
  unfoldable pub broadcast_event : String → Option String → ServerMessage → Quiet (Unit {0})
  broadcast_event room_id except payload = do
    stale_nicknames ← broadcast_to_room room_id except payload
    for_each stale_nicknames λ nickname. detach_peer room_id nickname "stale_sender"

  unfoldable pub send_payload : String → String → ServerMessage → Quiet DeliveryStatus
  send_payload room_id participant_id payload = total λ n.
      let (outcome, x) = Peers.send_to_peer room_id participant_id payload n.peers n.ext in
      (outcome, record n { ext = x })

  unfoldable pub after_send : String → String → DeliveryStatus → Quiet (Unit {0})
  after_send room_id participant_id delivered = pure tt
  after_send room_id participant_id missing = pure tt
  after_send room_id participant_id stale = do
    detach_peer room_id participant_id "stale_sender"
    broadcast_event room_id (some participant_id) (participant_left participant_id)

  unfoldable pub send_to_peer : String → String → ServerMessage → Quiet (Unit {0})
  send_to_peer room_id participant_id payload = when (not (participant_id == "")) (do
    outcome ← send_payload room_id participant_id payload
    after_send room_id participant_id outcome)

  unfoldable pub handle_detail : String → String → Detail → Quiet (Unit {0})
  handle_detail room_id participant_id peer_connected = pure tt
  handle_detail room_id participant_id track_added = pure tt
  handle_detail room_id participant_id track_removed = pure tt
  handle_detail room_id participant_id empty = pure tt
  handle_detail room_id participant_id (peer_disconnected reason) =
      when (not (participant_id == ""))
        (broadcast_event room_id (some participant_id) (participant_left participant_id))
  handle_detail room_id participant_id (ice_candidate text sdp_mid) =
      send_to_peer room_id participant_id (candidate "sfu" text sdp_mid)
  handle_detail room_id participant_id (sfu_error message) =
      send_to_peer room_id participant_id (error sfu_unavailable message)

  unfoldable pub handle_sfu_event : SfuEvent → Quiet (Unit {0})
  handle_sfu_event event = handle_detail event.room_id event.participant_id event.detail

  -- One round of `run_event_listener`: the events of a stream until it ends, then the rooms of that
  -- SFU are closed.
  unfoldable pub listen_once : String → List SfuEvent → Quiet (Unit {0})
  listen_once sfu_addr events = do
    for_each events handle_sfu_event
    modify (invalidate_channel sfu_addr)
    close_rooms_due_to_sfu_addr sfu_addr "sfu connection lost; room closed"

-- The delay before the next round, in milliseconds, after a round that closed well or failed; the
-- jitter comes on top of it.
unfoldable pub next_delay : (backoff_min backoff_max delay : ℕ) → Bool → ℕ
next_delay backoff_min backoff_max delay closed =
    min ((if closed then backoff_min else delay) * 2) backoff_max
