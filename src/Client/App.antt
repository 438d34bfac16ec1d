-- ===== src/Client/App.antt =====
-- client/src/app.rs: the state of the page and its callbacks. The lifecycle
-- of the WebRTC session and what is drawn are not modelled, only that the SDP and the candidates of
-- the SFU go to that session.
pub mod Rooms
pub mod Steps
pub mod Entry
use callifornia.Client.Participants.{
  ActiveRoom, from_snapshot, active_room_with_participant, active_room_without_participant,
}
use callifornia.Client.Settings.{Theme, SettingsState}
use callifornia.Client.Messages.{
  Browser, SignalingIntent, SignalingStart, SignalingReadyResponse, new_start, RoomSnapshot,
  ServerErrorCode, SignalingError, SignalingEvent, connected, disconnected, room_ready,
  participant_joined, participant_left, left, room_closed, error, service_unavailable, remote_sdp,
  remote_ice_candidate, invalid_room_assignment, sfu_capacity_exhausted,
}
use callifornia.Client.Signaling.{Wire, Handler, SignalingClient, connect, drop_client, leave_room}
use callifornia.Exec.{Result, ok, err}
use callifornia.Map.{contains, discard}
use callifornia.Numerals.{print_u64}
use callifornia.Prelude.{
  ℕ, String, List, [], ◌∷◌, push, Option, none, some, Bool, true, false, not, if◌then◌else◌,
}
use mathlib.Core.Option
use Prim.Native.String.{◌++◌}

pub data AppScreen : Type 0 where
  nickname main_menu join_room room : AppScreen

-- `error.code == Some(InvalidRoomAssignment)`, or the same with `SfuCapacityExhausted`
unfoldable pub ends_call : Option ServerErrorCode → Bool
ends_call (some invalid_room_assignment) = true
ends_call (some sfu_capacity_exhausted) = true
ends_call _ = false

module _ ⦃b : Browser⦄ where
  pub record App : Type 0 where
    pub page : b.Page
    pub settings_state : SettingsState
    pub screen : AppScreen
    pub session_id : Option String
    pub handoff_complete : Bool
    pub signaling_ws_connected : Bool
    pub signaling_start : Option SignalingStart
    pub signaling_client : Option SignalingClient
    pub active_room : Option ActiveRoom
    pub app_error : Option String
    pub media_error : Option String
    pub webrtc_session : Option b.Session

  unfoldable pub on_theme : Theme → App → App
  on_theme next app = record app { settings_state = record app.settings_state { theme = next } }

  unfoldable pub on_toggle_mic : App → App
  on_toggle_mic app = record app {
    settings_state = record app.settings_state { mic_enabled = not app.settings_state.mic_enabled };
  }

  unfoldable pub on_toggle_camera : App → App
  on_toggle_camera app = record app {
    settings_state = record app.settings_state {
      camera_enabled = not app.settings_state.camera_enabled;
    };
  }

  unfoldable pub on_input_level_change : ℕ → App → App
  on_input_level_change next_level app = record app {
    settings_state = record app.settings_state { input_level = next_level };
  }

  unfoldable pub on_output_level_change : ℕ → App → App
  on_output_level_change next_level app = record app {
    settings_state = record app.settings_state { output_level = next_level };
  }

  unfoldable pub on_mic_device_change : String → App → App
  on_mic_device_change device_id app = record app {
    settings_state = record app.settings_state { mic_device_id = device_id };
  }

  unfoldable pub on_speaker_device_change : String → App → App
  on_speaker_device_change device_id app = record app {
    settings_state = record app.settings_state { speaker_device_id = device_id };
  }

  unfoldable pub on_camera_device_change : String → App → App
  on_camera_device_change device_id app = record app {
    settings_state = record app.settings_state { camera_device_id = device_id };
  }

  -- What both ways to the first two screens reset.
  unfoldable pub reset : App → App
  reset app = record app {
    handoff_complete = false;
    signaling_ws_connected = false;
    signaling_start = none;
    active_room = none;
    app_error = none;
    media_error = none;
  }

  unfoldable pub on_nickname_success : String → App → App
  on_nickname_success new_session_id app = record (reset app) {
    session_id = some new_session_id;
    screen = main_menu;
  }

  unfoldable pub log_out : Option String → b.Page → b.Page
  log_out none page = page
  log_out (some sid) page = b.logout_best_effort sid page

  unfoldable pub on_back_to_nickname : App → App
  on_back_to_nickname app = record (reset app) {
    page = log_out app.session_id app.page;
    session_id = none;
    screen = nickname;
  }

  unfoldable pub on_open_join_room : App → App
  on_open_join_room app = record app { screen = join_room }

  -- What a handler of the socket leaves of the page.
  unfoldable pub page_after : {A : Type 0} → Handler A → b.Page → Wire
  page_after handler page = (handler (record { page = page; emitted = [] })).1

  unfoldable pub leave_page :
      Option SignalingClient → Option String → Option ActiveRoom → b.Page → b.Page
  leave_page (some client) (some session) (some r) page =
      (page_after (leave_room client session r.room_id r.participants) page).page
  leave_page _ _ _ page = page

  unfoldable pub on_back_to_main_menu : App → App
  on_back_to_main_menu app = record app {
    page = leave_page app.signaling_client app.session_id app.active_room app.page;
    signaling_start = none;
    active_room = none;
    signaling_ws_connected = false;
    app_error = none;
    media_error = none;
    screen = main_menu;
  }

  unfoldable pub on_signaling_ready : SignalingReadyResponse → SignalingIntent → App → App
  on_signaling_ready response intent app = record app {
    app_error = none;
    signaling_start = some (new_start response intent);
  }

  unfoldable pub opened : Result String SignalingClient → App → App
  opened (ok client) app = record app { signaling_client = some client }
  opened (err message) app = record app { app_error = some message; screen = main_menu }

  -- The effect of a new `signaling_start`: the old client is dropped first.
  unfoldable pub start_signaling : Option SignalingStart → App → App
  start_signaling none app = app
  start_signaling (some start) app =
      let (r, page) = connect start app.page in opened r (record app { page = page })

  unfoldable pub open_signaling : Option SignalingStart → App → App
  open_signaling start app =
      start_signaling start
        (record app { page = drop_client app.signaling_client app.page; signaling_client = none })

  unfoldable pub end_call : Option String → App → App
  end_call message app = record app {
    active_room = none;
    signaling_start = none;
    signaling_ws_connected = false;
    app_error = message;
    screen = main_menu;
  }

  unfoldable pub with_reason : Option String → Option String → Option String
  with_reason none old = old
  with_reason (some reason) old = some ("Signaling disconnected before joining room: " ++ reason)

  unfoldable pub on_disconnected : Option ActiveRoom → Option String → App → App
  on_disconnected (some r) reason app = record app { signaling_ws_connected = false }
  on_disconnected none reason app = record app {
    signaling_ws_connected = false;
    app_error = with_reason reason app.app_error;
    signaling_start = none;
    screen = main_menu;
  }

  unfoldable pub on_signaling_error : SignalingError → App → App
  on_signaling_error e app =
      if ends_call e.code
      then record (end_call (some e.message) app) { handoff_complete = false }
      else record app { app_error = some e.message }

  unfoldable pub with_session : (b.Session → b.Page → b.Page) → Option b.Session → b.Page → b.Page
  with_session f none page = page
  with_session f (some session) page = f session page

  -- The callback of the events; `seen` is what the handle of `active_room` reads.
  unfoldable pub handle_event : Option ActiveRoom → SignalingEvent → App → App
  handle_event seen connected app = record app {
    signaling_ws_connected = true;
    handoff_complete = true;
  }
  handle_event seen (disconnected reason) app = on_disconnected seen reason app
  handle_event seen (room_ready snapshot) app = record app {
    active_room = some (from_snapshot snapshot);
    app_error = none;
    media_error = none;
    screen = room;
  }
  handle_event seen (participant_joined name) app = record app {
    active_room = active_room_with_participant seen name;
  }
  handle_event seen (participant_left name) app = record app {
    active_room = active_room_without_participant seen name;
  }
  handle_event seen (left room_id) app = end_call (some ("Left room " ++ (room_id ++ "."))) app
  handle_event seen (room_closed room_id reason) app =
      end_call (some ("Room " ++ (room_id ++ (" closed: " ++ reason)))) app
  handle_event seen (error e) app = on_signaling_error e app
  handle_event seen (service_unavailable dependency retry_after_ms) app =
      end_call
        (some
          (dependency ++ (" unavailable. Retry after " ++ (print_u64 retry_after_ms ++ " ms."))))
        app
  handle_event seen (remote_sdp sdp sdp_type) app = record app {
    page = with_session (b.handle_remote_sdp sdp sdp_type) app.webrtc_session app.page;
  }
  handle_event seen (remote_ice_candidate candidate sdp_mid) app = record app {
    page =
        with_session (b.handle_remote_ice_candidate candidate sdp_mid) app.webrtc_session app.page;
  }

  -- The events that a handler emitted, each with the room that was set last.
  unfoldable pub deliver : List SignalingEvent → App → App
  deliver [] app = app
  deliver (event ∷ events) app = deliver events (handle_event app.active_room event app)

  -- A handler of the socket, as the page sees it.
  unfoldable pub receive : Handler (Unit {0}) → App → App
  receive handler app =
      let w = page_after handler app.page in deliver w.emitted (record app { page = w.page })
