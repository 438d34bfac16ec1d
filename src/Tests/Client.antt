-- ===== src/Tests/Client.antt =====
-- A small browser, and the theorems about the page and the room at concrete inputs.
use callifornia.Client.App.{App, nickname, on_nickname_success, on_signaling_ready, receive}
use callifornia.Client.Settings.{SettingsState, light}
use callifornia.Client.App.Entry.{IsIn, joined-IsIn}
use callifornia.Client.App.Rooms.{IsTidy}
use callifornia.Client.App.Steps.{IsShown, IsValid, Step, Reached, start, step, reached-IsValid}
use callifornia.Client.Room.{page_range}
use callifornia.Client.Room.Paging.{IsDrawn, clicks, clicks-IsDrawn}
use callifornia.Client.Messages
use callifornia.Client.Messages.{Browser, SignalingStart, SignalingReadyResponse, joined}
use callifornia.Client.Signaling.{Handler, handle_server_message}
use callifornia.Exec.{ok, err}
use callifornia.Prelude.{String, List, [], ◌∷◌, none, some, true, false, arith}

-- The page is the list of the texts that were sent; a value of JavaScript is a text.
instance abbrev browser : Browser
browser = record {
  Page = List String;
  Socket = Unit;
  JsValue = String;
  Session = Unit;
  new_socket = λ url page. (ok tt, page);
  send_with_str = λ ws text page. (ok tt, text ∷ page);
  close = λ ws page. page;
  as_string = λ value. some value;
  stringify = λ value. none;
  to_json = λ message. ok "message";
  from_json = λ text. err text;
  logout_best_effort = λ session page. page;
  handle_remote_sdp = λ sdp sdp_type session page. page;
  handle_remote_ice_candidate = λ candidate sdp_mid session page. page;
}

abbrev settings : SettingsState
settings = record {
  theme = light;
  mic_enabled = true;
  camera_enabled = false;
  input_level = 100;
  output_level = 100;
  mic_device_id = "default";
  speaker_device_id = "default";
  camera_device_id = "default";
}

abbrev first_page : App
first_page = record {
  page = [];
  settings_state = settings;
  screen = nickname;
  session_id = none;
  handoff_complete = false;
  signaling_ws_connected = false;
  signaling_start = none;
  signaling_client = none;
  active_room = none;
  app_error = none;
  media_error = none;
  webrtc_session = none;
}

first_page-IsValid : IsValid first_page
unfolding IsTidy IsShown
first_page-IsValid = record { tidy = tt; shown = tt }

abbrev response : SignalingReadyResponse
response = record { signaling_url = "wss://node"; session_id = "s1"; token = "t1" }

abbrev begin : SignalingStart
begin = record {
  signaling_url = "wss://node";
  session_id = "s1";
  token = "t1";
  intent = Messages.SignalingIntent.join "r1";
}

-- The node names ann and bob, bob twice, and leaves out carl, whose page it is.
abbrev join_r1 : Handler (Unit {0})
join_r1 = handle_server_message tt begin (joined "r1" "carl" ("ann" ∷ "bob" ∷ "bob" ∷ []))

abbrev named : App
named = on_nickname_success "s1" first_page

abbrev ready : App
ready = on_signaling_ready response (Messages.SignalingIntent.join "r1") named

abbrev in_room : App
in_room = receive join_r1 ready

in_room-Reached : Reached first_page in_room
in_room-Reached =
    step
      (step (step start (Step.nickname_success first_page "s1"))
        (Step.signaling_ready named response (Messages.SignalingIntent.join "r1")))
      (Step.socket ready join_r1)

reached-IsValid_example : IsValid in_room
reached-IsValid_example = reached-IsValid in_room-Reached first_page-IsValid

joined-IsIn_example : IsIn "r1" "carl" ("ann" ∷ "bob" ∷ "bob" ∷ []) in_room
joined-IsIn_example = joined-IsIn tt begin "r1" "carl" ("ann" ∷ "bob" ∷ "bob" ∷ []) ready

-- The ninth of ten participants, beside a presentation: two clicks away.
clicks-IsDrawn_example : IsDrawn 4 10 8 (page_range true 10 (clicks true 10 2))
clicks-IsDrawn_example = clicks-IsDrawn true 10 8 (omega arith)
