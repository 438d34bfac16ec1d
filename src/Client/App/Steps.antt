-- ===== src/Client/App/Steps.antt =====
-- client/src/app.rs: the steps of the page, and what holds of each page that they reach.
use callifornia.Client.App.{
  App, AppScreen, nickname, main_menu, join_room, room, ends_call, on_theme, on_toggle_mic,
  on_toggle_camera, on_input_level_change, on_output_level_change, on_mic_device_change,
  on_speaker_device_change, on_camera_device_change, reset, on_nickname_success,
  on_back_to_nickname, on_open_join_room, on_back_to_main_menu, on_signaling_ready, opened,
  open_signaling, start_signaling, end_call, on_disconnected, on_signaling_error, handle_event,
  deliver, receive,
}
use callifornia.Client.Participants.{
  ActiveRoom, from_snapshot, active_room_with_participant, active_room_without_participant,
}
use callifornia.Client.Settings.{Theme}
use callifornia.Client.App.Rooms.{
  IsTidy, unique_participants-IsUnique, with_participant-IsTidy, without_participant-IsTidy,
}
use callifornia.Client.Messages.{
  Browser, SignalingIntent, SignalingReadyResponse, SignalingEvent, connected, disconnected,
  room_ready, participant_joined, participant_left, left, room_closed, error, service_unavailable,
  remote_sdp, remote_ice_candidate,
}
use callifornia.Client.Signaling.{Handler, SignalingClient, connect}
use callifornia.Exec.{Result, ok, err}
use callifornia.Prelude.{ℕ, String, List, [], ◌∷◌, Option, none, some, Bool-cases, inl, inr}

-- The page shows the room only if there is one.
unfoldable pub IsShown : AppScreen → Option ActiveRoom → Type 0
IsShown room none = ⊥
IsShown _ _ = Unit

-- The room's participants are listed once each, and the screen of the room is shown only while
-- there is a room.
pub record IsConsistent (screen : AppScreen) (r : Option ActiveRoom) : Type 0 where
  pub tidy : IsTidy r
  pub shown : IsShown screen r

module _ ⦃b : Browser⦄ where
  -- What the page keeps.
  abbrev pub IsValid : App → Type 0
  IsValid app = IsConsistent app.screen app.active_room

  with_participant-IsShown :
      (s : AppScreen) (r : Option ActiveRoom) (name : String)
      → IsShown s r
      → IsShown s (active_room_with_participant r name)
  unfolding active_room_with_participant IsShown
  with_participant-IsShown s none name h = h
  with_participant-IsShown room (some r) name h = tt
  with_participant-IsShown nickname (some r) name h = tt
  with_participant-IsShown main_menu (some r) name h = tt
  with_participant-IsShown join_room (some r) name h = tt

  without_participant-IsShown :
      (s : AppScreen) (r : Option ActiveRoom) (name : String)
      → IsShown s r
      → IsShown s (active_room_without_participant r name)
  unfolding active_room_without_participant IsShown
  without_participant-IsShown s none name h = h
  without_participant-IsShown room (some r) name h = tt
  without_participant-IsShown nickname (some r) name h = tt
  without_participant-IsShown main_menu (some r) name h = tt
  without_participant-IsShown join_room (some r) name h = tt

  main_menu-IsShown : (r : Option ActiveRoom) → IsShown main_menu r
  unfolding IsShown
  main_menu-IsShown none = tt
  main_menu-IsShown (some r) = tt

  join_room-IsShown : (r : Option ActiveRoom) → IsShown join_room r
  unfolding IsShown
  join_room-IsShown none = tt
  join_room-IsShown (some r) = tt

  disconnected-IsValid :
      (seen : Option ActiveRoom) (reason : Option String) (app : App)
      → IsValid app
      → IsValid (on_disconnected seen reason app)
  unfolding on_disconnected
  disconnected-IsValid (some r) reason app i = i
  disconnected-IsValid none reason app i = record {
    tidy = i.tidy;
    shown = main_menu-IsShown app.active_room;
  }

  error-IsValid : (e : _) (app : App) → IsValid app → IsValid (on_signaling_error e app)
  unfolding on_signaling_error end_call IsTidy IsShown
  error-IsValid e app i = elim (Bool-cases (ends_call e.code)) [
    | inl h ↦ rw h (record { tidy = tt; shown = tt })
    | inr h ↦ rw h i
  ]

  handle_event-IsValid :
      (event : SignalingEvent) (app : App)
      → IsValid app
      → IsValid (handle_event app.active_room event app)
  unfolding handle_event end_call from_snapshot IsTidy IsShown
  handle_event-IsValid connected app i = i
  handle_event-IsValid (disconnected reason) app i =
      disconnected-IsValid app.active_room reason app i
  handle_event-IsValid (room_ready snapshot) app i = record {
    tidy = unique_participants-IsUnique snapshot.participants;
    shown = tt;
  }
  handle_event-IsValid (participant_joined name) app i = record {
    tidy = with_participant-IsTidy app.active_room name i.tidy;
    shown = with_participant-IsShown app.screen app.active_room name i.shown;
  }
  handle_event-IsValid (participant_left name) app i = record {
    tidy = without_participant-IsTidy app.active_room name i.tidy;
    shown = without_participant-IsShown app.screen app.active_room name i.shown;
  }
  handle_event-IsValid (left room_id) app i = record { tidy = tt; shown = tt }
  handle_event-IsValid (room_closed room_id reason) app i = record { tidy = tt; shown = tt }
  handle_event-IsValid (error e) app i = error-IsValid e app i
  handle_event-IsValid (service_unavailable dependency ms) app i = record { tidy = tt; shown = tt }
  handle_event-IsValid (remote_sdp sdp sdp_type) app i = i
  handle_event-IsValid (remote_ice_candidate candidate sdp_mid) app i = i

  deliver-IsValid :
      (events : List SignalingEvent) (app : App) → IsValid app → IsValid (deliver events app)
  unfolding deliver
  deliver-IsValid [] app i = i
  deliver-IsValid (event ∷ events) app i =
      deliver-IsValid events (handle_event app.active_room event app)
        (handle_event-IsValid event app i)

  opened-IsValid :
      (r : Result String SignalingClient) (app : App) → IsValid app → IsValid (opened r app)
  unfolding opened
  opened-IsValid (ok client) app i = i
  opened-IsValid (err message) app i = record {
    tidy = i.tidy;
    shown = main_menu-IsShown app.active_room;
  }

  start_signaling-IsValid :
      (start : _) (app : App) → IsValid app → IsValid (start_signaling start app)
  unfolding start_signaling
  start_signaling-IsValid none app i = i
  start_signaling-IsValid (some start) app i =
      let (r, page) = connect start app.page in opened-IsValid r (record app { page = page }) i

  open_signaling-IsValid :
      (start : _) (app : App) → IsValid app → IsValid (open_signaling start app)
  unfolding open_signaling
  open_signaling-IsValid start app i = start_signaling-IsValid start _ i

  -- What a user does, what the socket does by any of its handlers, and the effects of the page.
  pub data Step : App → App → Type 0 where
    theme : (app : App) (next : Theme) → Step app (on_theme next app)
    toggle_mic : (app : App) → Step app (on_toggle_mic app)
    toggle_camera : (app : App) → Step app (on_toggle_camera app)
    input_level : (app : App) (level : ℕ) → Step app (on_input_level_change level app)
    output_level : (app : App) (level : ℕ) → Step app (on_output_level_change level app)
    mic_device : (app : App) (device : String) → Step app (on_mic_device_change device app)
    speaker_device : (app : App) (device : String) → Step app (on_speaker_device_change device app)
    camera_device : (app : App) (device : String) → Step app (on_camera_device_change device app)
    nickname_success : (app : App) (session : String) → Step app (on_nickname_success session app)
    back_to_nickname : (app : App) → Step app (on_back_to_nickname app)
    open_join_room : (app : App) → Step app (on_open_join_room app)
    back_to_main_menu : (app : App) → Step app (on_back_to_main_menu app)
    signaling_ready :
        (app : App) (response : SignalingReadyResponse) (intent : SignalingIntent)
        → Step app (on_signaling_ready response intent app)
    signaling_start : (app : App) → Step app (open_signaling app.signaling_start app)
    socket : (app : App) (handler : Handler (Unit {0})) → Step app (receive handler app)

  pub data Reached : App → App → Type 0 where
    start : {app : App} → Reached app app
    step : {app app' app'' : App} → Reached app app' → Step app' app'' → Reached app app''

  step-IsValid : {app app' : App} → Step app app' → IsValid app → IsValid app'
  unfolding on_theme on_toggle_mic on_toggle_camera on_input_level_change on_output_level_change
      on_mic_device_change on_speaker_device_change on_camera_device_change on_nickname_success
      on_back_to_nickname on_open_join_room on_back_to_main_menu on_signaling_ready receive reset
      IsTidy IsShown
  step-IsValid (theme app next) i = i
  step-IsValid (toggle_mic app) i = i
  step-IsValid (toggle_camera app) i = i
  step-IsValid (input_level app level) i = i
  step-IsValid (output_level app level) i = i
  step-IsValid (mic_device app device) i = i
  step-IsValid (speaker_device app device) i = i
  step-IsValid (camera_device app device) i = i
  step-IsValid (nickname_success app session) i = record { tidy = tt; shown = tt }
  step-IsValid (back_to_nickname app) i = record { tidy = tt; shown = tt }
  step-IsValid (open_join_room app) i = record {
    tidy = i.tidy;
    shown = join_room-IsShown app.active_room;
  }
  step-IsValid (back_to_main_menu app) i = record { tidy = tt; shown = tt }
  step-IsValid (signaling_ready app response intent) i = i
  step-IsValid (signaling_start app) i = open_signaling-IsValid app.signaling_start app i
  step-IsValid (socket app handler) i = deliver-IsValid _ _ i

  -- Of a page that keeps its rule, every page that is reached keeps it: no participant of the room is
  -- listed twice, and the screen of the room is shown only while there is a room.
  pub reached-IsValid : {app app' : App} → Reached app app' → IsValid app → IsValid app'
  reached-IsValid start i = i
  reached-IsValid (step more s) i = step-IsValid s (reached-IsValid more i)
