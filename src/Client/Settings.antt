-- ===== src/Client/Settings.antt =====
-- client/src/theme.rs and the settings of client/src/app.rs.
use callifornia.Prelude.{ℕ, String, Bool}

pub data Theme : Type 0 where
  light dark : Theme

-- `Theme::toggle`
unfoldable pub toggle : Theme → Theme
toggle light = dark
toggle dark = light

pub record SettingsState : Type 0 where
  pub theme : Theme
  pub mic_enabled : Bool
  pub camera_enabled : Bool
  pub input_level : ℕ
  pub output_level : ℕ
  pub mic_device_id : String
  pub speaker_device_id : String
  pub camera_device_id : String
