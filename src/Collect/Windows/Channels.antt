-- ===== src/Collect/Windows/Channels.antt =====
-- sigmascope/collect/windows/channels.py: `get_channel_config`, over the platform and wevtapi.
use sigmascope.Base.{ℕ, Bool, not, ◌∷◌, ◌++◌, if◌then◌else◌, nat_beq}
use sigmascope.Base.{Text, lit, nat_text, Option, none, some}
use sigmascope.Evaluate.WindowsGates.{ChannelConfig}
use sigmascope.Collect.Windows.Calls.{opened, used, closed, Calls}

-- `EvtOpenChannelConfig`, whose NULL is 0; `EvtGetChannelConfigProperty` with
-- EVT_CHANNEL_CONFIG_ENABLED, which gives the value's BooleanVal or fails; and
-- `ctypes.get_last_error`.
pub record EventLog : Type 0 where
  pub open_channel_config : Calls → Text → ℕ
  pub get_enabled : Calls → ℕ → Option ℕ
  pub last_error : Calls → ℕ

abbrev pub no_channel : Text → Text → ChannelConfig
no_channel message name = record {
  enabled = none;
  error = some (record { source_id = lit "windows.channel"; message = message; resource = name });
}

abbrev pub win_error : Text → ℕ → Text
win_error operation code = operation ++ lit " failed: WinError " ++ nat_text code

module _ (log : EventLog) where
  -- The body of the `try`.
  abbrev pub channel_property : Text → Option ℕ → Calls → ChannelConfig
  channel_property name none s =
      no_channel (win_error (lit "EvtGetChannelConfigProperty") (log.last_error s)) name
  channel_property name (some value) s = record {
    enabled = some (not (nat_beq value 0));
    error = none;
  }

  unfoldable pub get_channel_config : Bool → Text → Calls → ChannelConfig × Calls
  get_channel_config is_windows name s =
      let handle = log.open_channel_config s name in
      let s1 = opened handle ∷ s in
      let s2 = used handle ∷ s1 in
      if not is_windows
      then (no_channel (lit "Windows Event Log APIs are unavailable on this platform") name, s)
      else if nat_beq handle 0
      then (no_channel (win_error (lit "EvtOpenChannelConfig") (log.last_error s)) name, s)
      else (channel_property name (log.get_enabled s1 handle) s2, closed handle ∷ s2)
