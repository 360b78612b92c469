-- ===== src/Api/Windows/Asked.antt =====
-- sigmascope/api.py: the channels for which `_run_windows` asks.
use sigmascope.Base.{List, [], ◌∷◌, ◌≡◌, refl, ap, ◌∙◌}
use sigmascope.Base.{Text, none, some, Option}
use sigmascope.Model.{ParseResult, Verdict}
use sigmascope.Catalog.{Provider, windows_audit, sysmon, auditd, Requirement, SysmonProvider}
use sigmascope.Evaluate.WindowsGates.{AuditProvider}
use sigmascope.Api.Windows.{WindowsState, Channels, judge_audit}
use sigmascope.Api.Windows.{judge_parsed, judge_sysmon, judge_sysmon_by}
use sigmascope.Api.Windows.{windows_outputs}
use sigmascope.Api.Windows.{sysmon_unavailable}
use sigmascope.Api.Windows.Cache.{names, add_name, names-channel}

-- The channels that the providers ask for: those of the audit policy always, and those of Sysmon
-- where its configuration is available.
abbrev pub sysmon_channel :
    Option (Verdict × Text) → Option ParseResult → SysmonProvider → List Text
sysmon_channel (some result) parsed p = []
sysmon_channel none none p = []
sysmon_channel none (some parsed) p = p.channel ∷ []

abbrev pub channel_of : WindowsState → Provider → List Text
channel_of state (windows_audit p) = p.channel ∷ []
channel_of state (sysmon p) =
    sysmon_channel (sysmon_unavailable state.sysmon state.sysmon_parsed) state.sysmon_parsed p
channel_of state (auditd p) = []

-- Each of them once, in the order in which they come first.
abbrev pub add_names : List Text → List Text → List Text
add_names seen [] = seen
add_names seen (name ∷ rest) = add_names (add_name seen name) rest

abbrev pub add_asked : WindowsState → List Provider → List Text → List Text
add_asked state [] seen = seen
add_asked state (p ∷ rest) seen = add_asked state rest (add_names seen (channel_of state p))

abbrev pub add_channels : WindowsState → List Requirement → List Text → List Text
add_channels state [] seen = seen
add_channels state (r ∷ rest) seen = add_channels state rest (add_asked state r.providers seen)

module _ (state : WindowsState) where
  names-judge_audit :
      (p : AuditProvider) (channels : Channels)
      → names (judge_audit state p channels).1.known ≡ add_name (names channels.known) p.channel
  unfolding judge_audit
  names-judge_audit p channels = names-channel state.channel_config p.channel channels

  names-judge_parsed :
      (parsed : ParseResult) (p : SysmonProvider) (channels : Channels)
      → names (judge_parsed state parsed p channels).1.known
        ≡ add_name (names channels.known) p.channel
  unfolding judge_parsed
  names-judge_parsed parsed p channels = names-channel state.channel_config p.channel channels

  names-judge_sysmon_by :
      (unavailable : Option (Verdict × Text)) (parsed : Option ParseResult) (p : SysmonProvider)
      (channels : Channels)
      → names (judge_sysmon_by state unavailable parsed p channels).1.known
        ≡ add_names (names channels.known) (sysmon_channel unavailable parsed p)
  names-judge_sysmon_by (some result) parsed p channels = refl
  names-judge_sysmon_by none none p channels = refl
  names-judge_sysmon_by none (some parsed) p channels = names-judge_parsed parsed p channels

  names-judge_sysmon :
      (p : SysmonProvider) (channels : Channels)
      → names (judge_sysmon state p channels).1.known
        ≡ add_names (names channels.known) (channel_of state (sysmon p))
  unfolding judge_sysmon
  names-judge_sysmon p channels =
      names-judge_sysmon_by (sysmon_unavailable state.sysmon state.sysmon_parsed)
        state.sysmon_parsed p channels

  pub names-windows_outputs :
      (providers : List Provider) (channels : Channels)
      → names (windows_outputs state providers channels).1.known
        ≡ add_asked state providers (names channels.known)
  unfolding windows_outputs
  names-windows_outputs [] channels = refl
  names-windows_outputs (windows_audit p ∷ rest) channels =
      names-windows_outputs rest (judge_audit state p channels).1
      ∙ ap (add_asked state rest) (names-judge_audit p channels)
  names-windows_outputs (sysmon p ∷ rest) channels =
      names-windows_outputs rest (judge_sysmon state p channels).1
      ∙ ap (add_asked state rest) (names-judge_sysmon p channels)
  names-windows_outputs (auditd p ∷ rest) channels = names-windows_outputs rest channels
