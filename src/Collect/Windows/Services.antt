-- ===== src/Collect/Windows/Services.antt =====
-- sigmascope/collect/windows/sysmon.py: `_service_state`, over the platform and advapi32.
use sigmascope.Base.{ℕ, Bool, true, false, not, ◌∷◌, if◌then◌else◌, nat_beq}
use sigmascope.Base.{Text, lit, Option, none, some}
use sigmascope.Collect.Windows.Calls.{opened, used, closed, Calls}
use sigmascope.Collect.Windows.Channels.{win_error}

-- `OpenSCManagerW` and `OpenServiceW`, whose NULL is 0; `QueryServiceStatusEx`, which gives
-- dwCurrentState or fails; and `ctypes.get_last_error`.
pub record ServiceManager : Type 0 where
  pub open_manager : Calls → ℕ
  pub open_service : Calls → ℕ → Text → ℕ
  pub query_status : Calls → ℕ → Option ℕ
  pub last_error : Calls → ℕ

-- The state of a service: whether it runs, whether it exists, and an error.
abbrev pub ServiceState : Type 0
ServiceState = Option Bool × Bool × Option Text

abbrev pub service_running : ℕ
service_running = 4

abbrev pub error_service_does_not_exist : ℕ
error_service_does_not_exist = 1060

module _ (api : ServiceManager) where
  abbrev pub status_of : Option ℕ → Calls → ServiceState
  status_of none s = (none, true, some (win_error (lit "QueryServiceStatusEx") (api.last_error s)))
  status_of (some state) s = (some (nat_beq state service_running), true, none)

  abbrev pub no_service : Calls → ServiceState
  no_service s =
      if nat_beq (api.last_error s) error_service_does_not_exist
      then (some false, false, none)
      else (none, false, some (win_error (lit "OpenServiceW") (api.last_error s)))

  -- The body of the outer `try`, on the handle of the manager.
  unfoldable pub query_service : ℕ → Text → Calls → ServiceState × Calls
  query_service scm name s =
      let s1 = used scm ∷ s in
      let service = api.open_service s scm name in
      let s2 = opened service ∷ s1 in
      let s3 = used service ∷ s2 in
      if nat_beq service 0
      then (no_service s1, s1)
      else (status_of (api.query_status s2 service) s3, closed service ∷ s3)

  unfoldable pub service_state : Bool → Text → Calls → ServiceState × Calls
  unfolding query_service
  service_state is_windows name s =
      let scm = api.open_manager s in
      let (state, s1) = query_service scm name (opened scm ∷ s) in
      if not is_windows
      then ((none, false, some (lit "Windows service APIs are unavailable")), s)
      else if nat_beq scm 0
      then ((none, false, some (win_error (lit "OpenSCManagerW") (api.last_error s))), s)
      else (state, closed scm ∷ s1)
