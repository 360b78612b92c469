-- ===== src/Collect/Windows/Handles.antt =====
-- The handles of sigmascope/collect/windows/channels.py and sysmon.py: the calls that open, use and
-- close them.
use sigmascope.Base.{ℕ, Bool, true, List, [], ◌∷◌, ◌≡◌, refl, ◌∙◌, arith, Text, nat_beq}
use sigmascope.Base.{any}
use sigmascope.Collect.Windows.Calls.{opened, used, closed, Calls, open_handles, is_legal, remove}
use sigmascope.Collect.Windows.Channels.{EventLog, get_channel_config}
use sigmascope.Collect.Windows.Services.{ServiceManager, query_service, service_state}
use sigmascope.Collect.Windows.Sysmon.{SysmonHost, find_service, service_names, collect_sysmon}

-- Between two moments, all that was opened was closed, and nothing was used or closed that was not
-- open.
pub record IsBalanced (before after : Calls) : Type 0 where
  pub same_open : open_handles after ≡ open_handles before
  pub same_legal : is_legal after ≡ is_legal before

pub nat_beq_refl : (n : ℕ) → nat_beq n n ≡ true
nat_beq_refl n = ground arith

pub IsBalanced-refl : (s : Calls) → IsBalanced s s
IsBalanced-refl s = record { same_open = refl; same_legal = refl }

pub IsBalanced-trans : {s t u : Calls} → IsBalanced s t → IsBalanced t u → IsBalanced s u
IsBalanced-trans a b = record {
  same_open = b.same_open ∙ a.same_open;
  same_legal = b.same_legal ∙ a.same_legal;
}

-- A handle that is opened, used by calls that keep the balance, and closed.
pub IsBalanced-close :
    (h : ℕ) (s t : Calls) → IsBalanced (opened h ∷ s) t → IsBalanced s (closed h ∷ t)
unfolding open_handles is_legal remove any
IsBalanced-close h s t b = record {
  same_open = rw (b.same_open, nat_beq_refl h) refl;
  same_legal = rw (b.same_open, b.same_legal, nat_beq_refl h) refl;
}

pub IsBalanced-use : (h : ℕ) (s : Calls) → IsBalanced (opened h ∷ s) (used h ∷ opened h ∷ s)
unfolding open_handles is_legal any
IsBalanced-use h s = record { same_open = refl; same_legal = rw (nat_beq_refl h) refl }

-- Whatever the event log answers, `get_channel_config` closes what it opened, once, and uses no
-- handle that is not open.
pub get_channel_config-IsBalanced :
    (log : EventLog) (is_windows : Bool) (name : Text) (s : Calls)
    → IsBalanced s (get_channel_config log is_windows name s).1
unfolding get_channel_config
get_channel_config-IsBalanced log is_windows name s =
    let h = log.open_channel_config s name in
    ground (arith, IsBalanced-refl s, IsBalanced-close h s _ (IsBalanced-use h s))

module _ (api : ServiceManager) where
  query_service-IsBalanced :
      (scm : ℕ) (name : Text) (s : Calls)
      → IsBalanced (opened scm ∷ s) (query_service api scm name (opened scm ∷ s)).1
  unfolding query_service
  query_service-IsBalanced scm name s =
      let h = api.open_service (opened scm ∷ s) scm name in
      let start = used scm ∷ opened scm ∷ s in
      let inner = IsBalanced-close h start _ (IsBalanced-use h start) in
      ground (arith, IsBalanced-use scm s, IsBalanced-trans (IsBalanced-use scm s) inner)

  -- Whatever the service manager answers, `_service_state` closes the handle of the service and that
  -- of the manager when it opened them, once, and uses no handle that is not open.
  pub service_state-IsBalanced :
      (is_windows : Bool) (name : Text) (s : Calls)
      → IsBalanced s (service_state api is_windows name s).1
  unfolding service_state
  service_state-IsBalanced is_windows name s =
      let scm = api.open_manager s in
      ground
        (arith, IsBalanced-refl s, IsBalanced-close scm s _ (query_service-IsBalanced scm name s))

module _ (host : SysmonHost) where
  find_service-IsBalanced :
      (names : List Text) (s : Calls) → IsBalanced s (find_service host names s).1
  unfolding find_service
  find_service-IsBalanced [] s = IsBalanced-refl s
  find_service-IsBalanced (name ∷ names) s =
      let first = service_state-IsBalanced host.services true name s in
      let rest = find_service-IsBalanced names (service_state host.services true name s).1 in
      ground (arith, first, IsBalanced-trans first rest)

  -- Whatever the service manager answers, the Sysmon collector closes each handle that it opened,
  -- once, also where it raises an exception, and uses no handle that is not open.
  pub collect_sysmon-IsBalanced :
      (is_windows : Bool) (s : Calls) → IsBalanced s (collect_sysmon host is_windows s).1
  unfolding collect_sysmon
  collect_sysmon-IsBalanced is_windows s =
      ground (arith, IsBalanced-refl s, find_service-IsBalanced service_names s)
