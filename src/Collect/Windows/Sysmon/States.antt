-- ===== src/Collect/Windows/Sysmon/States.antt =====
-- sigmascope/collect/windows/sysmon.py: what the answer of the collector means.
use sigmascope.Base.{true, false, List, [], ◌∷◌, ◌≡◌}
use sigmascope.Base.{Text, lit, Bytes, Option, none, some, is_empty, pos}
use sigmascope.Collect.Windows.Sysmon.Found.{Says}
use sigmascope.Model.{CollectionError}
use sigmascope.Collect.Process.{completed}
use sigmascope.Collect.Windows.Calls.{Calls}
use sigmascope.Collect.Windows.Sysmon.{
  SysmonBytes, SysmonHost, or_bytes, sysmon_bytes, Collected, returned,
}
use sigmascope.Collect.Windows.Sysmon.{service_names}

answer_of : Collected → SysmonBytes
answer_of (returned c) = c
answer_of _ = sysmon_bytes none none none []

module _ (host : SysmonHost) where
  -- The answers of the collector: where the configuration is missing there is an error, or Sysmon
  -- is not installed, or its service does not run.
  pub data Answers (s : Calls) : SysmonBytes → Type 0 where
    absent : Answers s (sysmon_bytes (some false) (some false) none [])
    uncertain :
        (e : CollectionError) (errors : List CollectionError)
        → Answers s (sysmon_bytes none none none (e ∷ errors))
    stopped :
        (name : Text) (errors : List CollectionError)
        → Says host service_names s name (some false)
        → Answers s (sysmon_bytes (some true) (some false) none errors)
    unqueried :
        (name : Text) (errors : List CollectionError)
        → Says host service_names s name none
        → is_empty errors ≡ false
        → Answers s (sysmon_bytes (some true) none none errors)
    undumped :
        (name : Text) (errors : List CollectionError)
        → Says host service_names s name (some true)
        → is_empty errors ≡ false
        → Answers s (sysmon_bytes (some true) (some true) none errors)
    dumped :
        (name executable : Text) (stdout stderr : Bytes) (errors : List CollectionError)
        → Says host service_names s name (some true)
        → host.is_file executable ≡ some true
        → host.run (executable ∷ lit "-c" ∷ []) ≡ completed (pos 0) stdout stderr
        → Answers s (sysmon_bytes (some true) (some true) (some (or_bytes stdout stderr)) errors)
