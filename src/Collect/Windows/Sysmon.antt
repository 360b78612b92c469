-- ===== src/Collect/Windows/Sysmon.antt =====
-- sigmascope/collect/windows/sysmon.py: `collect_sysmon`. A path without a first word is an
-- IndexError, and `Path.is_file` can raise an OSError; both leave the collector.
pub mod Found
pub mod States
pub mod Blank
use sigmascope.Base.{ℕ, Bool, true, false, not, ◌&&◌, List, [], ◌∷◌, ◌++◌, if◌then◌else◌, is_empty}
use sigmascope.Base.{Text, lit, member, Bytes, Option, none, some, find}
use sigmascope.Model.{CollectionError}
use sigmascope.Collect.Process.{ProcessResult, raised, completed, is_success}
use sigmascope.Collect.Windows.Calls.{Calls}
use sigmascope.Collect.Windows.AuditpolCli.{exit_message}
use sigmascope.Collect.Windows.Registry.{RegistryAnswer}
use sigmascope.Collect.Windows.Services.{ServiceManager, ServiceState, service_state}
use sigmascope.Collect.Windows.Image.{WindowsPaths, service_image_path}

-- `SysmonCollection`, with the configuration in bytes.
pub record SysmonBytes : Type 0 where
  pub installed : Option Bool
  pub running : Option Bool
  pub current_config : Option Bytes
  pub errors : List CollectionError

-- What the collector asks of the host, beside the platform: `winreg`, `shutil.which`,
-- `Path.is_file`, which raises an OSError where the answer is `none`, `subprocess.run` and `bytes.decode("oem", "replace")`.
pub record SysmonHost : Type 0 where
  pub services : ServiceManager
  pub query_value : Text → Text → RegistryAnswer
  pub paths : WindowsPaths
  pub which : Text → Option Text
  pub is_file : Text → Option Bool
  pub run : List Text → ProcessResult
  pub oem : Bytes → Text

-- How the collector ends: with a collection, or with an exception.
pub data Collected : Type 0 where
  returned : SysmonBytes → Collected
  index_error : Collected
  file_error : Collected

abbrev pub sysmon_error : Text → Text → CollectionError
sysmon_error message resource = record {
  source_id = lit "sysmon";
  message = message;
  resource = resource;
}

-- What the loop over the names of the service found: its name and whether it runs.
abbrev pub FoundService : Type 0
FoundService = Option (Text × Option Bool) × List CollectionError

-- `if error: errors.append(...)`
abbrev pub service_error : Text → Option Text → List CollectionError
service_error name none = []
service_error name (some []) = []
service_error name (some (c ∷ s)) = sysmon_error (c ∷ s) name ∷ []

-- `if found and found not in candidates: candidates.append(found)`
abbrev pub add_candidate : List Text → Option Text → List Text
add_candidate candidates none = candidates
add_candidate candidates (some path) =
    if not (is_empty path) && not (member path candidates)
    then candidates ++ path ∷ []
    else candidates

abbrev pub service_names : List Text
service_names = lit "Sysmon64" ∷ lit "Sysmon" ∷ []

-- One turn of the loop, on the state of the service; the rest of the loop runs when it does not
-- exist.
abbrev pub next_service : Text → ServiceState → Calls → FoundService × Calls → FoundService × Calls
next_service name (state, true, error) s1 rest =
    ((some (name, state), service_error name error), s1)
next_service name (state, false, error) s1 ((later, errors), s2) =
    ((later, service_error name error ++ errors), s2)

-- `proc.stdout or proc.stderr`
abbrev pub or_bytes : Bytes → Bytes → Bytes
or_bytes [] stderr = stderr
or_bytes (b ∷ stdout) stderr = b ∷ stdout

abbrev pub sysmon_bytes :
    Option Bool → Option Bool → Option Bytes → List CollectionError → SysmonBytes
sysmon_bytes installed running current_config errors = record {
  installed = installed;
  running = running;
  current_config = current_config;
  errors = errors;
}

-- No service of either name.
abbrev pub without_service : List CollectionError → SysmonBytes
without_service [] = sysmon_bytes (some false) (some false) none []
without_service (e ∷ errors) = sysmon_bytes none none none (e ∷ errors)

module _ (host : SysmonHost) where
  unfoldable pub find_service : List Text → Calls → FoundService × Calls
  find_service [] s = ((none, []), s)
  find_service (name ∷ names) s =
      let (state, s1) = service_state host.services true name s in
      next_service name state s1 (find_service names s1)

  abbrev pub dump_of : Text → ProcessResult → List CollectionError → SysmonBytes
  dump_of executable (raised message) errors =
      sysmon_bytes (some true) (some true) none
        (errors ++ sysmon_error message (executable ++ lit " -c") ∷ [])
  dump_of executable (completed code stdout stderr) errors =
      if is_success code
      then sysmon_bytes (some true) (some true) (some (or_bytes stdout stderr)) errors
      else sysmon_bytes (some true) (some true) none (
          errors
          ++ sysmon_error (exit_message host.oem (lit "sysmon -c") code stderr)
              (executable ++ lit " -c")
            ∷ [])

  abbrev pub dump_with : Text → Option Text → List CollectionError → SysmonBytes
  dump_with name none errors = sysmon_bytes (some true) (some true) none (
      errors
      ++ sysmon_error (lit "Sysmon service is running but its executable could not be located") name
        ∷ [])
  dump_with name (some executable) errors =
      dump_of executable (host.run (executable ∷ lit "-c" ∷ [])) errors

  -- The list `candidates`, from the path of the image.
  unfoldable pub candidates_of : Option Text → List Text
  candidates_of image =
      let c0 = add_candidate [] image in
      let c1 = add_candidate c0 (host.which (lit "Sysmon64.exe")) in
      let c2 = add_candidate c1 (host.which (lit "Sysmon.exe")) in
      add_candidate c2 (host.which (lit "sysmon.exe"))

  -- The first candidate that is a file; `none` where `Path.is_file` raises before.
  abbrev pub next_file : Option Bool → Text → Option (Option Text) → Option (Option Text)
  next_file none candidate later = none
  next_file (some true) candidate later = some (some candidate)
  next_file (some false) candidate later = later

  unfoldable pub find_file : List Text → Option (Option Text)
  find_file [] = some none
  find_file (candidate ∷ rest) = next_file (host.is_file candidate) candidate (find_file rest)

  abbrev pub dump_file : Text → List CollectionError → Option (Option Text) → Collected
  dump_file name errors none = file_error
  dump_file name errors (some executable) = returned (dump_with name executable errors)

  -- From the path of the image on.
  abbrev pub dump_image : Text → List CollectionError → Option (Option Text) → Collected
  dump_image name errors none = index_error
  dump_image name errors (some image) = dump_file name errors (find_file (candidates_of image))

  unfoldable pub dump_config : Text → List CollectionError → Collected
  dump_config name errors =
      dump_image name errors (service_image_path host.paths true host.query_value name)

  unfoldable pub collect_found : FoundService → Collected
  unfolding dump_config
  collect_found (none, errors) = returned (without_service errors)
  collect_found (some (name, some true), errors) = dump_config name errors
  collect_found (some (name, running), errors) =
      returned (sysmon_bytes (some true) running none errors)

  unfoldable pub collect_sysmon : Bool → Calls → Collected × Calls
  unfolding find_service collect_found
  collect_sysmon is_windows s =
      let (service, s1) = find_service service_names s in
      if not is_windows
      then (
        returned (
            sysmon_bytes none none none (
              sysmon_error (lit "Sysmon collection is only available on Windows")
                (lit "Windows SCM")
              ∷ [])),
        s,
      )
      else (collect_found service, s1)
