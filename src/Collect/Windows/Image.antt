-- ===== src/Collect/Windows/Image.antt =====
-- sigmascope/collect/windows/sysmon.py: `_service_image_path`, over the platform, the registry, the
-- environment and the path operations of Windows.
use sigmascope.Base.{Bool, not, ◌&&◌, [], ◌∷◌, ◌++◌, if◌then◌else◌, nat_beq, is_empty}
use sigmascope.Base.{Text, lit, strip, drop_space, is_space, partition, ascii_lower, drop}
use sigmascope.Base.{Option, none, some}
use sigmascope.Parse.SysmonCurrent.Patterns.{starts_with}
use sigmascope.Collect.Windows.Registry.{text, RegistryAnswer, found}

-- `os.path.expandvars`, `os.environ.get("SystemRoot")` and `str(Path(root) / rest)`.
pub record WindowsPaths : Type 0 where
  pub expandvars : Text → Text
  pub system_root : Option Text
  pub join_path : Text → Text → Text

-- `_service_key`
unfoldable pub service_key : Text → Text
service_key name = lit "SYSTEM\\CurrentControlSet\\Services\\" ++ name

-- `re.match(r'^"([^"]+)"', value)`, its group.
abbrev pub quoted : Text → Option Text
quoted [] = none
quoted (c ∷ s) =
    let (inside, closed, _) = partition b'"' s in
    if nat_beq c b'"' && closed && not (is_empty inside) then some inside else none

unfoldable pub take_word : Text → Text
unfolding is_space
take_word [] = []
take_word (c ∷ s) = let rest = take_word s in if is_space c then [] else c ∷ rest

-- `value.split(None, 1)[0]`; `none` is the IndexError of a blank value.
unfoldable pub first_word : Text → Option Text
unfolding take_word drop_space
first_word value = elim (take_word (drop_space value)) [ [] ↦ none | c ∷ word ↦ some (c ∷ word) ]

unfoldable pub executable_of : Text → Option Text
unfolding first_word
executable_of value = elim (quoted value) [ some inside ↦ some inside | none ↦ first_word value ]

abbrev pub system_root_prefix : Text
system_root_prefix = lit "\\systemroot\\"

abbrev pub or_root : Option Text → Text
or_root none = lit "C:\\Windows"
or_root (some root) = root

module _ (paths : WindowsPaths) where
  unfoldable pub resolve_root : Text → Text
  unfolding starts_with
  resolve_root executable =
      if starts_with system_root_prefix (ascii_lower executable)
      then paths.join_path (or_root paths.system_root) (drop 12 executable)
      else executable

  -- The path from the value of ImagePath; the outer `none` is the IndexError, and the inner one is
  -- None.
  abbrev pub image_of : RegistryAnswer → Option (Option Text)
  image_of (found (text raw)) = elim (executable_of (paths.expandvars (strip raw))) [
    | none ↦ none
    | some executable ↦ some (some (resolve_root executable))
  ]
  image_of _ = some none

  unfoldable pub service_image_path :
      Bool → (Text → Text → RegistryAnswer) → Text → Option (Option Text)
  unfolding service_key executable_of resolve_root
  service_image_path is_windows query_value name =
      if not is_windows
      then some none
      else image_of (query_value (service_key name) (lit "ImagePath"))
