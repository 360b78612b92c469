-- ===== src/Collect/Windows/Sysmon/Blank.antt =====
-- sigmascope/collect/windows/sysmon.py: when the collector raises, in `value.split(None, 1)[0]` of
-- `_service_image_path`.
use sigmascope.Base.{
  true, false, List, [], ◌∷◌, ◌≡◌, refl, inl, inr, arith, all, is_space, drop_space,
}
use sigmascope.Base.{ℕ, Text, lit, strip, Option, none, some, Bool-cases, ◌++◌, ap, ◌∙◌}
use sigmascope.Base.{◌≢◌, ◌↔◌}
use sigmascope.Model.{CollectionError}
use sigmascope.Collect.Windows.Calls.{Calls}
use sigmascope.Collect.Windows.Registry.{
  number, text, texts, binary, RegistryAnswer, found, missing, failed,
}
use sigmascope.Collect.Windows.Image.{service_key, take_word, first_word, executable_of}
use sigmascope.Collect.Windows.Image.{image_of, service_image_path}
use sigmascope.Collect.Windows.Services.{ServiceState, status_of, service_state}
use sigmascope.Collect.Windows.Sysmon.{
  SysmonHost, FoundService, service_names, candidates_of, find_file, dump_file, dump_image,
  dump_config, next_service, service_error, find_service, index_error, collect_found,
  collect_sysmon,
}
use sigmascope.Collect.Windows.Sysmon.Found.{
  IsRunning, runs, answer_at, IsOpened, Visits, visits_now, visits_later, Says, Finds, nowhere,
  finds, service_state-IsOpened, service_state-exists, find_service-Finds,
}

drop_space-all : (s : Text) → take_word (drop_space s) ≡ [] → all is_space s ≡ true
unfolding drop_space take_word all
drop_space-all [] h = refl
drop_space-all (c ∷ s) h = elim (Bool-cases (is_space c)) [
  | inl e ↦ ground (arith, drop_space-all s)
  | inr e ↦ ground arith
]

executable_of-none : (value : Text) → executable_of value ≡ none → all is_space value ≡ true
unfolding executable_of first_word
executable_of-none value h = drop_space-all value (ground arith)

-- The value of ImagePath is a text of white space once its variables are replaced.
pub record IsBlank (host : SysmonHost) (name : Text) : Type 0 where
  pub raw : Text
  pub read : host.query_value (service_key name) (lit "ImagePath") ≡ found (text raw)
  pub blank : all is_space (host.paths.expandvars (strip raw)) ≡ true

module _ (host : SysmonHost) where
  image_of-none :
      (name : Text) (answer : RegistryAnswer)
      → host.query_value (service_key name) (lit "ImagePath") ≡ answer
      → image_of host.paths answer ≡ none
      → IsBlank host name
  image_of-none name (found (text raw)) e h = record {
    raw = raw;
    read = e;
    blank = executable_of-none (host.paths.expandvars (strip raw)) (ground arith);
  }
  image_of-none name (found (number n)) e h = ground arith
  image_of-none name (found (texts t)) e h = ground arith
  image_of-none name (found (binary b)) e h = ground arith
  image_of-none name missing e h = ground arith
  image_of-none name (failed m) e h = ground arith

  service_image_path-none :
      (name : Text)
      → service_image_path host.paths true host.query_value name ≡ none
      → IsBlank host name
  unfolding service_image_path
  service_image_path-none name h = image_of-none name _ refl h

  dump_image-none :
      (name : Text) (errors : List CollectionError) (image : Option (Option Text))
      → dump_image host name errors image ≡ index_error
      → image ≡ none
  dump_image-none name errors none h = refl
  dump_image-none name errors (some image) h =
      absurd (dump_file-ne-index_error (find_file host (candidates_of host image)) h)
    where
      dump_file-ne-index_error :
          (found_file : Option (Option Text)) → dump_file host name errors found_file ≢ index_error
      dump_file-ne-index_error none = ground arith
      dump_file-ne-index_error (some executable) = ground arith

  collect_found-none :
      {s : Calls} {service : FoundService}
      → Finds host service_names s service
      → collect_found host service ≡ index_error
      → (name : Text) × Says host service_names s name (some true) × IsBlank host name
  unfolding collect_found dump_config
  collect_found-none (nowhere errors) h = absurd (ground arith)
  collect_found-none (finds name none errors says told) h = absurd (ground arith)
  collect_found-none (finds name (some false) errors says told) h = absurd (ground arith)
  collect_found-none (finds name (some true) errors says told) h =
      (name, says, service_image_path-none name (dump_image-none name errors _ h))

  -- A service that runs when it is asked for is found.
  find_service-Visits :
      {name : Text} {moment : Calls} {names : List Text} {s : Calls}
      → Visits host name moment names s
      → (service_state host.services true name moment).0 ≡ (some true, true, none)
      → (errors : List CollectionError) × ((find_service host names s).0
          ≡ (some (name, some true), errors))
  unfolding find_service
  find_service-Visits visits_now h = ([], rw (find_service, h) refl)
  find_service-Visits {name = name} (visits_later {other} {names} {s} unopened v) h =
      let (errors, e) = find_service-Visits v h in
      let (state, s1) = service_state host.services true other s in
      later state s1 (find_service host names s1) (not_exists unopened) e
    where
      not_exists :
          (IsOpened host other s → ⊥) → (service_state host.services true other s).0.1 ≡ false
      not_exists shut = elim (Bool-cases ((service_state host.services true other s).0.1)) [
        | inl there_ ↦ absurd (shut (service_state-exists host other s there_))
        | inr none_ ↦ none_
      ]

      later :
          (state : ServiceState) (s1 : Calls) (rest : FoundService × Calls)
          {errors : List CollectionError}
          → state.1 ≡ false
          → rest.0 ≡ (some (name, some true), errors)
          → (all_errors : List CollectionError) × ((next_service other state s1 rest).0
              ≡ (some (name, some true), all_errors))
      later (state, true, error) s1 rest absent_ e = absurd (ground arith)
      later (state, false, error) s1 ((found_service, errors), _) absent_ e =
          (_, ap (λ r. (r.0, service_error other error ++ r.1)) e)

  running_state :
      (name : Text) (moment : Calls)
      → IsOpened host name moment
      → IsRunning (answer_at host name moment) (some true)
      → (service_state host.services true name moment).0 ≡ (some true, true, none)
  running_state name moment o r =
      service_state-IsOpened host name moment o ∙ running_status (answer_at host name moment) _ r
    where
      running_status :
          (answer : Option ℕ) (s : Calls)
          → IsRunning answer (some true)
          → status_of host.services answer s ≡ (some true, true, none)
      running_status none s r = elim r [ ]
      running_status (some _) s runs = refl

  drop_space-blank : (s : Text) → all is_space s ≡ true → drop_space s ≡ []
  unfolding drop_space all
  drop_space-blank [] h = refl
  drop_space-blank (c ∷ s) h = ground (arith, drop_space-blank s)

  executable_of-blank : (value : Text) → all is_space value ≡ true → executable_of value ≡ none
  unfolding executable_of first_word take_word
  executable_of-blank value h = ground (arith, drop_space-blank value h)

  image_path-blank :
      (name : Text)
      → IsBlank host name
      → service_image_path host.paths true host.query_value name ≡ none
  unfolding service_image_path
  image_path-blank name b =
      rw (service_image_path, b.read)
        (ground (arith, executable_of-blank (host.paths.expandvars (strip b.raw)) b.blank))

  -- On Windows the collector raises an IndexError exactly when the first of the two services that
  -- could be opened has the status SERVICE_RUNNING, and the text of its ImagePath is blank once its
  -- variables are replaced.
  pub collect_sysmon-IsBlank :
      (s : Calls)
      → ((collect_sysmon host true s).0 ≡ index_error)
        ↔ ((name : Text) × Says host service_names s name (some true) × IsBlank host name)
  unfolding collect_sysmon collect_found dump_config
  collect_sysmon-IsBlank s = (
    λ h. collect_found-none (find_service-Finds host service_names s) h,
    λ (name, says, blank).
        let (errors, e) =
          find_service-Visits says.visited
            (running_state name says.moment says.is_opened says.says) in
        rw (e, image_path-blank name blank) refl,
  )
