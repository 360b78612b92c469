-- ===== src/Collect/Windows/Sysmon/Found.antt =====
-- sigmascope/collect/windows/sysmon.py: the loop over the names of the service.
use sigmascope.Base.{ℕ, Bool, true, false, List, [], ◌∷◌, ◌++◌, ◌≡◌, refl, inl, inr, arith}
use sigmascope.Base.{Text, lit, Option, none, some, is_empty}
use sigmascope.Base.{Bool-cases, ◌≢◌, nat_beq, ap, sym, ◌∙◌}
use sigmascope.Model.{CollectionError}
use sigmascope.Collect.Windows.Calls.{opened, used, Calls}
use sigmascope.Collect.Windows.Services.{ServiceState, status_of, query_service, service_state}
use sigmascope.Collect.Windows.Sysmon.{SysmonHost, FoundService}
use sigmascope.Collect.Windows.Sysmon.{service_error}
use sigmascope.Collect.Windows.Sysmon.{find_service}
use sigmascope.Collect.Windows.Sysmon.{next_service}

pub is_empty-append :
    (xs ys : List CollectionError) → is_empty ys ≡ false → is_empty (xs ++ ys) ≡ false
is_empty-append [] ys h = h
is_empty-append (x ∷ xs) ys h = refl

-- SERVICE_RUNNING is 4; without an answer it is not known whether the service runs.
pub data IsRunning : Option ℕ → Option Bool → Type 0 where
  runs : IsRunning (some 4) (some true)
  rests : {status : ℕ} → status ≢ 4 → IsRunning (some status) (some false)
  unanswered : IsRunning none none

module _ (host : SysmonHost) where
  -- The calls for one service from a moment on: the handle of the manager, that of the service, and
  -- the answer to the query of its status.
  abbrev pub manager_at : Calls → ℕ
  manager_at s = host.services.open_manager s

  abbrev pub service_at : Text → Calls → ℕ
  service_at name s = host.services.open_service (opened (manager_at s) ∷ s) (manager_at s) name

  abbrev pub answer_at : Text → Calls → Option ℕ
  answer_at name s =
      host.services.query_status
        (opened (service_at name s) ∷ used (manager_at s) ∷ opened (manager_at s) ∷ s)
        (service_at name s)

  -- The service is opened.
  pub record IsOpened (name : Text) (s : Calls) : Type 0 where
    pub manager : nat_beq (manager_at s) 0 ≡ false
    pub service : nat_beq (service_at name s) 0 ≡ false

  -- The moment at which a name is asked for: the names before it were not opened.
  pub data Visits (name : Text) (moment : Calls) : List Text → Calls → Type 0 where
    visits_now : {names : List Text} → Visits name moment (name ∷ names) moment
    visits_later :
        {other : Text} {names : List Text} {s : Calls}
        → (IsOpened other s → ⊥)
        → Visits name moment names (service_state host.services true other s).1
        → Visits name moment (other ∷ names) s

  -- What the service manager said of a service when the collector asked for it.
  pub record Says (names : List Text) (s : Calls) (name : Text) (running : Option Bool)
      : Type 0 where
    pub moment : Calls
    pub visited : Visits name moment names s
    pub is_opened : IsOpened name moment
    pub says : IsRunning (answer_at name moment) running

  -- What `find_service` found: a service that exists, with an error where its state is unknown.
  pub data Finds (names : List Text) (s : Calls) : FoundService → Type 0 where
    nowhere : (errors : List CollectionError) → Finds names s (none, errors)
    finds :
        (name : Text) (running : Option Bool) (errors : List CollectionError)
        → Says names s name running
        → (running ≡ none → is_empty errors ≡ false)
        → Finds names s (some (name, running), errors)

  service_state-unknown :
      (name : Text) (s : Calls)
      → let state = (service_state host.services true name s).0 in
        state.0 ≡ none → state.1 ≡ true → is_empty (service_error name state.2) ≡ false
  unfolding service_state query_service lit
  service_state-unknown name s u e = ground arith

  status_of-IsRunning :
      (answer : Option ℕ) (s : Calls) → IsRunning answer (status_of host.services answer s).0
  status_of-IsRunning none s = unanswered
  status_of-IsRunning (some status) s = elim (Bool-cases (nat_beq status 4)) [
    | inl e ↦ let four : status ≡ 4 = ground arith in rw four runs
    | inr e ↦ rw e (rests (λ four. ground arith))
  ]

  pub service_state-IsOpened :
      (name : Text) (s : Calls)
      → IsOpened name s
      → (service_state host.services true name s).0
        ≡ status_of host.services (answer_at name s) (
            used (service_at name s)
            ∷ opened (service_at name s)
            ∷ used (manager_at s)
            ∷ opened (manager_at s)
            ∷ s)
  unfolding service_state query_service
  service_state-IsOpened name s o = rw (service_state, query_service, o.manager, o.service) refl

  pub service_state-exists :
      (name : Text) (s : Calls)
      → (service_state host.services true name s).0.1 ≡ true
      → IsOpened name s
  unfolding service_state query_service
  service_state-exists name s e = record { manager = ground arith; service = ground arith }

  status_of-exists : (answer : Option ℕ) (s : Calls) → (status_of host.services answer s).1 ≡ true
  status_of-exists none s = refl
  status_of-exists (some status) s = refl

  service_state-absent :
      (name : Text) (s : Calls)
      → (service_state host.services true name s).0.1 ≡ false
      → IsOpened name s
      → ⊥
  service_state-absent name s e o = clash (
      sym e
      ∙ (ap (λ state. state.1) (service_state-IsOpened name s o)
          ∙ status_of-exists (answer_at name s) _))
    where
      clash : false ≡ true → ⊥
      clash c = cc

  service_state-Says :
      (name : Text) (names : List Text) (s : Calls)
      → (service_state host.services true name s).0.1 ≡ true
      → Says (name ∷ names) s name (service_state host.services true name s).0.0
  service_state-Says name names s e =
      let o = service_state-exists name s e in
      record {
        moment = s;
        visited = visits_now;
        is_opened = o;
        says = rw (service_state-IsOpened name s o) (status_of-IsRunning (answer_at name s) _);
      }

  Says-later :
      {names : List Text} {s : Calls} {other name : Text} {running : Option Bool}
      → (IsOpened other s → ⊥)
      → Says names (service_state host.services true other s).1 name running
      → Says (other ∷ names) s name running
  Says-later unopened h = record {
    moment = h.moment;
    visited = visits_later unopened h.visited;
    is_opened = h.is_opened;
    says = h.says;
  }

  next_service-Finds :
      (name : Text) (names : List Text) (s s1 : Calls) (state : ServiceState)
      (rest : FoundService × Calls)
      → (state.1 ≡ true → Says (name ∷ names) s name state.0)
      → (state.1 ≡ false
          → (n : Text) (running : Option Bool)
          → Says names (service_state host.services true name s).1 n running
          → Says (name ∷ names) s n running)
      → (state.0 ≡ none → state.1 ≡ true → is_empty (service_error name state.2) ≡ false)
      → Finds names (service_state host.services true name s).1 rest.0
      → Finds (name ∷ names) s (next_service name state s1 rest).0
  next_service-Finds name names s s1 (state, true, error) rest says moved told later =
      finds name state (service_error name error) (says refl) (λ u. told u refl)
  next_service-Finds name names s s1 (state, false, error) ((_, errors), _) says moved told
        (nowhere _) =
      nowhere (service_error name error ++ errors)
  next_service-Finds name names s s1 (state, false, error) ((_, errors), _) says moved told
        (finds other running _ it_says it_told) =
      finds other running (service_error name error ++ errors) (moved refl other running it_says)
        (λ u. is_empty-append (service_error name error) _ (it_told u))

  pub find_service-Finds :
      (names : List Text) (s : Calls) → Finds names s (find_service host names s).0
  unfolding find_service
  find_service-Finds [] s = nowhere []
  find_service-Finds (name ∷ names) s =
      let (state, s1) = service_state host.services true name s in
      next_service-Finds name names s s1 state (find_service host names s1)
        (service_state-Says name names s)
        (λ e n running h. Says-later (service_state-absent name s e) h)
        (service_state-unknown name s) (find_service-Finds names s1)
