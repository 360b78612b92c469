-- ===== src/Collect/Windows/AuditpolNative.antt =====
-- sigmascope/collect/windows/auditpol_native.py: the query of the effective audit policy, over the
-- platform, advapi32 and kernel32.
pub mod Queries
pub mod Count
pub mod Entries
use sigmascope.Base.{ℕ, Bool, true, false, not, List, [], ◌∷◌, ◌++◌, if◌then◌else◌, nat_beq}
use sigmascope.Base.{Option, none, some, Text, lit, ◌==◌, nat_text, map, Python}
use sigmascope.Model.{CollectionError}
use sigmascope.Api.Policy.{NativeAuditPolicy}
use sigmascope.Collect.Windows.Calls.{Call, opened, used, closed, queried, Calls}
use sigmascope.Collect.Windows.Guid.{Guid, as_string, from_string}

-- The array that AuditQuerySystemPolicy allocates: where it is (NULL is 0), and its elements'
-- AuditSubCategoryGuid and AuditingInformation.
pub record PolicyBuffer : Type 0 where
  pub address : ℕ
  pub entries : List (Guid × ℕ)

-- `OpenProcessToken`, `LookupPrivilegeValueW` with the LUID of the privilege,
-- `AdjustTokenPrivileges`, `AuditQuerySystemPolicy`, which each give their results or fail, and
-- `ctypes.get_last_error`. A query gives as many elements as it is asked for.
pub record AuditApi : Type 0 where
  pub open_process_token : Calls → Option ℕ
  pub lookup_privilege_value : Calls → Option ℕ
  pub adjust_token_privileges : Calls → ℕ → ℕ → Bool
  pub query_system_policy : Calls → List Guid → Option PolicyBuffer
  pub last_error : Calls → ℕ

-- An OSError: with a Windows code, with an errno, or with a text alone.
pub data OsError : Type 0 where
  windows_error : ℕ → Text → OsError
  errno_error : ℕ → Text → OsError
  plain_error : Text → OsError

-- `str(exc)`
abbrev pub error_text : OsError → Text
error_text (windows_error code message) = lit "[WinError " ++ nat_text code ++ lit "] " ++ message
error_text (errno_error code message) = lit "[Errno " ++ nat_text code ++ lit "] " ++ message
error_text (plain_error message) = message

-- What a function gives, or the exception that it raises.
pub data Tried (A : Type 0) : Type 0 where
  gave : A → Tried A
  os_error : OsError → Tried A
  value_error : Tried A

-- `_POLICY_STATES.get(flags, ...)`
unfoldable pub policy_state : ℕ → Text
policy_state flags =
    if nat_beq flags 0
    then lit "unchanged"
    else if nat_beq flags 1
    then lit "success"
    else if nat_beq flags 2
    then lit "failure"
    else if nat_beq flags 3
    then lit "both"
    else if nat_beq flags 4
    then lit "none"
    else lit "unknown:" ++ nat_text flags

abbrev pub error_access_denied : ℕ
error_access_denied = 5

abbrev pub error_not_all_assigned : ℕ
error_not_all_assigned = 1300

-- `code != ERROR_ACCESS_DENIED` is false; a Windows code of 0 gives its errno, EINVAL.
abbrev pub is_access_denied : OsError → Bool
is_access_denied (windows_error code message) = nat_beq code error_access_denied
is_access_denied (errno_error code message) = nat_beq code error_access_denied
is_access_denied (plain_error message) = false

-- `d[key] = value`
unfoldable pub set_item : Text × Text → List (Text × Text) → List (Text × Text)
set_item item [] = item ∷ []
set_item (key, value) ((k, v) ∷ items) =
    let rest = set_item (key, value) items in
    if k == key then (key, value) ∷ items else (k, v) ∷ rest

-- The dict comprehension, onto the items so far.
unfoldable pub states_onto : List (Text × Text) → List (Guid × ℕ) → List (Text × Text)
unfolding set_item policy_state
states_onto items [] = items
states_onto items ((guid, flags) ∷ entries) =
    states_onto (set_item (as_string guid, policy_state flags) items) entries

abbrev pub from_strings : Python → List Text → Option (List Guid)
from_strings py [] = some []
from_strings py (value ∷ values) = elim (from_string py value) [
  | none ↦ none
  | some guid ↦ elim (from_strings py values) [ none ↦ none | some guids ↦ some (guid ∷ guids) ]
]

module _ (api : AuditApi) where
  -- `_raise_last_error`
  abbrev pub raise_last_error : {A : Type 0} → Text → Calls → Tried A
  raise_last_error operation s =
      os_error (windows_error (api.last_error s) (operation ++ lit " failed"))

  -- The body of the `try` behind the token, up to its result.
  abbrev pub adjust_privilege : ℕ → Calls → Option ℕ → Tried Unit × Calls
  adjust_privilege token s none = (raise_last_error (lit "LookupPrivilegeValueW") s, s)
  adjust_privilege token s (some luid) =
      let s1 = used token ∷ s in
      if not (api.adjust_token_privileges s token luid)
      then (raise_last_error (lit "AdjustTokenPrivileges") s1, s1)
      else if nat_beq (api.last_error s1) error_not_all_assigned
      then (
        os_error (
            errno_error error_not_all_assigned
              (lit "process token does not hold SeSecurityPrivilege")),
        s1,
      )
      else (gave tt, s1)

  abbrev pub with_token : Calls → Option ℕ → Tried Unit × Calls
  with_token s none = (raise_last_error (lit "OpenProcessToken") s, s)
  with_token s (some token) =
      let (result, s1) =
        adjust_privilege token (opened token ∷ s) (api.lookup_privilege_value (opened token ∷ s)) in
      (result, closed token ∷ s1)

  unfoldable pub enable_security_privilege : Calls → Tried Unit × Calls
  enable_security_privilege s = with_token s (api.open_process_token s)

  -- The answer of a query; an element of a NULL pointer is a ValueError.
  abbrev pub read_buffer : Calls → Option PolicyBuffer → Tried (List (Text × Text)) × Calls
  read_buffer s none = (raise_last_error (lit "AuditQuerySystemPolicy") s, s)
  read_buffer s (some buffer) = if nat_beq buffer.address 0 then (value_error, s) else (
    gave (states_onto [] buffer.entries),
    closed buffer.address ∷ used buffer.address ∷ opened buffer.address ∷ s,
  )

  -- `_query_once`
  unfoldable pub query_once : List Guid → Calls → Tried (List (Text × Text)) × Calls
  unfolding states_onto
  query_once guids s = read_buffer (queried ∷ s) (api.query_system_policy s guids)

  -- The second query, once the privilege is enabled.
  abbrev pub query_enabled : List Guid → Tried Unit × Calls → Tried (List (Text × Text)) × Calls
  query_enabled guids (gave _, s) = query_once guids s
  query_enabled guids (os_error e, s) = (os_error e, s)
  query_enabled guids (value_error, s) = (value_error, s)

  -- What follows the first query: a second one where access was denied.
  abbrev pub retry_query :
      List Guid → Tried (List (Text × Text)) × Calls → Tried (List (Text × Text)) × Calls
  retry_query guids (gave states, s) = (gave states, s)
  retry_query guids (value_error, s) = (value_error, s)
  retry_query guids (os_error e, s) =
      let retried = query_enabled guids (enable_security_privilege s) in
      if is_access_denied e then retried else (os_error e, s)

  abbrev pub query_guids : Option (List Guid) → Calls → Tried (List (Text × Text)) × Calls
  query_guids none s = (value_error, s)
  query_guids (some guids) s = retry_query guids (query_once guids s)

  unfoldable pub query_system_policy :
      Python → Bool → List Text → Calls → Tried (List (Text × Text)) × Calls
  query_system_policy py is_windows [] s = (gave [], s)
  query_system_policy py is_windows (value ∷ values) s =
      if not is_windows
      then (
        os_error (plain_error (lit "Windows audit policy APIs are only available on Windows")),
        s,
      )
      else query_guids (from_strings py (value ∷ values)) s

  -- `none` is a ValueError, which is not caught.
  abbrev pub native_policy : Tried (List (Text × Text)) → Option NativeAuditPolicy
  native_policy (gave states) = some (record { states = states; error = none })
  native_policy (os_error e) = some (record {
    states = [];
    error = some (record {
      source_id = lit "windows.audit_policy";
      message = error_text e;
      resource = lit "AuditQuerySystemPolicy";
    });
  })
  native_policy value_error = none

  unfoldable pub collect_native_policy :
      Python → Bool → List Text → Calls → Option NativeAuditPolicy × Calls
  unfolding query_system_policy
  collect_native_policy py is_windows guids s =
      let (result, s1) = query_system_policy py is_windows guids s in (native_policy result, s1)
