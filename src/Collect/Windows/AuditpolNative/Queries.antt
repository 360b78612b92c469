-- ===== src/Collect/Windows/AuditpolNative/Queries.antt =====
-- sigmascope/collect/windows/auditpol_native.py: the calls of a collection.
use sigmascope.Base.{ℕ, Bool, List, [], ◌∷◌, refl, arith}
use sigmascope.Base.{Option, none, some, Text, Python}
use sigmascope.Collect.Windows.Calls.{opened, queried, Calls, open_handles, is_legal}
use sigmascope.Collect.Windows.Guid.{Guid}
use sigmascope.Collect.Windows.Handles.{
  IsBalanced, IsBalanced-refl, IsBalanced-trans, IsBalanced-close, IsBalanced-use,
}
use sigmascope.Collect.Windows.AuditpolNative.{
  PolicyBuffer, AuditApi, Tried, gave, os_error, value_error,
}
use sigmascope.Collect.Windows.AuditpolNative.{
  adjust_privilege, with_token, enable_security_privilege, read_buffer,
}
use sigmascope.Collect.Windows.AuditpolNative.{query_once, query_enabled, retry_query, query_guids}
use sigmascope.Collect.Windows.AuditpolNative.{
  query_system_policy, collect_native_policy, from_strings,
}

IsBalanced-queried : (s : Calls) → IsBalanced s (queried ∷ s)
unfolding open_handles is_legal
IsBalanced-queried s = record { same_open = refl; same_legal = refl }

module _ (api : AuditApi) where
  adjust_privilege-IsBalanced :
      (token : ℕ) (s : Calls) (luid : Option ℕ)
      → IsBalanced (opened token ∷ s) (adjust_privilege api token (opened token ∷ s) luid).1
  adjust_privilege-IsBalanced token s none = IsBalanced-refl _
  adjust_privilege-IsBalanced token s (some luid) = ground (arith, IsBalanced-use token s)

  with_token-IsBalanced : (s : Calls) (token : Option ℕ) → IsBalanced s (with_token api s token).1
  with_token-IsBalanced s none = IsBalanced-refl s
  with_token-IsBalanced s (some token) =
      IsBalanced-close token s _ (adjust_privilege-IsBalanced token s _)

  read_buffer-IsBalanced :
      (s : Calls) (buffer : Option PolicyBuffer) → IsBalanced s (read_buffer api s buffer).1
  read_buffer-IsBalanced s none = IsBalanced-refl s
  read_buffer-IsBalanced s (some buffer) = ground (
    arith,
    IsBalanced-refl s,
    IsBalanced-close buffer.address s _ (IsBalanced-use buffer.address s),
  )

  query_once-IsBalanced : (guids : List Guid) (s : Calls) → IsBalanced s (query_once api guids s).1
  unfolding query_once
  query_once-IsBalanced guids s =
      IsBalanced-trans (IsBalanced-queried s)
        (read_buffer-IsBalanced (queried ∷ s) (api.query_system_policy s guids))

  query_enabled-IsBalanced :
      (guids : List Guid) (enabled : Tried Unit × Calls)
      → IsBalanced enabled.1 (query_enabled api guids enabled).1
  query_enabled-IsBalanced guids (gave _, s) = query_once-IsBalanced guids s
  query_enabled-IsBalanced guids (os_error e, s) = IsBalanced-refl s
  query_enabled-IsBalanced guids (value_error, s) = IsBalanced-refl s

  retry_query-IsBalanced :
      (guids : List Guid) (first : Tried (List (Text × Text)) × Calls)
      → IsBalanced first.1 (retry_query api guids first).1
  unfolding enable_security_privilege
  retry_query-IsBalanced guids (gave _, s) = IsBalanced-refl s
  retry_query-IsBalanced guids (value_error, s) = IsBalanced-refl s
  retry_query-IsBalanced guids (os_error e, s) =
      let enabled = with_token-IsBalanced s (api.open_process_token s) in
      let again = query_enabled-IsBalanced guids (enable_security_privilege api s) in
      ground (arith, IsBalanced-refl s, IsBalanced-trans enabled again)

  query_guids-IsBalanced :
      (guids : Option (List Guid)) (s : Calls) → IsBalanced s (query_guids api guids s).1
  query_guids-IsBalanced none s = IsBalanced-refl s
  query_guids-IsBalanced (some guids) s =
      IsBalanced-trans (query_once-IsBalanced guids s)
        (retry_query-IsBalanced guids (query_once api guids s))

  -- Whatever the libraries answer, a collection of the native audit policy closes the process token
  -- that it opened and frees the buffer that it was given, once each, also where it raises an
  -- exception, and uses neither when it is not open.
  pub collect_native_policy-IsBalanced :
      (py : Python) (is_windows : Bool) (guids : List Text) (s : Calls)
      → IsBalanced s (collect_native_policy api py is_windows guids s).1
  unfolding collect_native_policy query_system_policy
  collect_native_policy-IsBalanced py is_windows [] s = IsBalanced-refl s
  collect_native_policy-IsBalanced py is_windows (value ∷ values) s =
      ground (arith, IsBalanced-refl s, query_guids-IsBalanced (from_strings py (value ∷ values)) s)
