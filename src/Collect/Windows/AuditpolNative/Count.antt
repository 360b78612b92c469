-- ===== src/Collect/Windows/AuditpolNative/Count.antt =====
-- sigmascope/collect/windows/auditpol_native.py: how often a collection queries the policy.
use sigmascope.Base.{ℕ, Bool, true, false, List, [], ◌∷◌, ◌≡◌, refl, ap, arith, ◌+◌, ◌≤◌}
use sigmascope.Base.{Option, none, some, Text, Python, ◌⊎◌, inl, inr, Bool-cases}
use sigmascope.Collect.Windows.Calls.{opened, queried, Calls, count_queries}
use sigmascope.Collect.Windows.Guid.{Guid}
use sigmascope.Collect.Windows.AuditpolNative.{
  PolicyBuffer, AuditApi, OsError, Tried, gave, os_error, value_error,
}
use sigmascope.Collect.Windows.AuditpolNative.{
  adjust_privilege, with_token, enable_security_privilege, read_buffer,
}
use sigmascope.Collect.Windows.AuditpolNative.{
  query_once, query_enabled, is_access_denied, retry_query, query_guids,
}
use sigmascope.Collect.Windows.AuditpolNative.{
  query_system_policy, collect_native_policy, from_strings,
}
use sigmascope.Collect.Windows.AuditpolNative.{error_access_denied}

module _ (api : AuditApi) where
  with_token-count :
      (s : Calls) (token : Option ℕ) → count_queries (with_token api s token).1 ≡ count_queries s
  unfolding count_queries
  with_token-count s none = refl
  with_token-count s (some token) =
      adjust_privilege-count token (opened token ∷ s)
        (api.lookup_privilege_value (opened token ∷ s))
    where
      adjust_privilege-count :
          (t : ℕ) (r : Calls) (luid : Option ℕ)
          → count_queries (adjust_privilege api t r luid).1 ≡ count_queries r
      adjust_privilege-count t r none = refl
      adjust_privilege-count t r (some luid) = ground arith

  query_once-count :
      (guids : List Guid) (s : Calls)
      → count_queries (query_once api guids s).1 ≡ count_queries s + 1
  unfolding query_once count_queries
  query_once-count guids s = read_buffer-count (api.query_system_policy s guids)
    where
      read_buffer-count :
          (buffer : Option PolicyBuffer)
          → count_queries (read_buffer api (queried ∷ s) buffer).1 ≡ count_queries s + 1
      read_buffer-count none = refl
      read_buffer-count (some buffer) = ground arith

  query_enabled-count :
      (guids : List Guid) (enabled : Tried Unit × Calls)
      → count_queries (query_enabled api guids enabled).1 ≤ count_queries enabled.1 + 1
  query_enabled-count guids (gave _, s) = omega (arith, query_once-count guids s)
  query_enabled-count guids (os_error e, s) = omega arith
  query_enabled-count guids (value_error, s) = omega arith

  -- The first query failed, as access was denied.
  pub record IsDenied (guids : List Guid) (s : Calls) : Type 0 where
    pub refused : api.query_system_policy s guids ≡ none
    pub denied : api.last_error (queried ∷ s) ≡ error_access_denied

  query_once-IsDenied :
      (guids : List Guid) (s : Calls) {e : OsError}
      → (query_once api guids s).0 ≡ os_error e
      → is_access_denied e ≡ true
      → IsDenied guids s
  unfolding query_once
  query_once-IsDenied guids s h d = read_buffer-IsDenied _ refl h d
    where
      read_buffer-IsDenied :
          (buffer : Option PolicyBuffer)
          → api.query_system_policy s guids ≡ buffer
          → {e : OsError} → (read_buffer api (queried ∷ s) buffer).0 ≡ os_error e
          → is_access_denied e ≡ true
          → IsDenied guids s
      read_buffer-IsDenied none r h d = record { refused = r; denied = ground arith }
      read_buffer-IsDenied (some b) r h d = absurd (ground arith)

  query_once-after :
      (guids : List Guid) (s : Calls) {first : Tried (List (Text × Text)) × Calls}
      → query_once api guids s ≡ first
      → count_queries first.1 ≡ count_queries s + 1
  query_once-after guids s e = rw e at (query_once-count guids s)

  retry_query-count :
      (guids : List Guid) (s : Calls) (first : Tried (List (Text × Text)) × Calls)
      → query_once api guids s ≡ first
      → (count_queries (retry_query api guids first).1 ≤ count_queries s + 1)
        ⊎ ((count_queries (retry_query api guids first).1 ≤ count_queries s + 2) × IsDenied guids s)
  unfolding enable_security_privilege
  retry_query-count guids s (gave _, t) e = inl (omega (arith, query_once-after guids s e))
  retry_query-count guids s (value_error, t) e = inl (omega (arith, query_once-after guids s e))
  retry_query-count guids s (os_error x, t) e = elim (Bool-cases (is_access_denied x)) [
    | inl d ↦ inr (
      rw d (
          omega (
            arith,
            query_once-after guids s e,
            with_token-count t (api.open_process_token t),
            query_enabled-count guids (enable_security_privilege api t),
          )),
      query_once-IsDenied guids s (ap (λ r. r.0) e) d,
    )
    | inr d ↦ inl (rw d (omega (arith, query_once-after guids s e)))
  ]

  query_guids-count :
      (guids : Option (List Guid)) (s : Calls)
      → (count_queries (query_guids api guids s).1 ≤ count_queries s + 1)
        ⊎ ((count_queries (query_guids api guids s).1 ≤ count_queries s + 2)
            × (gs : List Guid) × (guids ≡ some gs)
            × IsDenied gs s)
  query_guids-count none s = inl (omega arith)
  query_guids-count (some guids) s =
      elim (retry_query-count guids s (query_once api guids s) refl) [
        | inl a ↦ inl a
        | inr (a, d) ↦ inr (a, guids, refl, d)
      ]

  -- A collection queries the policy at most twice, and more than once only where the GUIDs were all
  -- read and access was denied to the first query.
  pub collect_native_policy-count_queries :
      (py : Python) (is_windows : Bool) (guids : List Text) (s : Calls)
      → let after = (collect_native_policy api py is_windows guids s).1 in
        (count_queries after ≤ count_queries s + 1)
        ⊎ ((count_queries after ≤ count_queries s + 2)
            × (gs : List Guid) × (from_strings py guids ≡ some gs)
            × IsDenied gs s)
  unfolding collect_native_policy query_system_policy
  collect_native_policy-count_queries py is_windows [] s = inl (omega arith)
  collect_native_policy-count_queries py false (value ∷ values) s = inl (omega arith)
  collect_native_policy-count_queries py true (value ∷ values) s =
      query_guids-count (from_strings py (value ∷ values)) s
