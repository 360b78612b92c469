-- ===== src/Collect/Windows/AuditpolNative/Entries.antt =====
-- sigmascope/collect/windows/auditpol_native.py: the elements of the buffer behind the policy that
-- it gives, and behind a verdict of sigmascope/evaluate/windows_gates.py.
use sigmascope.Base.{
  ℕ, Bool, true, false, List, [], ◌∷◌, ◌++◌, ◌≡◌, refl, sym, ap, ◌∙◌, arith, ◌⊎◌, inl, inr, map,
}
use sigmascope.Base.{
  Option, none, some, Text, lit, ◌==◌, member, Python, In, here, there, In-cons, find-In, nat_beq,
}
use sigmascope.Base.{Bool-cases, ascii_upper, ◌<◌, nat_text, eq_of_==, is_none}
use sigmascope.Model.{Gate, gate_text, ParseResult, covered}
use sigmascope.Evaluate.WindowsGates.{
  ChannelConfig, AuditProvider, find_gate, guid, evaluate_windows_audit,
}
use sigmascope.Evaluate.WindowsGates.Decision
use sigmascope.Evaluate.WindowsGates.Decision.{right, evaluate_windows_audit-covered}
use sigmascope.Api.Policy.{
  NativeAuditPolicy, AuditpolCliCollection, policy_gate, native_policy_result,
}
use sigmascope.Collect.Windows.Calls.{queried, Calls}
use sigmascope.Collect.Windows.CliRows.{found_policy-right, append-injective}
use sigmascope.Collect.Windows.Guid.{Guid, as_string}
use sigmascope.Collect.Windows.AuditpolNative.{
  PolicyBuffer, AuditApi, OsError, Tried, gave, os_error, value_error,
}
use sigmascope.Collect.Windows.AuditpolNative.{
  policy_state, set_item, states_onto, from_strings, read_buffer, query_once,
}
use sigmascope.Collect.Windows.AuditpolNative.{
  query_enabled, is_access_denied, retry_query, query_guids,
}
use sigmascope.Collect.Windows.AuditpolNative.{
  query_system_policy, native_policy, collect_native_policy, enable_security_privilege,
}
use mathlib.Core.Option.{some-injective}

In-map :
    (states : List (Text × Text)) {g : Gate}
    → In g (map policy_gate states)
    → (x : Text × Text) × In x states × (g ≡ policy_gate x)
In-map [] m = elim m [ ]
In-map (x ∷ states) m = elim (In-cons m) [
  | inl same ↦ (x, here refl, same)
  | inr n ↦ let (y, listed, same) = In-map states n in (y, there listed, same)
]

set_item-In :
    (item : Text × Text) (items : List (Text × Text)) {x : Text × Text}
    → In x (set_item item items)
    → (x ≡ item) ⊎ In x items
unfolding set_item
set_item-In item [] m = elim (In-cons m) [ inl e ↦ inl e | inr n ↦ inr n ]
set_item-In (key, value) ((k, v) ∷ items) m = elim (Bool-cases (k == key)) [
  | inl e ↦ elim (In-cons (rw (e, set_item) at m)) [ inl same ↦ inl same | inr n ↦ inr (there n) ]
  | inr e ↦ elim (In-cons (rw (e, set_item) at m)) [
    | inl same ↦ inr (here same)
    | inr n ↦ elim (set_item-In (key, value) items n) [
      | inl same ↦ inl same
      | inr o ↦ inr (there o)
    ]
  ]
]

-- The element of a buffer that an item of the dict comes from.
pub record Entry (entries : List (Guid × ℕ)) (item : Text × Text) : Type 0 where
  pub subcategory : Guid
  pub flags : ℕ
  pub listed : In (subcategory, flags) entries
  pub item_is : item ≡ (as_string subcategory, policy_state flags)

states_onto-Entry :
    (entries : List (Guid × ℕ)) (items : List (Text × Text)) {x : Text × Text}
    → In x (states_onto items entries)
    → In x items ⊎ Entry entries x
unfolding states_onto
states_onto-Entry [] items m = inl m
states_onto-Entry ((g, flags) ∷ entries) items m = elim (states_onto-Entry entries _ m) [
  | inr e ↦ inr (record {
    subcategory = e.subcategory;
    flags = e.flags;
    listed = there e.listed;
    item_is = e.item_is;
  })
  | inl n ↦ elim (set_item-In (as_string g, policy_state flags) items n) [
    | inr o ↦ inl o
    | inl same ↦ inr (record { subcategory = g; flags = flags; listed = here refl; item_is = same })
  ]
]

-- What the flags of an element set: success, failure, both, none, or what has no name.
pub data MeansState : ℕ → Text → Type 0 where
  unchanged : MeansState 0 (lit "unchanged")
  success : MeansState 1 (lit "success")
  failure : MeansState 2 (lit "failure")
  both : MeansState 3 (lit "both")
  no_audit : MeansState 4 (lit "none")
  no_name : (flags : ℕ) → 4 < flags → MeansState flags (lit "unknown:" ++ nat_text flags)

policy_state-no_name :
    (flags : ℕ) → 4 < flags → policy_state flags ≡ lit "unknown:" ++ nat_text flags
unfolding policy_state
policy_state-no_name flags h = ground arith

no_name-MeansState : (flags : ℕ) → 4 < flags → MeansState flags (policy_state flags)
no_name-MeansState flags h = rw (policy_state-no_name flags h) (no_name flags h)

policy_state-MeansState : (flags : ℕ) → MeansState flags (policy_state flags)
unfolding policy_state
policy_state-MeansState ℕ.zero = unchanged
policy_state-MeansState (ℕ.suc ℕ.zero) = success
policy_state-MeansState (ℕ.suc (ℕ.suc ℕ.zero)) = failure
policy_state-MeansState (ℕ.suc (ℕ.suc (ℕ.suc ℕ.zero))) = both
policy_state-MeansState (ℕ.suc (ℕ.suc (ℕ.suc (ℕ.suc ℕ.zero)))) = no_audit
policy_state-MeansState (ℕ.suc (ℕ.suc (ℕ.suc (ℕ.suc (ℕ.suc n))))) =
    no_name-MeansState _ (omega arith)

module _ (api : AuditApi) where
  -- A query that gave a buffer with the element of an item: the first query, or, where that was
  -- answered, the one after the attempt to enable the privilege.
  pub record Queried (guids : Option (List Guid)) (s : Calls) (item : Text × Text) : Type 0 where
    pub moment : Calls
    pub asked : List Guid
    pub asked_is : guids ≡ some asked
    pub moment_is : (moment ≡ s) ⊎ (moment ≡ (enable_security_privilege api (queried ∷ s)).1)
    pub buffer : PolicyBuffer
    pub answered : api.query_system_policy moment asked ≡ some buffer
    pub entry : Entry buffer.entries item

  -- What a query gave has an element for every item.
  abbrev IsQueried : Option (List Guid) → Calls → Tried (List (Text × Text)) → Type 0
  IsQueried guids s (gave states) = (x : Text × Text) → In x states → Queried guids s x
  IsQueried guids s (os_error e) = Unit
  IsQueried guids s value_error = Unit

  query_once-IsQueried :
      (guids : List Guid) (start s : Calls)
      → (s ≡ start) ⊎ (s ≡ (enable_security_privilege api (queried ∷ start)).1)
      → IsQueried (some guids) start (query_once api guids s).0
  unfolding query_once
  query_once-IsQueried guids start s when = answer (api.query_system_policy s guids) refl
    where
      answer :
          (b : Option PolicyBuffer)
          → api.query_system_policy s guids ≡ b
          → IsQueried (some guids) start (read_buffer api (queried ∷ s) b).0
      answer none e = tt
      answer (some b) e = elim (Bool-cases (nat_beq b.address 0)) [
        | inl null ↦ rw null tt
        | inr there_ ↦ rw there_ (λ x m. elim (states_onto-Entry b.entries [] m) [
          | inl n ↦ elim n [ ]
          | inr entry ↦ record {
            moment = s;
            asked = guids;
            asked_is = refl;
            moment_is = when;
            buffer = b;
            answered = e;
            entry = entry;
          }
        ])
      ]

  read_buffer-os_error :
      (t : Calls) (b : Option PolicyBuffer) {e : OsError}
      → (read_buffer api t b).0 ≡ os_error e
      → (read_buffer api t b).1 ≡ t
  read_buffer-os_error t none h = refl
  read_buffer-os_error t (some b) h = ground arith

  query_once-os_error :
      (guids : List Guid) (s : Calls) {e : OsError}
      → (query_once api guids s).0 ≡ os_error e
      → (query_once api guids s).1 ≡ queried ∷ s
  unfolding query_once
  query_once-os_error guids s h =
      read_buffer-os_error (queried ∷ s) (api.query_system_policy s guids) h

  query_enabled-IsQueried :
      (guids : List Guid) (start : Calls) (enabled : Tried Unit × Calls)
      → enabled.1 ≡ (enable_security_privilege api (queried ∷ start)).1
      → IsQueried (some guids) start (query_enabled api guids enabled).0
  query_enabled-IsQueried guids start (gave _, s) e = query_once-IsQueried guids start s (inr e)
  query_enabled-IsQueried guids start (os_error _, s) e = tt
  query_enabled-IsQueried guids start (value_error, s) e = tt

  retry_query-IsQueried :
      (guids : List Guid) (start : Calls) (first : Tried (List (Text × Text)) × Calls)
      → ((e : OsError) → first.0 ≡ os_error e → first.1 ≡ queried ∷ start)
      → IsQueried (some guids) start first.0
      → IsQueried (some guids) start (retry_query api guids first).0
  retry_query-IsQueried guids start (gave _, s) at_once q = q
  retry_query-IsQueried guids start (value_error, s) at_once q = tt
  retry_query-IsQueried guids start (os_error e, s) at_once q =
      elim (Bool-cases (is_access_denied e)) [
        | inl d ↦ rw d (
            query_enabled-IsQueried guids start (enable_security_privilege api s)
              (ap (λ t. (enable_security_privilege api t).1) (at_once e refl)))
        | inr d ↦ rw d tt
      ]

  query_system_policy-IsQueried :
      (py : Python) (is_windows : Bool) (guids : List Text) (s : Calls)
      → IsQueried (from_strings py guids) s (query_system_policy api py is_windows guids s).0
  unfolding query_system_policy
  query_system_policy-IsQueried py is_windows [] s = λ x m. elim m [ ]
  query_system_policy-IsQueried py false (v ∷ vs) s = tt
  query_system_policy-IsQueried py true (v ∷ vs) s = by_guids (from_strings py (v ∷ vs))
    where
      by_guids : (guids : Option (List Guid)) → IsQueried guids s (query_guids api guids s).0
      by_guids none = tt
      by_guids (some guids) =
          retry_query-IsQueried guids s (query_once api guids s) (λ e. query_once-os_error guids s)
            (query_once-IsQueried guids s s (inl refl))

  -- An element of a buffer that sets the subcategory of a provider to a state that it requires.
  pub record Reports (guids : Option (List Guid)) (s : Calls) (provider : AuditProvider)
      : Type 0 where
    pub item : Text × Text
    pub query : Queried guids s item
    pub guid_is : ascii_upper (as_string query.entry.subcategory) ≡ guid provider
    pub state : Text
    pub means : MeansState query.entry.flags state
    pub required : member state provider.required_states ≡ true

  gates-Reports :
      {guids : Option (List Guid)} {s : Calls} (provider : AuditProvider)
      (states : List (Text × Text))
      → ((x : Text × Text) → In x states → Queried guids s x)
      → Decision.policy_state provider (map policy_gate states) ≡ right
      → Reports guids s provider
  unfolding find_gate gate_text
  gates-Reports provider states q h =
      let (g, found, _, required) = found_policy-right provider _ h in
      let (m, key) = find-In _ _ found in
      let (x, listed, same) = In-map states m in
      let query = q x listed in
      let is_key = ap (λ gate. gate.key) (sym same) ∙ eq_of_== key in
      let is_value = ap (λ gate. member (gate_text gate.value) provider.required_states) same in
      record {
        item = x;
        query = query;
        guid_is =
            append-injective (lit "windows.audit.") (
              ap (λ i. lit "windows.audit." ++ ascii_upper i.0) (sym query.entry.item_is) ∙ is_key);
        state = policy_state query.entry.flags;
        means = policy_state-MeansState query.entry.flags;
        required =
            ap (λ i. member i.1 provider.required_states) (sym query.entry.item_is)
            ∙ sym is_value
            ∙ required;
      }

-- If the collector's policy is used, as it has no error, and makes an entry of the catalogue
-- COVERED, then a query of the system for the GUIDs of the caller, the first one or the one after
-- the attempt to enable the privilege, gave a buffer with an element whose GUID, as text in upper
-- case, is that of the entry's subcategory, and whose flags mean a state that the entry requires.
pub collect_native_policy-Reports :
    (api : AuditApi) (py : Python) (is_windows : Bool) (guids : List Text) (s : Calls)
    (provider : AuditProvider) {c : NativeAuditPolicy}
    → (collect_native_policy api py is_windows guids s).0 ≡ some c
    → is_none c.error ≡ true
    → (cli : AuditpolCliCollection) (registry : ParseResult) (channel : ChannelConfig)
    → (evaluate_windows_audit provider (native_policy_result c cli).0 registry channel).0 ≡ covered
    → Reports api (from_strings py guids) s provider
unfolding collect_native_policy native_policy_result
collect_native_policy-Reports api py is_windows guids s provider h clean cli registry channel v =
    let (_, _, state, _, _) = (evaluate_windows_audit-covered provider _ registry channel).0 v in
    answer _ (query_system_policy-IsQueried api py is_windows guids s) h clean state
  where
    with_error : false ≡ true → ⊥
    with_error e = cc

    answer :
        (result : Tried (List (Text × Text)))
        → IsQueried api (from_strings py guids) s result
        → {c : NativeAuditPolicy} → native_policy api result ≡ some c
        → is_none c.error ≡ true
        → Decision.policy_state provider (native_policy_result c cli).0.gates ≡ right
        → Reports api (from_strings py guids) s provider
    answer (gave states) q h clean state =
        gates-Reports api provider states q (rw (← some-injective _ _ h) at state)
    answer (os_error e) q h clean state = absurd (with_error (rw (← some-injective _ _ h) at clean))
    answer value_error q h clean state = absurd (ground arith)
