-- ===== src/Api/Policy.antt =====
-- sigmascope/api.py: `_native_policy_result`, over what the two collectors of the audit policy
-- returned.
use sigmascope.Base.{List, [], ◌∷◌, ◌++◌, map, Option, none, some, Text, lit, sorted_set}
use sigmascope.Base.{ascii_upper, flat_map}
use sigmascope.Model.{CollectionError, Gate, text_value, ParseResult, effective, unparsed}
use sigmascope.Catalog.{Provider, windows_audit, Requirement}

-- `NativeAuditPolicy`; the dict is the list of its items.
pub record NativeAuditPolicy : Type 0 where
  pub states : List (Text × Text)
  pub error : Option CollectionError

pub record AuditpolCliCollection : Type 0 where
  pub parsed : Option ParseResult
  pub error : Option CollectionError

abbrev pub provider_guids : List Provider → List Text
provider_guids [] = []
provider_guids (windows_audit p ∷ rest) = p.subcategory_guid ∷ provider_guids rest
provider_guids (_ ∷ rest) = provider_guids rest

-- The argument of `collect_native_policy`.
unfoldable pub subcategory_guids : List Requirement → List Text
subcategory_guids requirements =
    sorted_set (flat_map (λ requirement. provider_guids requirement.providers) requirements)

abbrev pub policy_gate : Text × Text → Gate
policy_gate (guid, state) = record {
  key = lit "windows.audit." ++ ascii_upper guid;
  value = text_value state;
  origin = record { resource = lit "AuditQuerySystemPolicy"; locator = guid };
}

abbrev pub error_list : Option CollectionError → List CollectionError
error_list none = []
error_list (some e) = e ∷ []

abbrev pub cli_policy : CollectionError → AuditpolCliCollection → ParseResult × List CollectionError
cli_policy native_error cli = elim cli.parsed [
  | some parsed ↦ (parsed, native_error ∷ [])
  | none ↦ (unparsed, native_error ∷ error_list cli.error)
]

-- The native policy, or that of auditpol where the native query failed.
unfoldable pub native_policy_result :
    NativeAuditPolicy → AuditpolCliCollection → ParseResult × List CollectionError
native_policy_result native cli = elim native.error [
  | none ↦ (
    record {
      determinacy = effective;
      gates = map policy_gate native.states;
      rules = [];
      diagnostics = [];
    },
    [],
  )
  | some e ↦ cli_policy e cli
]
