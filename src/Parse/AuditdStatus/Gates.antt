-- ===== src/Parse/AuditdStatus/Gates.antt =====
-- sigmascope/parse/auditd_status.py: the gates of a status that was parsed safely.
use sigmascope.Base.{true, false, List, [], ◌∷◌, ◌++◌, ◌≡◌, refl, ◌∙◌}
use sigmascope.Base.{arith, ℤ, Text, lit, ◌==◌, some, Python, map, filter, any, find}
use sigmascope.Base.{Bool-cases, inl, inr, splitlines}
use sigmascope.Model.{Gate, int_value, Diagnostic, effective, determinacy_of}
use sigmascope.Parse.AuditdStatus.{Value, has_value, status_gate, missing_keys}
use sigmascope.Parse.AuditdStatus.{missing_diagnostics, read_lines, parse_auditd_status}
use sigmascope.Evaluate.Sysmon.{gate_value}

==-append : (p s t : Text) → (p ++ s == p ++ t) ≡ (s == t)
unfolding ◌==◌
==-append [] s t = refl
==-append (c ∷ p) s t = ground (arith, ==-append p s t)

-- The gate of a value is found under its key, behind the prefix.
gate_found :
    (py : Python) (source_id : Text) (v : Value) (rest : List Gate) (key : Text)
    → (v.key == key) ≡ true
    → gate_value (status_gate py source_id v ∷ rest) (lit "auditd." ++ key)
      ≡ some (int_value v.number)
unfolding gate_value find
gate_found py source_id v rest key e = ground (arith, ==-append (lit "auditd.") v.key key)

gate_passed :
    (py : Python) (source_id : Text) (v : Value) (rest : List Gate) (key : Text)
    → (v.key == key) ≡ false
    → gate_value (status_gate py source_id v ∷ rest) (lit "auditd." ++ key)
      ≡ gate_value rest (lit "auditd." ++ key)
unfolding gate_value find
gate_passed py source_id v rest key e =
    let other : ((lit "auditd." ++ v.key) == (lit "auditd." ++ key)) ≡ false =
      ==-append (lit "auditd.") v.key key ∙ e in
    rw (gate_value, other) refl

-- A key of the dict is the key of a gate, behind the prefix.
find-has_value :
    (py : Python) (source_id : Text) (values : List Value) (key : Text)
    → has_value values key ≡ true
    → (n : ℤ) × (gate_value (map (status_gate py source_id) values) (lit "auditd." ++ key)
        ≡ some (int_value n))
unfolding has_value any
find-has_value py source_id [] key h = absurd (ground arith)
find-has_value py source_id (v ∷ values) key h = elim (Bool-cases (v.key == key)) [
  | inl e ↦ (v.number, gate_found py source_id v _ key e)
  | inr e ↦
      let (n, found) = find-has_value py source_id values key (rw e at h) in
      (n, gate_passed py source_id v _ key e ∙ found)
]

missing_diagnostics-effective :
    (py : Python) (source_id text : Text) (issues : List Diagnostic) (keys : List Text)
    → determinacy_of (issues ++ missing_diagnostics py source_id keys text) ≡ effective
    → keys ≡ []
missing_diagnostics-effective py source_id text issues [] h = refl
missing_diagnostics-effective py source_id text [] (k ∷ keys) h = absurd (ground arith)
missing_diagnostics-effective py source_id text (d ∷ issues) (k ∷ keys) h = absurd (ground arith)

missing_keys-nil :
    (py : Python) (source_id : Text) (values : List Value)
    → missing_keys py source_id values ≡ []
    → (has_value values (lit "enabled") ≡ true) × (has_value values (lit "pid") ≡ true)
unfolding filter
missing_keys-nil py source_id values h = ground arith

-- An effective result has a gate for the keys "enabled" and "pid" of the status each, and its
-- value is an integer.
pub parse_auditd_status-gate_value :
    (py : Python) (source_id text : Text)
    → (parse_auditd_status py source_id text).determinacy ≡ effective
    → ((n : ℤ) × (gate_value (parse_auditd_status py source_id text).gates (lit "auditd.enabled")
          ≡ some (int_value n)))
      × ((n : ℤ) × (gate_value (parse_auditd_status py source_id text).gates (lit "auditd.pid")
            ≡ some (int_value n)))
unfolding parse_auditd_status lit
parse_auditd_status-gate_value py source_id text h =
    let (values, issues) = read_lines py source_id (splitlines text) 1 ([], []) in
    let (enabled, pid) = missing_keys-nil py source_id values (
      missing_diagnostics-effective py source_id text issues (missing_keys py source_id values)
        h) in
    (
      find-has_value py source_id values (lit "enabled") enabled,
      find-has_value py source_id values (lit "pid") pid,
    )
