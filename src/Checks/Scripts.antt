-- ===== src/Checks/Scripts.antt =====
-- The scripts at inputs that are written out.
use sigmascope.Base.{ℕ, ℤ, pos, [], ◌∷◌, ◌≡◌, refl, some, none, lit}
use sigmascope.Api.Policy.{NativeAuditPolicy, AuditpolCliCollection}
use sigmascope.Scripts.TestPypi.{code, install, install_command}
use sigmascope.Scripts.TestPypi.Attempts.{
  schedule, first_success, final_code, failures_until, install-first_success,
}
use sigmascope.Checks.Data.{success_policy}

-- The package is there at the third attempt.
abbrev third : ℕ → ℤ
third ℕ.zero = pos 1
third (ℕ.suc ℕ.zero) = pos 1
third (ℕ.suc (ℕ.suc k)) = pos 0

install-first_success_example :
    ((install (lit "v1.2") (lit "python") third).0 ≡ code (final_code third (first_success third)))
    × ((install (lit "v1.2") (lit "python") third).1
        ≡ schedule
            (install_command (lit "python") (lit "1.2"))
            (failures_until (first_success third)))
unfolding lit
install-first_success_example = install-first_success (lit "v1.2") (lit "python") third refl

abbrev native : NativeAuditPolicy
native = record {
  states = (lit "{0CCE922B}", lit "success") ∷ (lit "{0CCE9999}", lit "none") ∷ [];
  error = none;
}

abbrev cli : AuditpolCliCollection
cli = record { parsed = some success_policy; error = none }
