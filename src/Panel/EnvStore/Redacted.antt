-- ===== src/Panel/EnvStore/Redacted.antt =====
-- What panel/src/server/env-store.ts makes of the values that it showed.
use evm_contract_auditor_hon.Prelude.{
  ◌≡◌, ◌≢◌, List, [], ◌∷◌, map, false, any, Option, some, Text, text_eq,
}
use evm_contract_auditor_hon.Prelude.Dict.{Dict, lookup}
use evm_contract_auditor_hon.Panel.EnvStore.{read_env_redacted}

-- The keys are distinct, and no value is empty.
abbrev pub AllSet : Dict Text → Type 0
AllSet [] = Unit
AllSet ((key, value) ∷ rest) =
    (value ≢ []) × (any (λ (p : Text × Text). text_eq key p.0) rest ≡ false) × AllSet rest

-- The form with its values as they are shown.
abbrev pub shown : Dict Text → List (Text × Option Text)
shown d = map (λ (p : Text × Text). (p.0, some p.1)) (read_env_redacted d)

-- Each pair is what the dictionary has for its key.
abbrev Holds : Dict Text → Dict Text → Type 0
Holds [] current = Unit
Holds ((key, value) ∷ rest) current =
    (lookup key current ≡ some value) × (value ≢ []) × Holds rest current
