-- ===== src/Guardrails/Gate.antt =====
-- `compute_effective_enforcement` (optaic/guardrails/enforcement/policy.py), the lookups and
-- `validate_bundle` of ContractRegistry (contracts/registry.py) and `validate_at_gate`
-- (runtime/engine.py). Snapshots and issues are parameters, and a validator, which is a plug-in of
-- the registry, is a function from a contract and a snapshot to the issues. The report's
-- identifiers and times are left out.
pub mod Blocking
pub mod Tests
use optaic_trading.Prelude.{
  Bool, true, false, not, ◌&&◌, ◌||◌, Option, none, some, List, [], ◌∷◌, ◌++◌, any, map, String,
  ◌==◌, string_eq, if◌then◌else◌, Result, ok, err, ◌>>=◌,
}

-- "warn" and "block"
pub data Enforcement : Type 0 where
  warn block : Enforcement

abbrev pub is_block : Enforcement → Bool
is_block warn = false
is_block block = true

unfoldable pub compute_effective_enforcement : String → Enforcement → Enforcement
compute_effective_enforcement subspace_kind hint =
    if subspace_kind == "official"
    then block
    else if subspace_kind == "staging"
    then warn
    else if is_block hint
    then block
    else warn

pub record ContractInstance : Type 0 where
  pub contract_kind : String
  pub version : String
  pub contract_hash : String
  pub enforcement_hint : Enforcement

-- The loop over the contracts of a bundle for the strongest hint
unfoldable pub bundle_hint : List ContractInstance → Enforcement
bundle_hint [] = warn
bundle_hint (contract ∷ contracts) =
    let rest = bundle_hint contracts in if is_block contract.enforcement_hint then block else rest

pub data RegistryError : Type 0 where
  unknown_contract_kind : String → String → RegistryError
  unknown_validator : String → RegistryError

-- `context.subspace_kind or "custom"`
abbrev pub subspace_or_custom : Option String → String
subspace_or_custom none = "custom"
subspace_or_custom (some kind) = if kind == "" then "custom" else kind

abbrev pub is_nil {ℓ} : {A : Type ℓ} → List A → Bool
is_nil [] = true
is_nil (x ∷ xs) = false

module _ (Snapshot Issue : Type 0) where
  abbrev pub Validator : Type 0
  Validator = ContractInstance → Snapshot → List Issue

  -- A contract kind of the registry with its default validator
  pub record ContractKind : Type 0 where
    pub kind : String
    pub version : String
    pub default_validator : String

  pub record Registry : Type 0 where
    pub contract_kinds : List ContractKind
    pub validators : List (String × Validator)

  abbrev pub kind_named : String → String → List ContractKind → Result RegistryError String
  kind_named kind version [] = err (unknown_contract_kind kind version)
  kind_named kind version (known ∷ kinds) =
      if kind == known.kind && version == known.version
      then ok known.default_validator
      else kind_named kind version kinds

  abbrev pub validator_named : String → List (String × Validator) → Result RegistryError Validator
  validator_named name [] = err (unknown_validator name)
  validator_named name ((known, validator) ∷ validators) =
      if name == known then ok validator else validator_named name validators

  unfoldable pub validate_contract :
      Registry → Snapshot → ContractInstance → Result RegistryError (List Issue)
  validate_contract registry snapshot contract =
      kind_named contract.contract_kind contract.version registry.contract_kinds >>= λ name.
      validator_named name registry.validators >>= λ validator. ok (validator contract snapshot)

  unfoldable pub validate_bundle :
      Registry → Snapshot → List ContractInstance → Result RegistryError (List Issue)
  validate_bundle registry snapshot [] = ok []
  validate_bundle registry snapshot (contract ∷ contracts) =
      validate_contract registry snapshot contract >>= λ issues.
      validate_bundle registry snapshot contracts >>= λ more. ok (issues ++ more)

  pub record ValidationReport : Type 0 where
    pub ok_ : Bool
    pub enforced_as : Enforcement
    pub issues : List Issue
    pub contract_hashes : List String

  -- The reports and the names of the events that are stored
  pub record Stored : Type 0 where
    pub reports : List ValidationReport
    pub events : List String

  -- A report; GuardrailsBlocked; or an error of the registry
  pub data Outcome : Type 0 where
    passed blocked : ValidationReport → Outcome
    raised : RegistryError → Outcome

  abbrev pub event_name : ValidationReport → String
  event_name report =
      if not report.ok_ && is_block report.enforced_as
      then "guardrails.blocked"
      else "guardrails.validated"

  unfoldable pub persist_and_emit : ValidationReport → Stored → Stored
  persist_and_emit report stored_ = record {
    reports = stored_.reports ++ report ∷ [];
    events = stored_.events ++ event_name report ∷ [];
  }

  -- Behind the validation of the bundle
  unfoldable pub enforce :
      Option String
      → List ContractInstance
      → Stored
      → Result RegistryError (List Issue)
      → Outcome × Stored
  enforce subspace_kind contracts stored_ (err e) = (raised e, stored_)
  enforce subspace_kind contracts stored_ (ok issues) =
      let enforced_as =
        compute_effective_enforcement (subspace_or_custom subspace_kind) (bundle_hint contracts) in
      let report : ValidationReport = record {
        ok_ = is_nil issues;
        enforced_as = enforced_as;
        issues = issues;
        contract_hashes = map (λ contract. contract.contract_hash) contracts;
      } in
      (
        if not (is_nil issues) && is_block enforced_as then blocked report else passed report,
        persist_and_emit report stored_,
      )

  -- The active bundle of the resource is the third argument.
  unfoldable pub validate_at_gate :
      Registry
      → Option String
      → Option (List ContractInstance)
      → Snapshot
      → Stored
      → Outcome × Stored
  validate_at_gate registry subspace_kind none snapshot stored_ =
      let report : ValidationReport = record {
        ok_ = true;
        enforced_as = warn;
        issues = [];
        contract_hashes = [];
      } in
      (passed report, persist_and_emit report stored_)
  validate_at_gate registry subspace_kind (some contracts) snapshot stored_ =
      enforce subspace_kind contracts stored_ (validate_bundle registry snapshot contracts)
