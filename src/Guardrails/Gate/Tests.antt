-- ===== src/Guardrails/Gate/Tests.antt =====
-- A gate with one contract, and the theorem about it there.
use optaic_trading.Prelude.{
  ℕ, ◌≡◌, refl, some, [], ◌∷◌, String, string_eq, nat_beq, if◌then◌else◌, ok,
}
use optaic_trading.Guardrails.Gate.{
  block, ContractInstance, Registry, Stored, validate_contract, validate_bundle, validate_at_gate,
}
use optaic_trading.Guardrails.Gate.Blocking.{IsGated, validate_at_gate-IsGated}

abbrev contract : ContractInstance
contract = record {
  contract_kind = "schema";
  version = "1.0.0";
  contract_hash = "h";
  enforcement_hint = block;
}

-- The validator finds an issue in the snapshot 0.
abbrev registry : Registry ℕ String
registry = record {
  contract_kinds =
      record { kind = "schema"; version = "1.0.0"; default_validator = "jsonschema" } ∷ [];
  validators = ("jsonschema", λ c snapshot. if nat_beq snapshot 0 then "empty" ∷ [] else []) ∷ [];
}

abbrev nothing : Stored ℕ String
nothing = record { reports = []; events = [] }

issues : validate_bundle ℕ String registry 0 (contract ∷ []) ≡ ok ("empty" ∷ [])
unfolding validate_bundle validate_contract
issues = refl

-- In a staging subspace the issue of a blocking contract lets the action pass.
validate_at_gate-IsGated_example :
    IsGated ℕ String
      (some "staging")
      (contract ∷ [])
      ("empty" ∷ [])
      nothing
      (validate_at_gate ℕ String registry (some "staging") (some (contract ∷ [])) 0 nothing)
validate_at_gate-IsGated_example =
    validate_at_gate-IsGated ℕ String registry (some "staging") (contract ∷ []) 0 nothing
      ("empty" ∷ []) issues
