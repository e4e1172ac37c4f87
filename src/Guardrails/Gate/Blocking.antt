-- ===== src/Guardrails/Gate/Blocking.antt =====
-- When an action is blocked at a gate, and what is stored then.
use optaic_trading.Prelude.{
  ◌≡◌, Bool, true, false, not, ◌&&◌, ◌||◌, Option, some, List, [], ◌∷◌, ◌++◌, any, map, String,
  ◌==◌, string_eq, if◌then◌else◌, Result, ok, arith, refl, sym, ap, subst, ◌∙◌,
}
use optaic_trading.Guardrails.Gate.{
  Enforcement, is_block, compute_effective_enforcement, ContractInstance, bundle_hint,
  RegistryError, subspace_or_custom, is_nil, Registry, ValidationReport, Stored, Outcome, passed,
  blocked, validate_bundle, persist_and_emit, enforce, validate_at_gate,
}

is_block-bundle_hint :
    (contracts : List ContractInstance)
    → is_block (bundle_hint contracts) ≡ any (λ c. is_block c.enforcement_hint) contracts
unfolding bundle_hint
is_block-bundle_hint [] = refl
is_block-bundle_hint (contract ∷ contracts) = ground (arith, is_block-bundle_hint contracts)

is_block-effective :
    (kind : String) (hint : Enforcement)
    → is_block (compute_effective_enforcement kind hint)
      ≡ ((kind == "official") || (not (kind == "staging") && is_block hint))
unfolding compute_effective_enforcement
is_block-effective kind hint = ground arith

module _ (Snapshot Issue : Type 0) where
  abbrev pub is_blocked : Outcome Snapshot Issue → Bool
  is_blocked (blocked report) = true
  is_blocked _ = false

  -- What a gate must do with the issues of the contracts in a subspace: it blocks if there are issues
  -- and the subspace is official, or is no staging subspace and some contract hints to block. A
  -- report with the issues is stored in each case, with an event that says whether it blocked.
  pub record IsGated (subspace_kind : Option String) (contracts : List ContractInstance)
      (issues : List Issue) (before : Stored Snapshot Issue)
      (result : Outcome Snapshot Issue × Stored Snapshot Issue) : Type 0 where
    pub blocks : is_blocked result.0 ≡ (
        not (is_nil issues)
        && ((subspace_or_custom subspace_kind == "official")
            || (not (subspace_or_custom subspace_kind == "staging")
                && any (λ c. is_block c.enforcement_hint) contracts)))
    pub report : ValidationReport Snapshot Issue
    pub reported : report.issues ≡ issues
    pub persisted : result.1.reports ≡ before.reports ++ report ∷ []
    pub emitted :
        result.1.events
        ≡ before.events
          ++ (if is_blocked result.0 then "guardrails.blocked" else "guardrails.validated") ∷ []

  is_blocked-if :
      (b : Bool) (report : ValidationReport Snapshot Issue)
      → is_blocked (if b then blocked report else passed report) ≡ b
  is_blocked-if true report = refl
  is_blocked-if false report = refl

  enforce-IsGated :
      (subspace_kind : Option String) (contracts : List ContractInstance) (issues : List Issue)
      (before : Stored Snapshot Issue)
      → IsGated subspace_kind contracts issues before
          (enforce Snapshot Issue subspace_kind contracts before (ok issues))
  unfolding enforce persist_and_emit
  enforce-IsGated subspace_kind contracts issues before =
      let kind = subspace_or_custom subspace_kind in
      let stops = is_blocked-if (
        not (is_nil issues)
        && is_block (compute_effective_enforcement kind (bundle_hint contracts))) in
      record {
        blocks =
            stops _
            ∙ ap (λ b. not (is_nil issues) && b)
                (is_block-effective kind (bundle_hint contracts)
                  ∙ ap (λ b. (kind == "official") || (not (kind == "staging") && b))
                      (is_block-bundle_hint contracts));
        report = record {
          ok_ = is_nil issues;
          enforced_as = compute_effective_enforcement kind (bundle_hint contracts);
          issues = issues;
          contract_hashes = map (λ contract. contract.contract_hash) contracts;
        };
        reported = refl;
        persisted = refl;
        emitted =
            ap
              (λ (b : Bool).
                before.events ++ (if b then "guardrails.blocked" else "guardrails.validated") ∷ [])
              (sym (stops _));
      }

  -- With a bundle whose contracts can be validated, the gate blocks the action exactly if there are
  -- issues and the subspace is official, or is no staging subspace and some contract hints to block;
  -- it stores a report with the issues in each case, and an event that says whether it blocked.
  pub validate_at_gate-IsGated :
      (registry : Registry Snapshot Issue) (subspace_kind : Option String)
      (contracts : List ContractInstance) (snapshot : Snapshot) (before : Stored Snapshot Issue)
      (issues : List Issue)
      → validate_bundle Snapshot Issue registry snapshot contracts ≡ ok issues
      → IsGated subspace_kind contracts issues before
          (validate_at_gate Snapshot Issue registry subspace_kind (some contracts) snapshot before)
  unfolding validate_at_gate
  validate_at_gate-IsGated registry subspace_kind contracts snapshot before issues validated =
      subst
        (λ (r : Result RegistryError (List Issue)).
          IsGated subspace_kind contracts issues before
            (enforce Snapshot Issue subspace_kind contracts before r))
        (sym validated) (enforce-IsGated subspace_kind contracts issues before)
