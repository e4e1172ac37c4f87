-- ===== src/Core/ResourceTypes/Tests.antt =====
-- The rules at types of the registry.
use optaic_trading.Prelude.{◌≡◌, ◌↔◌, true, some, ◌||◌, refl}
use optaic_trading.Core.ResourceTypes.{
  definition_, flow, scope, merge, registry, get_info, is_action_allowed, get_category, valid,
  is_parent, validate_placement,
}
use optaic_trading.Core.ResourceTypes.Rules.{
  is_permitted, is_action_allowed-permitted, individual_placement,
}

run_category : get_category "PipelineRun" ≡ some flow
unfolding get_category get_info registry
run_category = refl

signal_category : get_category "SignalDef" ≡ some definition_
unfolding get_category get_info registry
signal_category = refl

project_category : get_category "Project" ≡ some scope
unfolding get_category get_info registry
project_category = refl

is_action_allowed-permitted_example :
    is_action_allowed "Project" merge ≡ is_permitted scope "Project" merge
is_action_allowed-permitted_example =
    is_action_allowed-permitted "Project" scope merge project_category

individual_placement_example :
    (validate_placement "SignalDef" (some "Space") ≡ valid)
    ↔ ((is_parent (some "Space") "Project" || is_parent (some "Space") "SubSpace") ≡ true)
individual_placement_example =
    individual_placement "SignalDef" definition_ (some "Space") signal_category refl
