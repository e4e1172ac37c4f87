-- ===== src/Core/ResourceTypes.antt =====
-- libs/core/resource_types.py: the registry of resource types, the governance actions that it
-- allows, and the placement of resources. The descriptions are left out, and the text of an error
-- is the case that it reports.
pub mod Rules
pub mod Tests
use optaic_trading.Prelude.{
  ◌≡◌, Bool, true, false, ◌&&◌, ◌||◌, Option, none, some, List, [], ◌∷◌, ◌++◌, map, any, String,
  ◌==◌, string_eq, if◌then◌else◌,
}

pub data ResourceCategory : Type 0 where
  scope definition_ instance_ flow : ResourceCategory

pub data GovernanceAction : Type 0 where
  copy branch transfer promote merge view : GovernanceAction

pub record ResourceTypeInfo : Type 0 where
  pub name : String
  pub category : ResourceCategory
  pub parent_type : Option String
  pub allowed_actions : List GovernanceAction

abbrev pub flow_actions : List GovernanceAction
flow_actions = view ∷ []

abbrev pub scope_actions : List GovernanceAction
scope_actions = view ∷ copy ∷ transfer ∷ promote ∷ []

abbrev pub individual_actions : List GovernanceAction
individual_actions = view ∷ copy ∷ branch ∷ transfer ∷ promote ∷ merge ∷ []

abbrev pub definition_types : List String
definition_types =
    "PipelineDef" ∷ "StoreDef" ∷ "AccessorDef" ∷ "OpDef" ∷ "MLModuleDef" ∷ "PortfolioOptimizerDef"
    ∷ "SignalDef" ∷ "DatasetDef" ∷ "StrategyDef" ∷ []

abbrev pub instance_types : List String
instance_types =
    "PipelineInstance" ∷ "DatasetInstance" ∷ "SignalInstance" ∷ "ExperimentInstance"
    ∷ "ModelInstance" ∷ "PortfolioOptimizerInstance" ∷ "BacktestInstance" ∷ []

abbrev pub flow_types : List String
flow_types =
    "PipelineRun" ∷ "ExperimentRun" ∷ "BacktestRun" ∷ "PortfolioOptimizationRun" ∷ "TrainingRun"
    ∷ "InferenceRun" ∷ "MonitoringRun" ∷ []

abbrev pub chat_types : List String
chat_types = "Channel" ∷ "Message" ∷ "Thread" ∷ []

-- The entries under Project that a loop of `_init_registry` makes.
abbrev pub under_project :
    ResourceCategory → List GovernanceAction → List String → List ResourceTypeInfo
under_project category actions = map (λ name. record {
  name = name;
  category = category;
  parent_type = some "Project";
  allowed_actions = actions;
})

-- What `_init_registry` leaves in `_TYPES`; the names differ.
unfoldable pub registry : List ResourceTypeInfo
registry =
    record { name = "Space"; category = scope; parent_type = none; allowed_actions = view ∷ [] }
      ∷ record {
        name = "SubSpace";
        category = scope;
        parent_type = some "Space";
        allowed_actions = view ∷ [];
      }
      ∷ record {
        name = "Project";
        category = scope;
        parent_type = some "SubSpace";
        allowed_actions = scope_actions;
      }
      ∷ under_project definition_ individual_actions definition_types
    ++ under_project instance_ individual_actions instance_types
    ++ under_project flow flow_actions flow_types
    ++ under_project flow flow_actions chat_types

abbrev pub lookup : String → List ResourceTypeInfo → Option ResourceTypeInfo
lookup resource_type [] = none
lookup resource_type (info ∷ infos) =
    if resource_type == info.name then some info else lookup resource_type infos

unfoldable pub get_info : String → Option ResourceTypeInfo
get_info resource_type = lookup resource_type registry

abbrev pub action_eq : GovernanceAction → GovernanceAction → Bool
action_eq copy copy = true
action_eq branch branch = true
action_eq transfer transfer = true
action_eq promote promote = true
action_eq merge merge = true
action_eq view view = true
action_eq _ _ = false

-- Unknown types have the rules of individual resources.
abbrev pub actions_of : Option ResourceTypeInfo → List GovernanceAction
actions_of none = individual_actions
actions_of (some info) = info.allowed_actions

unfoldable pub get_allowed_actions : String → List GovernanceAction
get_allowed_actions resource_type = actions_of (get_info resource_type)

unfoldable pub is_action_allowed : String → GovernanceAction → Bool
is_action_allowed resource_type action =
    any (action_eq action) (actions_of (get_info resource_type))

abbrev pub category_of : Option ResourceTypeInfo → Option ResourceCategory
category_of none = none
category_of (some info) = some info.category

unfoldable pub get_category : String → Option ResourceCategory
get_category resource_type = category_of (get_info resource_type)

pub data Placement : Type 0 where
  valid unknown_outside_project parent_given : Placement
  must_be_under : String → Placement

abbrev pub is_parent : Option String → String → Bool
is_parent none name = false
is_parent (some parent) name = parent == name

abbrev pub is_individual : ResourceCategory → Bool
is_individual definition_ = true
is_individual instance_ = true
is_individual _ = false

-- The placement of a type with a required parent
abbrev pub place_under : String → ResourceCategory → Option String → Placement
place_under required category parent =
    if is_parent parent required
    then valid
    else if is_individual category && (is_parent parent "Project" || is_parent parent "SubSpace")
    then valid
    else must_be_under required

-- A type without a required parent has none.
abbrev pub place_required : Option String → ResourceCategory → Option String → Placement
place_required none category none = valid
place_required none category (some _) = parent_given
place_required (some required) category parent = place_under required category parent

unfoldable pub place_info : Option ResourceTypeInfo → Option String → Placement
place_info none parent = if is_parent parent "Project" then valid else unknown_outside_project
place_info (some info) parent = place_required info.parent_type info.category parent

unfoldable pub validate_placement : String → Option String → Placement
validate_placement resource_type parent_type = place_info (get_info resource_type) parent_type
