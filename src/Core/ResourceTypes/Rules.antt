-- ===== src/Core/ResourceTypes/Rules.antt =====
-- The governance rules by category, for every type of the registry.
use optaic_trading.Prelude.{
  ◌≡◌, ◌↔◌, inl, inr, Bool, true, false, not, ◌||◌, Option, none, some, List, [], ◌∷◌, ◌&&◌, ◌==◌,
  any, all, String, string_eq, arith, refl, sym, ap, ap₂, subst, ◌∙◌, Bool-cases,
}
use text.Mathlib.TextEquality.{eq_iff}
use optaic_trading.Core.ResourceTypes.{
  ResourceCategory, scope, definition_, instance_, flow, GovernanceAction, copy, branch, transfer,
  promote, merge, view, ResourceTypeInfo, registry, lookup, get_info, action_eq, actions_of,
  is_action_allowed, category_of, get_category, place_under, valid, is_parent, is_individual,
  place_info, place_required, validate_placement,
}

lookup-all :
    (p : ResourceTypeInfo → Bool) (resource_type : String) (infos : List ResourceTypeInfo)
    (info : ResourceTypeInfo)
    → all p infos ≡ true
    → lookup resource_type infos ≡ some info
    → p info ≡ true
lookup-all p resource_type [] info every found = cc
lookup-all p resource_type (first ∷ infos) info every found =
    ground (arith, lookup-all p resource_type infos info)

abbrev is_flow : ResourceCategory → Bool
is_flow flow = true
is_flow _ = false

abbrev implies : Bool → Bool → Bool
implies a b = not a || b

same_bool : Bool → Bool → Bool
same_bool true b = b
same_bool false b = not b

same_bool-≡ : (a b : Bool) → same_bool a b ≡ true → a ≡ b
unfolding same_bool
same_bool-≡ true b h = sym h
same_bool-≡ false b h = ground arith

-- The rules as tests on an entry.
flow_rule : GovernanceAction → ResourceTypeInfo → Bool
flow_rule action info =
    implies (is_flow info.category)
      (same_bool (any (action_eq action) info.allowed_actions) (action_eq action view))

individual_rule : GovernanceAction → ResourceTypeInfo → Bool
individual_rule action info =
    implies (is_individual info.category) (any (action_eq action) info.allowed_actions)

parent_rule : ResourceTypeInfo → Bool
parent_rule info = implies (is_individual info.category) (is_parent info.parent_type "Project")

registry-flow_rule : (action : GovernanceAction) → all (flow_rule action) registry ≡ true
unfolding registry flow_rule same_bool
registry-flow_rule copy = refl
registry-flow_rule branch = refl
registry-flow_rule transfer = refl
registry-flow_rule promote = refl
registry-flow_rule merge = refl
registry-flow_rule view = refl

registry-individual_rule :
    (action : GovernanceAction) → all (individual_rule action) registry ≡ true
unfolding registry individual_rule
registry-individual_rule copy = refl
registry-individual_rule branch = refl
registry-individual_rule transfer = refl
registry-individual_rule promote = refl
registry-individual_rule merge = refl
registry-individual_rule view = refl

registry-parent_rule : all parent_rule registry ≡ true
unfolding registry parent_rule
registry-parent_rule = refl

some_entry :
    (entry : Option ResourceTypeInfo) (category : ResourceCategory)
    → category_of entry ≡ some category
    → (info : ResourceTypeInfo) × (entry ≡ some info) × (info.category ≡ category)
some_entry none category known = cc
some_entry (some info) category known = (info, refl, ground arith)

-- A type with a category has an entry with it.
entry_of :
    (resource_type : String) (category : ResourceCategory)
    → get_category resource_type ≡ some category
    → (info : ResourceTypeInfo) × (lookup resource_type registry ≡ some info)
      × (info.category ≡ category)
unfolding get_category get_info
entry_of resource_type category known = some_entry (lookup resource_type registry) category known

-- Of a flow resource, the only governance action that is allowed is to view it.
pub flow_view_only :
    (resource_type : String) (action : GovernanceAction)
    → get_category resource_type ≡ some flow
    → is_action_allowed resource_type action ≡ action_eq action view
unfolding is_action_allowed get_info flow_rule
flow_view_only resource_type action known =
    let (info, found, is) = entry_of resource_type flow known in
    let allowed = any (action_eq action) info.allowed_actions in
    let rule : implies (is_flow info.category) (same_bool allowed (action_eq action view)) ≡ true =
      lookup-all (flow_rule action) resource_type registry info (registry-flow_rule action) found in
    ap (λ (o : Option ResourceTypeInfo). any (action_eq action) (actions_of o)) found
    ∙ same_bool-≡ allowed (action_eq action view) (
        subst
          (λ (c : ResourceCategory).
            implies (is_flow c) (same_bool allowed (action_eq action view)) ≡ true)
          is rule)

-- Of a definition or an instance, every governance action is allowed.
pub individual_all_allowed :
    (resource_type : String) (category : ResourceCategory) (action : GovernanceAction)
    → get_category resource_type ≡ some category
    → is_individual category ≡ true
    → is_action_allowed resource_type action ≡ true
unfolding is_action_allowed get_info individual_rule
individual_all_allowed resource_type category action known individual =
    let (info, found, is) = entry_of resource_type category known in
    let allowed = any (action_eq action) info.allowed_actions in
    let rule : implies (is_individual info.category) allowed ≡ true =
      lookup-all (individual_rule action) resource_type registry info
        (registry-individual_rule action) found in
    let kind : is_individual info.category ≡ true = ap is_individual is ∙ individual in
    ap (λ (o : Option ResourceTypeInfo). any (action_eq action) (actions_of o)) found ∙ ground arith

lookup-name :
    (resource_type : String) (infos : List ResourceTypeInfo) (info : ResourceTypeInfo)
    → lookup resource_type infos ≡ some info
    → resource_type ≡ info.name
lookup-name resource_type [] info found = cc
lookup-name resource_type (first ∷ infos) info found =
    elim (Bool-cases (resource_type == first.name)) [
      | inl here ↦
          let same : first ≡ info = cc (rw (here) at found) in
          (eq_iff resource_type first.name).0 here ∙ ap (λ (i : ResourceTypeInfo). i.name) same
      | inr there ↦ lookup-name resource_type infos info (rw (there) at found)
    ]

-- The actions that the rules of the three kinds permit: viewing, always; for a project, also what
-- moves or copies it; for a definition or an instance, all.
abbrev pub is_permitted : ResourceCategory → String → GovernanceAction → Bool
is_permitted flow resource_type action = action_eq action view
is_permitted scope resource_type action =
    action_eq action view
    || ((resource_type == "Project")
        && (action_eq action copy || action_eq action transfer || action_eq action promote))
is_permitted definition_ resource_type action = true
is_permitted instance_ resource_type action = true

permitted_rule : GovernanceAction → ResourceTypeInfo → Bool
permitted_rule action info =
    same_bool (any (action_eq action) info.allowed_actions)
      (is_permitted info.category info.name action)

registry-permitted_rule : (action : GovernanceAction) → all (permitted_rule action) registry ≡ true
unfolding registry permitted_rule same_bool
registry-permitted_rule copy = refl
registry-permitted_rule branch = refl
registry-permitted_rule transfer = refl
registry-permitted_rule promote = refl
registry-permitted_rule merge = refl
registry-permitted_rule view = refl

-- Of a registered type, the registry allows a governance action exactly if the rules of the type's
-- category permit it.
pub is_action_allowed-permitted :
    (resource_type : String) (category : ResourceCategory) (action : GovernanceAction)
    → get_category resource_type ≡ some category
    → is_action_allowed resource_type action ≡ is_permitted category resource_type action
unfolding is_action_allowed get_info permitted_rule
is_action_allowed-permitted resource_type category action known =
    let (info, found, is) = entry_of resource_type category known in
    let allowed = any (action_eq action) info.allowed_actions in
    let rule : same_bool allowed (is_permitted info.category info.name action) ≡ true =
      lookup-all (permitted_rule action) resource_type registry info
        (registry-permitted_rule action) found in
    ap (λ (o : Option ResourceTypeInfo). any (action_eq action) (actions_of o)) found
    ∙ same_bool-≡ allowed (is_permitted info.category info.name action) rule
    ∙ ap₂ (λ (c : ResourceCategory) (n : String). is_permitted c n action) is
        (sym (lookup-name resource_type registry info found))

place_under-individual :
    (category : ResourceCategory) (parent : Option String)
    → is_individual category ≡ true
    → (place_under "Project" category parent ≡ valid)
      ↔ ((is_parent parent "Project" || is_parent parent "SubSpace") ≡ true)
place_under-individual category parent kind = elim (Bool-cases (is_parent parent "Project")) [
  | inl project ↦ rw (place_under, project) (ground arith)
  | inr other ↦ elim (Bool-cases (is_parent parent "SubSpace")) [
    | inl subspace ↦ rw (place_under, other, subspace, kind) (ground arith)
    | inr neither ↦ rw (place_under, other, neither, kind) (ground arith)
  ]
]

place_required-individual :
    (required : Option String) (category : ResourceCategory) (parent : Option String)
    → is_individual category ≡ true
    → is_parent required "Project" ≡ true
    → (place_required required category parent ≡ valid)
      ↔ ((is_parent parent "Project" || is_parent parent "SubSpace") ≡ true)
place_required-individual none category parent kind under = cc
place_required-individual (some required) category parent kind under =
    subst
      (λ (r : String).
        (place_under r category parent ≡ valid)
        ↔ ((is_parent parent "Project" || is_parent parent "SubSpace") ≡ true))
      (sym ((eq_iff required "Project").0 under)) (place_under-individual category parent kind)

place-individual :
    (info : ResourceTypeInfo) (parent : Option String)
    → is_individual info.category ≡ true
    → is_parent info.parent_type "Project" ≡ true
    → (place_info (some info) parent ≡ valid)
      ↔ ((is_parent parent "Project" || is_parent parent "SubSpace") ≡ true)
unfolding place_info
place-individual info parent kind under =
    place_required-individual info.parent_type info.category parent kind under

-- A definition or an instance can be placed under a Project or a SubSpace, and nowhere else.
pub individual_placement :
    (resource_type : String) (category : ResourceCategory) (parent : Option String)
    → get_category resource_type ≡ some category
    → is_individual category ≡ true
    → (validate_placement resource_type parent ≡ valid)
      ↔ ((is_parent parent "Project" || is_parent parent "SubSpace") ≡ true)
unfolding validate_placement get_info parent_rule
individual_placement resource_type category parent known individual =
    let (info, found, is) = entry_of resource_type category known in
    let rule : implies (is_individual info.category) (is_parent info.parent_type "Project") ≡ true =
      lookup-all parent_rule resource_type registry info registry-parent_rule found in
    let kind : is_individual info.category ≡ true = ap is_individual is ∙ individual in
    subst
      (λ (o : Option ResourceTypeInfo).
        (place_info o parent ≡ valid)
        ↔ ((is_parent parent "Project" || is_parent parent "SubSpace") ≡ true))
      (sym found) (place-individual info parent kind (ground arith))
