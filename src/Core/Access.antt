-- ===== src/Core/Access.antt =====
-- `authorize_casbin` (libs/core/rbac_casbin/engine.py) and its adapter (adapter.py): who may do what
-- on a resource, by role bindings at the resource or at one that it inherits from. The casbin
-- enforcer is a parameter. A query's order, where the source gives one, is that of the table.
pub mod Granting
pub mod Authorize
pub mod Allowed
pub mod Tests
use optaic_trading.Prelude.{
  ℕ, zero, suc, ◌≡◌, ◌↔◌, Bool, true, false, not, ◌&&◌, ◌||◌, Option, none, some, List, [], ◌∷◌,
  ◌++◌, map, keep, any, contains, String, ◌==◌, string_eq, nat_beq, if◌then◌else◌,
}
use optaic_trading.Prelude.Dict.{Dict, keys, get}

pub record Resource : Type 0 where
  pub tenant_id : ℕ
  pub resource_type : String
  pub parent_id : Option ℕ
  pub breaks_inheritance : Bool

pub record RoleBinding : Type 0 where
  pub tenant_id : ℕ
  pub principal_id : ℕ
  pub scope_resource_id : ℕ
  pub role_name : String
  pub revoked : Bool

pub record RolePermission : Type 0 where
  pub tenant_id : ℕ
  pub role_name : String
  pub perm_name : String
  pub resource_type : Option String

pub record Tables : Type 0 where
  pub resources : Dict Resource
  pub bindings : List RoleBinding
  pub permissions : List RolePermission

-- The parent that the loop goes on with, if any
abbrev pub parent_of : Dict Resource → Resource → Option (ℕ × Resource)
parent_of resources resource =
    if resource.breaks_inheritance then none else elim resource.parent_id [
      | none ↦ none
      | some id ↦ elim (get id resources) [ none ↦ none | some parent ↦ some (id, parent) ]
    ]

abbrev pub onto : ℕ × Resource → Option (Dict Resource) → Option (Dict Resource)
onto entry none = none
onto entry (some rest) = some (entry ∷ rest)

abbrev pub climb :
    (ℕ × Resource → Option (Dict Resource))
    → ℕ × Resource
    → Option (ℕ × Resource)
    → Option (Dict Resource)
climb above entry none = some (entry ∷ [])
climb above entry (some parent) = onto entry (above parent)

-- The chain of a resource, its parent and so on; none where the fuel runs out.
unfoldable pub chain_from : Dict Resource → ℕ → ℕ × Resource → Option (Dict Resource)
chain_from resources zero current = none
chain_from resources (suc fuel) (id, resource) =
    climb (chain_from resources fuel) (id, resource) (parent_of resources resource)

-- The condition on a binding of the actor at a scope of the chain
abbrev pub is_bound : ℕ → ℕ → List ℕ → RoleBinding → Bool
is_bound tenant_id actor scope_ids b =
    nat_beq b.tenant_id tenant_id
    && nat_beq b.principal_id actor
    && contains b.scope_resource_id scope_ids
    && not b.revoked

-- A resource type of a permission that stands for every type: "*" or NULL
abbrev pub is_global : Option String → Bool
is_global none = true
is_global (some name) = name == "*"

abbrev pub is_type : Option String → String → Bool
is_type none name = false
is_type (some known) name = known == name

-- The condition on a permission that the query selects
abbrev pub is_selected : ℕ → String → List String → Dict Resource → RolePermission → Bool
is_selected tenant_id perm role_names chain p =
    nat_beq p.tenant_id tenant_id
    && any (λ role. role == p.role_name) role_names
    && (p.perm_name == perm)
    && (is_global p.resource_type || any (λ (id, r). is_type p.resource_type r.resource_type) chain)

-- `_role_allows`, on the selected permissions
abbrev pub role_allows : List RolePermission → String → String → Bool
role_allows selected role_name scope_type =
    any
      (λ p.
        (p.role_name == role_name)
        && (is_global p.resource_type || is_type p.resource_type scope_type))
      selected

-- The type of a scope, which is cached with the chain
abbrev pub scope_type : Dict Resource → ℕ → String
scope_type chain id = elim (get id chain) [ none ↦ "" | some resource ↦ resource.resource_type ]

pub record PolicyRule : Type 0 where
  pub role : String
  pub domain : ℕ
  pub object : ℕ
  pub action : String

-- What the adapter loads: roles of subjects in domains, rules, and the edges from object to parent.
pub record Policy : Type 0 where
  pub roles : List (ℕ × String × ℕ)
  pub rules : List PolicyRule
  pub parents : List (ℕ × ℕ)

abbrev pub object_edges : List ℕ → List (ℕ × ℕ)
object_edges [] = []
object_edges (child ∷ []) = []
object_edges (child ∷ parent ∷ ids) = (child, parent) ∷ object_edges (parent ∷ ids)

-- The lines "g, …" and "p, …" for a binding
abbrev pub role_line : ℕ → RoleBinding → ℕ × String × ℕ
role_line tenant_id b = (b.principal_id, b.role_name, tenant_id)

abbrev pub rule_line : ℕ → String → RoleBinding → PolicyRule
rule_line tenant_id perm b = record {
  role = b.role_name;
  domain = tenant_id;
  object = b.scope_resource_id;
  action = perm;
}

-- `CasbinAdapter.load_policy`
unfoldable pub load_policy :
    List RoleBinding → List RoleBinding → ℕ → String → List (ℕ × ℕ) → Policy
load_policy bindings allowed tenant_id perm edges = record {
  roles = map (role_line tenant_id) bindings;
  rules = map (rule_line tenant_id perm) allowed;
  parents = edges;
}

-- `enforcer.enforce(sub, dom, obj, act)` for a loaded policy
pub record Enforcer : Type 0 where
  pub enforce : Policy → ℕ → ℕ → ℕ → String → Bool

pub data Decision : Type 0 where
  resource_not_found tenant_mismatch binding_not_found granted out_of_fuel : Decision

module _ (casbin : Enforcer) (tables : Tables) (tenant_id actor : ℕ) (perm : String) where
  unfoldable pub active_bindings : Dict Resource → List RoleBinding
  active_bindings chain = keep (is_bound tenant_id actor (keys chain)) tables.bindings

  unfoldable pub selected_permissions : Dict Resource → List RolePermission
  selected_permissions chain =
      keep (is_selected tenant_id perm (map (λ b. b.role_name) (active_bindings chain)) chain)
        tables.permissions

  unfoldable pub allowed_bindings : Dict Resource → List RoleBinding
  allowed_bindings chain =
      keep
        (λ b.
          role_allows (selected_permissions chain) b.role_name
            (scope_type chain b.scope_resource_id))
        (active_bindings chain)

  unfoldable pub policy_of : Dict Resource → Policy
  policy_of chain =
      load_policy (active_bindings chain) (allowed_bindings chain) tenant_id perm
        (object_edges (keys chain))

  unfoldable pub decide : ℕ → Option (Dict Resource) → Decision
  decide resource_id none = out_of_fuel
  decide resource_id (some chain) =
      if casbin.enforce (policy_of chain) actor tenant_id resource_id perm
      then granted
      else binding_not_found

  -- Behind the lookup of the resource
  unfoldable pub authorize_found : ℕ → ℕ → Option Resource → Decision
  authorize_found fuel resource_id none = resource_not_found
  authorize_found fuel resource_id (some resource) =
      if nat_beq resource.tenant_id tenant_id
      then decide resource_id (chain_from tables.resources fuel (resource_id, resource))
      else tenant_mismatch

  unfoldable pub authorize_casbin : ℕ → ℕ → Decision
  authorize_casbin fuel resource_id =
      authorize_found fuel resource_id (get resource_id tables.resources)
