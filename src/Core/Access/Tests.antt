-- ===== src/Core/Access/Tests.antt =====
-- Access to a dataset in a project, and the theorems about it there.
use optaic_trading.Prelude.{
  ◌≡◌, ◌↔◌, true, false, ◌&&◌, ◌||◌, none, some, [], ◌∷◌, any, nat_beq, string_eq, ◌==◌, refl,
  arith,
}
use optaic_trading.Prelude.Dict.{Dict}
use optaic_trading.Core.Access.{
  Resource, Tables, Enforcer, chain_from, load_policy, active_bindings, selected_permissions,
  allowed_bindings, policy_of, granted, authorize_casbin,
}
use optaic_trading.Core.Access.Granting.{same, up, Matches, role_test}
use optaic_trading.Core.Access.Allowed.{allows}
use optaic_trading.Core.Access.Authorize.{authorize_casbin-granted}

abbrev project : Resource
project = record {
  tenant_id = 9;
  resource_type = "Project";
  parent_id = none;
  breaks_inheritance = false;
}

abbrev dataset : Resource
dataset = record {
  tenant_id = 9;
  resource_type = "DatasetInstance";
  parent_id = some 1;
  breaks_inheritance = false;
}

-- Actor 7 is an editor of project 1, and an editor may read everything.
abbrev tables : Tables
tables = record {
  resources = (1, project) ∷ (2, dataset) ∷ [];
  bindings =
      record {
        tenant_id = 9;
        principal_id = 7;
        scope_resource_id = 1;
        role_name = "editor";
        revoked = false;
      }
      ∷ [];
  permissions =
      record {
        tenant_id = 9;
        role_name = "editor";
        perm_name = "RESOURCE_READ";
        resource_type = some "*";
      }
      ∷ [];
}

-- An enforcer that follows the matcher up to one edge from the object.
abbrev near : Enforcer
near = record {
  enforce = λ policy sub dom obj act.
      any
        (λ rule.
          any (role_test sub rule.role dom) policy.roles
          && nat_beq rule.domain dom
          && (rule.action == act)
          && (nat_beq obj rule.object
              || any (λ e. nat_beq e.0 obj && nat_beq e.1 rule.object) policy.parents))
        policy.rules;
}

abbrev chain : Dict Resource
chain = (2, dataset) ∷ (1, project) ∷ []

chain_found : chain_from tables.resources 3 (2, dataset) ≡ some chain
unfolding chain_from
chain_found = refl

matched : Matches (policy_of near tables 9 7 "RESOURCE_READ" chain) 7 9 2 "RESOURCE_READ"
unfolding policy_of load_policy active_bindings allowed_bindings selected_permissions
matched = record {
  role = "editor";
  object = 1;
  listed = refl;
  member = refl;
  linked = up refl same;
}

enforced :
    near.enforce (policy_of near tables 9 7 "RESOURCE_READ" chain) 7 9 2 "RESOURCE_READ" ≡ true
unfolding policy_of load_policy active_bindings allowed_bindings selected_permissions
enforced = refl

authorize_casbin-granted_example :
    (authorize_casbin near tables 9 7 "RESOURCE_READ" 3 2 ≡ granted)
    ↔ (any (allows tables 9 7 "RESOURCE_READ" chain) tables.bindings ≡ true)
authorize_casbin-granted_example =
    authorize_casbin-granted near tables 9 7 "RESOURCE_READ" 3 2 dataset chain refl refl chain_found
      (omega arith) (λ yes_. matched, λ m. enforced)
