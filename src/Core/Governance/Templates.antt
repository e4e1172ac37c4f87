-- ===== src/Core/Governance/Templates.antt =====
-- `GovernanceService`: the RBAC templates, and what applying one does to the bindings of a resource.
-- The session does not flush before a query: the queries of one call all read the bindings that
-- were there before it.
use optaic_trading.Prelude.{
  ℕ, Bool, true, false, not, ◌&&◌, Option, none, some, List, [], ◌∷◌, ◌++◌, keep, String, ◌==◌,
  string_eq, nat_beq, if◌then◌else◌, ok, ◌>>=◌,
}
use optaic_trading.Core.Access.{RoleBinding}
use optaic_trading.Core.Governance.{
  Store, ActorContext, Call, one_or_none, binding_of, is_active_binding, revoke,
}

-- An entry of "bindings" or of "revocations" in a policy
pub record BindingSpec : Type 0 where
  pub principal : Option String
  pub role : Option String

pub record RbacPolicy : Type 0 where
  pub bindings : List BindingSpec
  pub revocations : List BindingSpec

pub record RbacTemplate : Type 0 where
  pub tenant_id : ℕ
  pub name : String
  pub policy : RbacPolicy

abbrev pub is_template : ℕ → String → RbacTemplate → Bool
is_template tenant_id name template =
    nat_beq template.tenant_id tenant_id && (template.name == name)

unfoldable pub get_rbac_template :
    Store → ℕ → String → List RbacTemplate → Call (Option RbacTemplate)
get_rbac_template store tenant_id name templates =
    one_or_none store (keep (is_template tenant_id name) templates)

-- The template is added to the session; its flush is the caller's.
unfoldable pub create_rbac_template :
    ActorContext → String → RbacPolicy → List RbacTemplate → List RbacTemplate
create_rbac_template actor name policy templates =
    templates ++ record { tenant_id = actor.tenant_id; name = name; policy = policy } ∷ []

-- The variables of a template: actor_id, source_owner_id and so on
abbrev pub Context : Type 0
Context = List (String × ℕ)

abbrev pub resolve : String → Context → Option ℕ
resolve variable [] = none
resolve variable ((name, id) ∷ context) =
    if variable == name then some id else resolve variable context

-- A value that is neither missing nor empty
abbrev pub given : Option String → Option String
given none = none
given (some text) = if text == "" then none else some text

-- context.get(principal_var), where the variable is given
abbrev pub principal_of : Context → Option String → Option ℕ
principal_of context none = none
principal_of context (some variable) = resolve variable context

abbrev pub both : Option ℕ → Option String → Option (ℕ × String)
both none role = none
both (some id) none = none
both (some id) (some role) = some (id, role)

-- The principal and the role of an entry, if neither is skipped
abbrev pub resolved : Context → BindingSpec → Option (ℕ × String)
resolved context spec = both (principal_of context (given spec.principal)) (given spec.role)

abbrev pub unless_bound : RoleBinding → Option RoleBinding → List RoleBinding
unless_bound binding none = binding ∷ []
unless_bound binding (some existing) = []

-- The bindings that an entry creates: none where one exists
abbrev pub create_binding : Store → ℕ → ℕ → Option (ℕ × String) → Call (List RoleBinding)
create_binding store tenant_id resource_id none = ok []
create_binding store tenant_id resource_id (some (id, role)) = do
  existing ←
      one_or_none store (keep (is_active_binding tenant_id id resource_id role) store.bindings)
  ok (
      unless_bound (binding_of (record { id = id; tenant_id = tenant_id }) id resource_id role)
        existing)

unfoldable pub create_bindings :
    Store → ℕ → ℕ → Context → List BindingSpec → Call (List RoleBinding)
create_bindings store tenant_id resource_id context [] = ok []
create_bindings store tenant_id resource_id context (spec ∷ specs) = do
  created ← create_binding store tenant_id resource_id (resolved context spec)
  rest ← create_bindings store tenant_id resource_id context specs
  ok (created ++ rest)

abbrev pub is_role : Option String → RoleBinding → Bool
is_role none b = true
is_role (some role) b = b.role_name == role

-- The bindings that an entry revokes; without a role, all those of the principal
abbrev pub is_revoked_by : ℕ → ℕ → Option ℕ → Option String → RoleBinding → Bool
is_revoked_by tenant_id resource_id none role b = false
is_revoked_by tenant_id resource_id (some id) role b =
    nat_beq b.tenant_id tenant_id
    && nat_beq b.principal_id id
    && nat_beq b.scope_resource_id resource_id
    && not b.revoked
    && is_role role b

unfoldable pub revoke_bindings :
    ℕ → ℕ → Context → List BindingSpec → List RoleBinding → List RoleBinding
revoke_bindings tenant_id resource_id context [] bindings = bindings
revoke_bindings tenant_id resource_id context (spec ∷ specs) bindings =
    revoke_bindings tenant_id resource_id context specs (
      revoke
        (is_revoked_by tenant_id resource_id (principal_of context (given spec.principal))
          (given spec.role))
        bindings)

-- The created bindings, and the session
unfoldable pub apply_rbac_template :
    ℕ → ℕ → RbacPolicy → Context → Store → Call (List RoleBinding × Store)
apply_rbac_template tenant_id resource_id policy context store = do
  created ← create_bindings store tenant_id resource_id context policy.bindings
  let kept = revoke_bindings tenant_id resource_id context policy.revocations store.bindings
  ok (created, record store { bindings = kept ++ created })
