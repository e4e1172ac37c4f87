-- ===== src/Core/Access/Allowed.antt =====
-- The bindings that the queries of `authorize_casbin` select are those that an actor's access rests
-- on, told without the queries.
use optaic_trading.Prelude.{
  ℕ, ◌≡◌, ◌↔◌, inl, inr, Bool, true, not, ◌&&◌, ◌||◌, Option, none, some, [], ◌∷◌, map, keep, any,
  contains, String, ◌==◌, string_eq, nat_beq, arith, refl, sym, subst, ◌∙◌, Bool-cases,
}
use optaic_trading.Prelude.Dict.{Dict, keys, get, get-some_of_key}
use text.Mathlib.TextEquality.{eq_iff}
use optaic_trading.Core.Access.{
  Resource, RoleBinding, RolePermission, Tables, Enforcer, active_bindings, selected_permissions,
  is_bound, is_global, is_type, is_selected, role_allows, scope_type,
}
use optaic_trading.Core.Access.Granting.{granting, any-keep, any-map, any_more, any_element}

-- A permission of a role for a resource type, in a tenant: one for that type, or one with no type or
-- with "*", which is for all
abbrev pub covers : Option String → Option Resource → Bool
covers none scope = true
covers (some known) none = known == "*"
covers (some known) (some scope) = known == "*" || known == scope.resource_type

abbrev pub permits_role : ℕ → String → String → Option Resource → RolePermission → Bool
permits_role tenant_id perm role scope p =
    nat_beq p.tenant_id tenant_id
    && (p.role_name == role)
    && (p.perm_name == perm)
    && covers p.resource_type scope

-- A binding of the actor in the tenant at a resource of the chain, that is not revoked and whose
-- role has the permission for the type of that resource, or for all types.
abbrev pub allows : Tables → ℕ → ℕ → String → Dict Resource → RoleBinding → Bool
allows tables tenant_id actor perm chain b =
    nat_beq b.tenant_id tenant_id
    && nat_beq b.principal_id actor
    && contains b.scope_resource_id (keys chain)
    && not b.revoked
    && any (permits_role tenant_id perm b.role_name (get b.scope_resource_id chain))
        tables.permissions

scope_type-get :
    (chain : Dict Resource) (id : ℕ) (r : Resource)
    → get id chain ≡ some r
    → scope_type chain id ≡ r.resource_type
scope_type-get chain id r here = rw (here, scope_type) refl

covers-type :
    (known : Option String) (r : Resource)
    → covers known (some r) ≡ (is_global known || is_type known r.resource_type)
covers-type none r = refl
covers-type (some known) r = refl

-- A resource of the chain has one of the types of the chain.
type-in-chain :
    (known : Option String) (chain : Dict Resource) (id : ℕ) (found : Resource)
    → get id chain ≡ some found
    → is_type known found.resource_type ≡ true
    → any (λ (i, r). is_type known r.resource_type) chain ≡ true
type-in-chain known [] id found there is = cc
type-in-chain known ((i, r) ∷ chain) id found there is = elim (Bool-cases (nat_beq id i)) [
  | inl here ↦
      let same : r ≡ found = ground (arith, there, here) in
      let first : is_type known r.resource_type ≡ true = rw same is in ground (arith, first)
  | inr other ↦
      let later : get id chain ≡ some found = ground (arith, there, other) in
      let rest = type-in-chain known chain id found later is in ground (arith, rest)
]

module _ (casbin : Enforcer) (tables : Tables) (tenant_id actor : ℕ) (perm : String) where
  abbrev selects : Dict Resource → RolePermission → Bool
  selects chain p =
      is_selected tenant_id perm
        (map (λ b. b.role_name) (active_bindings casbin tables tenant_id actor perm chain)) chain p

  abbrev names_role : Dict Resource → RoleBinding → RolePermission → Bool
  names_role chain b p =
      (p.role_name == b.role_name)
      && (is_global p.resource_type
          || is_type p.resource_type (scope_type chain b.scope_resource_id))

  -- The role of a binding among those that the query selects
  active-role :
      (chain : Dict Resource) (b : RoleBinding) (role : String)
      → ((q : RoleBinding → Bool) → q b ≡ true → any q tables.bindings ≡ true)
      → is_bound tenant_id actor (keys chain) b ≡ true
      → (b.role_name == role) ≡ true
      → any
          (λ name. name == role)
          (map (λ c. c.role_name) (active_bindings casbin tables tenant_id actor perm chain))
        ≡ true
  unfolding active_bindings
  active-role chain b role among bound named =
      any-map (λ name. name == role) (λ (c : RoleBinding). c.role_name)
        (keep (is_bound tenant_id actor (keys chain)) tables.bindings)
      ∙ any-keep (λ c. c.role_name == role) (is_bound tenant_id actor (keys chain)) tables.bindings
      ∙ among (λ c. is_bound tenant_id actor (keys chain) c && (c.role_name == role))
          (ground (arith, bound, named))

  role_allows-any :
      (chain : Dict Resource) (b : RoleBinding)
      → role_allows
          (selected_permissions casbin tables tenant_id actor perm chain)
          b.role_name
          (scope_type chain b.scope_resource_id)
        ≡ any (λ p. selects chain p && names_role chain b p) tables.permissions
  unfolding selected_permissions
  role_allows-any chain b = any-keep (names_role chain b) (selects chain) tables.permissions

  permits-selects :
      (chain : Dict Resource) (b : RoleBinding) (p : RolePermission)
      → ((q : RoleBinding → Bool) → q b ≡ true → any q tables.bindings ≡ true)
      → is_bound tenant_id actor (keys chain) b ≡ true
      → permits_role tenant_id perm b.role_name (get b.scope_resource_id chain) p ≡ true
      → (selects chain p && names_role chain b p) ≡ true
  permits-selects chain b p among bound permitted =
      let id = b.scope_resource_id in
      let (r, here) = get-some_of_key id chain (ground (arith, bound)) in
      let typed = scope_type-get chain id r here in
      let is : permits_role tenant_id perm b.role_name (some r) p ≡ true =
        subst (λ (o : Option Resource). permits_role tenant_id perm b.role_name o p ≡ true) here
          permitted in
      let covering = covers-type p.resource_type r in
      let named : p.role_name ≡ b.role_name =
        (eq_iff p.role_name b.role_name).0 (ground (arith, is)) in
      let role =
        active-role chain b p.role_name among bound
          ((eq_iff b.role_name p.role_name).1 (sym named)) in
      rw typed (elim (Bool-cases (is_global p.resource_type)) [
        | inl all_types ↦ ground (arith, is, role, all_types)
        | inr one_type ↦
            let of_type : is_type p.resource_type r.resource_type ≡ true =
              ground (arith, is, covering, one_type) in
            let among_chain = type-in-chain p.resource_type chain id r here of_type in
            ground (arith, is, role, of_type, among_chain)
      ])

  selects-permits :
      (chain : Dict Resource) (b : RoleBinding) (p : RolePermission)
      → is_bound tenant_id actor (keys chain) b ≡ true
      → (selects chain p && names_role chain b p) ≡ true
      → permits_role tenant_id perm b.role_name (get b.scope_resource_id chain) p ≡ true
  selects-permits chain b p bound selected =
      let id = b.scope_resource_id in
      let (r, here) = get-some_of_key id chain (ground (arith, bound)) in
      let typed = scope_type-get chain id r here in
      let covering = covers-type p.resource_type r in
      let of_scope : (is_global p.resource_type || is_type p.resource_type (scope_type chain id))
          ≡ true =
        ground (arith, selected) in
      let named : (is_global p.resource_type || is_type p.resource_type r.resource_type) ≡ true =
        subst
          (λ (name : String). (is_global p.resource_type || is_type p.resource_type name) ≡ true)
          typed of_scope in
      rw here (ground (arith, selected, covering, named))

  granting-allows :
      (chain : Dict Resource) (b : RoleBinding)
      → granting casbin tables tenant_id actor perm chain b ≡ true
      → allows tables tenant_id actor perm chain b ≡ true
  granting-allows chain b grants =
      let bound : is_bound tenant_id actor (keys chain) b ≡ true = ground (arith, grants) in
      let role : role_allows (selected_permissions casbin tables tenant_id actor perm chain)
            b.role_name (scope_type chain b.scope_resource_id)
          ≡ true =
        ground (arith, grants) in
      let permitted =
        any_more (λ p. selects chain p && names_role chain b p)
          (permits_role tenant_id perm b.role_name (get b.scope_resource_id chain))
          tables.permissions (λ p. selects-permits chain b p bound)
          (sym (role_allows-any chain b) ∙ role) in
      ground (arith, bound, permitted)

  allows-granting :
      (chain : Dict Resource) (b : RoleBinding)
      → ((q : RoleBinding → Bool) → q b ≡ true → any q tables.bindings ≡ true)
      → allows tables tenant_id actor perm chain b ≡ true
      → granting casbin tables tenant_id actor perm chain b ≡ true
  allows-granting chain b among allowed =
      let bound : is_bound tenant_id actor (keys chain) b ≡ true = ground (arith, allowed) in
      let permitted : any (permits_role tenant_id perm b.role_name (get b.scope_resource_id chain))
            tables.permissions
          ≡ true =
        ground (arith, allowed) in
      let role =
        role_allows-any chain b
        ∙ any_more (permits_role tenant_id perm b.role_name (get b.scope_resource_id chain))
            (λ p. selects chain p && names_role chain b p) tables.permissions
            (λ p. permits-selects chain b p among bound) permitted in
      ground (arith, bound, role)

  -- The code's test finds a binding exactly if one allows the access.
  pub any-granting :
      (chain : Dict Resource)
      → (any (granting casbin tables tenant_id actor perm chain) tables.bindings ≡ true)
        ↔ (any (allows tables tenant_id actor perm chain) tables.bindings ≡ true)
  any-granting chain = (
    any_more (granting casbin tables tenant_id actor perm chain)
        (allows tables tenant_id actor perm chain) tables.bindings (granting-allows chain),
    λ allowed.
        let (b, holds, among) =
          any_element (allows tables tenant_id actor perm chain) tables.bindings allowed in
        among (granting casbin tables tenant_id actor perm chain)
          (allows-granting chain b among holds),
  )
