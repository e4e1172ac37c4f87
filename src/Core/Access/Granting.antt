-- ===== src/Core/Access/Granting.antt =====
-- Access is granted exactly where a binding of the actor allows it, with an enforcer that follows
-- the matcher of libs/core/rbac_casbin/model.conf.
use optaic_trading.Prelude.{
  ℕ, zero, suc, ◌≤◌, length, ◌≡◌, inl, inr, Bool, true, ◌&&◌, ◌||◌, List, [], ◌∷◌, map, keep, any,
  contains, String, ◌==◌, ==_self, string_eq, nat_beq, arith, refl, sym, ap, subst, ◌∙◌, Bool-cases,
}
use optaic_trading.Prelude.Dict.{Dict, keys}
use optaic_trading.Core.Access.{
  Resource, RoleBinding, Tables, PolicyRule, Policy, object_edges, role_line, rule_line,
  load_policy, Enforcer, active_bindings, allowed_bindings, selected_permissions, policy_of,
  is_bound, role_allows, scope_type,
}

-- From an object to itself, its parent, and so on, by a number of edges at most.
pub data Linked (edges : List (ℕ × ℕ)) : ℕ → ℕ → ℕ → Type 0 where
  same : {levels a : ℕ} → Linked edges levels a a
  up :
      {levels a b c : ℕ}
      → any (λ e. nat_beq e.0 a && nat_beq e.1 b) edges ≡ true
      → Linked edges levels b c
      → Linked edges (suc levels) a c

-- A role manager of casbin follows 10 links: it is made with this max_hierarchy_level.
abbrev pub max_levels : ℕ
max_levels = 10

abbrev pub rule_test : String → ℕ → ℕ → String → PolicyRule → Bool
rule_test role dom obj act rule =
    (rule.role == role)
    && nat_beq rule.domain dom
    && nat_beq rule.object obj
    && (rule.action == act)

abbrev pub role_test : ℕ → String → ℕ → ℕ × String × ℕ → Bool
role_test sub role dom (s, r, d) = nat_beq s sub && (r == role) && nat_beq d dom

-- The matcher of model.conf for a request: a rule of a role of the subject, for the domain and the
-- action, on the object or on one that it is linked to by as many levels as casbin follows.
pub record Matches (policy : Policy) (sub dom obj : ℕ) (act : String) : Type 0 where
  pub role : String
  pub object : ℕ
  pub listed : any (rule_test role dom object act) policy.rules ≡ true
  pub member : any (role_test sub role dom) policy.roles ≡ true
  pub linked : Linked policy.parents max_levels obj object

Linked-more :
    (e : ℕ × ℕ) (edges : List (ℕ × ℕ)) {levels a b : ℕ}
    → Linked edges levels a b
    → Linked (e ∷ edges) levels a b
Linked-more e edges same = same
Linked-more e edges (up h l) = up (ground arith) (Linked-more e edges l)

-- The first object of the edges is linked to each that the chain holds.
chain-Linked :
    (levels id : ℕ) (ids : List ℕ) (scope : ℕ)
    → length ids ≤ levels
    → contains scope (id ∷ ids) ≡ true
    → Linked (object_edges (id ∷ ids)) levels id scope
chain-Linked levels id [] scope fits m =
    let is_first : id ≡ scope = ground arith in subst (λ s. Linked [] levels id s) is_first same
chain-Linked zero id (parent ∷ ids) scope fits m = absurd (omega arith)
chain-Linked (suc levels) id (parent ∷ ids) scope fits m = elim (Bool-cases (nat_beq scope id)) [
  | inl first ↦
      let is_first : id ≡ scope = ground arith in
      subst (λ s. Linked (object_edges (id ∷ parent ∷ ids)) (suc levels) id s) is_first same
  | inr later ↦ up (ground arith) (
      Linked-more (id, parent) (object_edges (parent ∷ ids))
        (chain-Linked levels parent ids scope (omega arith) (ground arith)))
]

pub any-keep {ℓ} :
    {A : Type ℓ} (p q : A → Bool) (xs : List A) → any p (keep q xs) ≡ any (λ x. q x && p x) xs
any-keep p q [] = refl
any-keep p q (x ∷ xs) = elim (Bool-cases (q x)) [
  | inl kept ↦ rw kept (ap (λ b. p x || b) (any-keep p q xs))
  | inr dropped ↦ rw dropped (any-keep p q xs)
]

pub any-map {ℓ κ} :
    {A : Type ℓ} {B : Type κ} (p : B → Bool) (f : A → B) (xs : List A)
    → any p (map f xs) ≡ any (λ x. p (f x)) xs
any-map p f [] = refl
any-map p f (x ∷ xs) = ap (λ b. p (f x) || b) (any-map p f xs)

pub any_more {ℓ} :
    {A : Type ℓ} (p q : A → Bool) (xs : List A)
    → ((x : A) → p x ≡ true → q x ≡ true)
    → any p xs ≡ true
    → any q xs ≡ true
any_more p q [] more h = h
any_more p q (x ∷ xs) more h = elim (Bool-cases (p x)) [
  | inl first ↦ rw (more x first) refl
  | inr later ↦ let rest : any q xs ≡ true = any_more p q xs more (ground arith) in ground arith
]

and_left : (a b c : Bool) → (a && (b && c)) ≡ true → (a && b) ≡ true
and_left a b c h = ground arith

and_first : (a b : Bool) → (a && b) ≡ true → a ≡ true
and_first a b h = ground arith

and_second : (a b : Bool) → (a && b) ≡ true → b ≡ true
and_second a b h = ground arith

-- An element that satisfies a test, and so makes each test that it satisfies hold of the list.
pub any_element {ℓ} :
    {A : Type ℓ} (p : A → Bool) (xs : List A)
    → any p xs ≡ true
    → (x : A) × (p x ≡ true) × ((q : A → Bool) → q x ≡ true → any q xs ≡ true)
any_element p [] h = cc
any_element p (x ∷ xs) h = elim (Bool-cases (p x)) [
  | inl first ↦ (x, first, λ q e. rw e refl)
  | inr later ↦
      let (y, holds, rest) = any_element p xs (ground arith) in
      (y, holds, λ q e. let found : any q xs ≡ true = rest q e in ground arith)
]

module _ (casbin : Enforcer) (tables : Tables) (tenant_id actor : ℕ) (perm : String) where
  abbrev bound : Dict Resource → RoleBinding → Bool
  bound chain b = is_bound tenant_id actor (keys chain) b

  abbrev permits : Dict Resource → RoleBinding → Bool
  permits chain b =
      role_allows (selected_permissions casbin tables tenant_id actor perm chain) b.role_name
        (scope_type chain b.scope_resource_id)

  -- The test of the code: a bound binding whose role is among the permissions that it selects
  abbrev pub granting : Dict Resource → RoleBinding → Bool
  granting chain b =
      is_bound tenant_id actor (keys chain) b
      && role_allows (selected_permissions casbin tables tenant_id actor perm chain) b.role_name
          (scope_type chain b.scope_resource_id)

  any-allowed :
      (chain : Dict Resource) (p : RoleBinding → Bool)
      → any p (allowed_bindings casbin tables tenant_id actor perm chain)
        ≡ any (λ b. bound chain b && (permits chain b && p b)) tables.bindings
  unfolding allowed_bindings active_bindings
  any-allowed chain p =
      any-keep p (permits chain) (keep (bound chain) tables.bindings)
      ∙ any-keep (λ b. permits chain b && p b) (bound chain) tables.bindings

  pub Matches-granting :
      (chain : Dict Resource) (resource_id : ℕ)
      → Matches
          (policy_of casbin tables tenant_id actor perm chain)
          actor
          tenant_id
          resource_id
          perm
      → any (granting chain) tables.bindings ≡ true
  unfolding policy_of load_policy
  Matches-granting chain resource_id found =
      let test = rule_test found.role tenant_id found.object perm in
      let line = rule_line tenant_id perm in
      any_more (λ b. bound chain b && (permits chain b && test (line b))) (granting chain)
        tables.bindings (λ b h. and_left (bound chain b) (permits chain b) (test (line b)) h)
        (sym (any-allowed chain (λ b. test (line b)))
          ∙ sym (any-map test line (allowed_bindings casbin tables tenant_id actor perm chain))
          ∙ found.listed)

  pub granting-Matches :
      (chain : Dict Resource) (resource_id : ℕ) (above : List ℕ)
      → keys chain ≡ resource_id ∷ above
      → length above ≤ 10
      → any (granting chain) tables.bindings ≡ true
      → Matches
          (policy_of casbin tables tenant_id actor perm chain)
          actor
          tenant_id
          resource_id
          perm
  unfolding policy_of load_policy active_bindings
  granting-Matches chain resource_id above starts fits allowed =
      let (b, holds, among) = any_element (granting chain) tables.bindings allowed in
      let is_bound_ : bound chain b ≡ true = and_first (bound chain b) (permits chain b) holds in
      let permitted : permits chain b ≡ true = and_second (bound chain b) (permits chain b) holds in
      let test = rule_test b.role_name tenant_id b.scope_resource_id perm in
      let line = rule_line tenant_id perm in
      let member = role_test actor b.role_name tenant_id in
      record {
        role = b.role_name;
        object = b.scope_resource_id;
        listed =
            any-map test line (allowed_bindings casbin tables tenant_id actor perm chain)
            ∙ any-allowed chain (λ c. test (line c))
            ∙ among (λ c. bound chain c && (permits chain c && test (line c)))
                (rw (is_bound_, permitted) (ground (arith, ==_self b.role_name, ==_self perm)));
        member =
            any-map member (role_line tenant_id) (keep (bound chain) tables.bindings)
            ∙ any-keep (λ c. member (role_line tenant_id c)) (bound chain) tables.bindings
            ∙ among (λ c. bound chain c && member (role_line tenant_id c))
                (ground (arith, is_bound_, ==_self b.role_name));
        linked =
            subst (λ (ids : List ℕ). Linked (object_edges ids) 10 resource_id b.scope_resource_id)
              (sym starts)
              (chain-Linked 10 resource_id above b.scope_resource_id fits
                (ap (contains b.scope_resource_id) (sym starts) ∙ ground (arith, is_bound_)));
      }
