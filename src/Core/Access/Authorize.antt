-- ===== src/Core/Access/Authorize.antt =====
-- The chain of scopes ends where the parents do not run in a circle, and the decision on it.
use optaic_trading.Prelude.{
  ℕ, zero, suc, ◌<◌, ◌≤◌, length, ◌≡◌, ◌↔◌, inl, inr, Bool, true, false, Option, none, some, List,
  [], ◌∷◌, any, String, nat_beq, if◌then◌else◌, arith, refl, sym, ap, ◌∙◌, Option-cases,
}
use optaic_trading.Prelude.Dict.{Dict, keys, get}
use optaic_trading.Core.Access.{
  Resource, Tables, Enforcer, parent_of, onto, climb, chain_from, policy_of, granted,
  binding_not_found, decide, authorize_found, authorize_casbin,
}
use optaic_trading.Core.Access.Granting.{Matches, Matches-granting, granting-Matches}
use optaic_trading.Core.Access.Allowed.{allows, any-granting}

abbrev keys_or_none : Option (Dict Resource) → List ℕ
keys_or_none none = []
keys_or_none (some chain) = keys chain

onto-starts :
    (entry : ℕ × Resource) (rest : Option (Dict Resource)) (chain : Dict Resource)
    → onto entry rest ≡ some chain
    → (above : List ℕ) × (keys chain ≡ entry.0 ∷ above)
onto-starts entry none chain h = cc
onto-starts entry (some rest) chain h = (keys rest, ap keys_or_none (sym h))

climb-starts :
    (above : ℕ × Resource → Option (Dict Resource)) (entry : ℕ × Resource)
    (parent : Option (ℕ × Resource)) (chain : Dict Resource)
    → climb above entry parent ≡ some chain
    → (ids : List ℕ) × (keys chain ≡ entry.0 ∷ ids)
climb-starts above entry none chain h = ([], ap keys_or_none (sym h))
climb-starts above entry (some parent) chain h = onto-starts entry (above parent) chain h

chain_from-starts :
    (resources : Dict Resource) (fuel id : ℕ) (resource : Resource) (chain : Dict Resource)
    → chain_from resources fuel (id, resource) ≡ some chain
    → (ids : List ℕ) × (keys chain ≡ id ∷ ids)
unfolding chain_from
chain_from-starts resources zero id resource chain h = cc
chain_from-starts resources (suc fuel) id resource chain h =
    climb-starts (chain_from resources fuel) (id, resource) (parent_of resources resource) chain h

parent_of-known :
    (resources : Dict Resource) (resource : Resource) (p : ℕ) (parent : Resource)
    → parent_of resources resource ≡ some (p, parent)
    → get p resources ≡ some parent
parent_of-known resources resource p parent h = ground arith

-- If the parents descend in some rank, the loop over them ends: fuel above the rank of the resource
-- gives its chain.
pub chain_from_total :
    (resources : Dict Resource) (rank : ℕ → ℕ) (fuel id : ℕ) (resource : Resource)
    → ((i p : ℕ) (child parent : Resource)
        → get i resources ≡ some child
        → parent_of resources child ≡ some (p, parent)
        → rank p < rank i)
    → get id resources ≡ some resource
    → rank id < fuel
    → (chain : Dict Resource) × (chain_from resources fuel (id, resource) ≡ some chain)
unfolding chain_from
chain_from_total resources rank zero id resource descends known enough = absurd (omega arith)
chain_from_total resources rank (suc fuel) id resource descends known enough =
    elim (Option-cases (parent_of resources resource)) [
      | inl top ↦ ((id, resource) ∷ [], ap (climb (chain_from resources fuel) (id, resource)) top)
      | inr ((p, parent), e) ↦
          let (rest, went) =
            chain_from_total resources rank fuel p parent descends
              (parent_of-known resources resource p parent e)
              (let lower = descends id p resource parent known e in omega arith) in
          (
            (id, resource) ∷ rest,
            ap (climb (chain_from resources fuel) (id, resource)) e ∙ ap (onto (id, resource)) went,
          )
    ]

length-keys : (chain : Dict Resource) → length (keys chain) ≡ length chain
length-keys [] = refl
length-keys (entry ∷ chain) = ap suc (length-keys chain)

length-above :
    (chain : Dict Resource) (id : ℕ) (above : List ℕ)
    → keys chain ≡ id ∷ above
    → length chain ≤ 11
    → length above ≤ 10
length-above chain id above starts near =
    let whole = sym (length-keys chain) ∙ ap length starts in omega (arith, whole, near)

granted_only : (b : Bool) → (if b then granted else binding_not_found) ≡ granted → b ≡ true
granted_only true h = refl
granted_only false h = ground arith

-- For a resource of the tenant with its chain of at most 11 resources, and an enforcer that answers
-- by the matcher of model.conf on the policy of this request: access is granted exactly if some
-- binding of the actor in the tenant at a resource of the chain, which is not revoked, has a role
-- with the permission for the type of that resource or for all types.
pub authorize_casbin-granted :
    (casbin : Enforcer) (tables : Tables) (tenant_id actor : ℕ) (perm : String)
    (fuel resource_id : ℕ) (resource : Resource) (chain : Dict Resource)
    → get resource_id tables.resources ≡ some resource
    → nat_beq resource.tenant_id tenant_id ≡ true
    → chain_from tables.resources fuel (resource_id, resource) ≡ some chain
    → length chain ≤ 11
    → ((casbin.enforce
            (policy_of casbin tables tenant_id actor perm chain)
            actor
            tenant_id
            resource_id
            perm
          ≡ true)
        ↔ Matches
            (policy_of casbin tables tenant_id actor perm chain)
            actor
            tenant_id
            resource_id
            perm)
    → (authorize_casbin casbin tables tenant_id actor perm fuel resource_id ≡ granted)
      ↔ (any (allows tables tenant_id actor perm chain) tables.bindings ≡ true)
unfolding authorize_casbin authorize_found decide
authorize_casbin-granted casbin tables tenant_id actor perm fuel resource_id resource chain known
      own linked near (sound, complete) =
    let (ids, starts) = chain_from-starts tables.resources fuel resource_id resource chain linked in
    let result : authorize_casbin casbin tables tenant_id actor perm fuel resource_id
        ≡ decide casbin tables tenant_id actor perm resource_id (some chain) =
      ap (authorize_found casbin tables tenant_id actor perm fuel resource_id) known
      ∙ rw own (ap (decide casbin tables tenant_id actor perm resource_id) linked) in
    (
      λ h. (any-granting casbin tables tenant_id actor perm chain).0 (
          Matches-granting casbin tables tenant_id actor perm chain resource_id
            (sound (granted_only _ (sym result ∙ h)))),
      λ allowed.
          result
          ∙ rw
              (complete (
                granting-Matches casbin tables tenant_id actor perm chain resource_id ids starts
                  (length-above chain resource_id ids starts near)
                  ((any-granting casbin tables tenant_id actor perm chain).1 allowed)))
              refl,
    )
