-- ===== src/Core/Governance/History.antt =====
-- `GovernanceService.get_resource_lineage`: the resources that edges lead to, upstream or downstream,
-- by a breadth-first search that ends at a depth. The order in which the database returns edges is
-- a parameter. An absent filter on edge types is the empty list, which the source treats alike.
pub mod Depths
pub mod Visits
pub mod Loop
pub mod Ends
pub mod Nearest
pub mod Tests
use optaic_trading.Prelude.{
  ℕ, zero, suc, ◌≡◌, Bool, true, false, not, ◌&&◌, ◌||◌, Option, none, some, List, [], ◌∷◌, ◌++◌,
  map, keep, any, contains, length, ltb, String, ◌==◌, string_eq, nat_beq, if◌then◌else◌,
}
use optaic_trading.Prelude.Dict.{Dict, get}
use optaic_trading.Database.{Arrangement}
use optaic_trading.Core.Governance.{Resource, ResourceEdge, ActorContext}

pub record LineageEntry : Type 0 where
  pub id : ℕ
  pub name : String
  pub resource_type : String
  pub depth : ℕ

abbrev pub near_end : String → ResourceEdge → ℕ
near_end direction e = if direction == "upstream" then e.src_resource_id else e.dst_resource_id

abbrev pub far_end : String → ResourceEdge → ℕ
far_end direction e = if direction == "upstream" then e.dst_resource_id else e.src_resource_id

-- query.where(ResourceEdge.edge_type.in_(edge_types)), if there are any
abbrev pub is_of_types : List String → ResourceEdge → Bool
is_of_types [] e = true
is_of_types (edge_type ∷ edge_types) e = any (λ t. t == e.edge_type) (edge_type ∷ edge_types)

abbrev pub is_followed : ActorContext → String → List String → ℕ → ResourceEdge → Bool
is_followed actor direction edge_types current e =
    nat_beq e.tenant_id actor.tenant_id
    && nat_beq (near_end direction e) current
    && is_of_types edge_types e

-- The identifiers that the edges of a query lead to
unfoldable pub next_ids :
    Arrangement ResourceEdge → ActorContext → String → List String → List ResourceEdge → ℕ → List ℕ
next_ids db actor direction edge_types edges current =
    map (far_end direction)
      (db.arrange (keep (is_followed actor direction edge_types current) edges))

-- The entry of a resource of the actor's tenant
abbrev pub lineage_entry : ActorContext → ℕ → ℕ → Option Resource → List LineageEntry
lineage_entry actor id depth none = []
lineage_entry actor id depth (some r) =
    if nat_beq r.tenant_id actor.tenant_id
    then record { id = id; name = r.name; resource_type = r.resource_type; depth = depth } ∷ []
    else []

-- The entries for a resource that is visited: none for the one that the search starts at
abbrev pub entries_at : ActorContext → Dict Resource → ℕ → ℕ → ℕ → List LineageEntry
entries_at actor resources root current depth =
    if nat_beq current root then [] else lineage_entry actor current depth (get current resources)

-- to_visit.append((next_id, depth + 1)), for those that are not visited
abbrev pub unvisited : List ℕ → ℕ → List ℕ → List (ℕ × ℕ)
unvisited visited depth ids = map (λ v. (v, depth)) (keep (λ v. not (contains v visited)) ids)

-- The `while` loop; `none` means that the fuel ran out.
unfoldable pub walk :
    (ℕ → List ℕ)
    → (ℕ → ℕ → List LineageEntry)
    → ℕ
    → ℕ
    → List ℕ
    → List (ℕ × ℕ)
    → List LineageEntry
    → Option (List LineageEntry)
walk next entries max_depth fuel visited [] lineage = some lineage
walk next entries max_depth zero visited ((current, depth) ∷ to_visit) lineage = none
walk next entries max_depth (suc fuel) visited ((current, depth) ∷ to_visit) lineage =
    elim (contains current visited || ltb max_depth depth) [
      | true ↦ walk next entries max_depth fuel visited to_visit lineage
      | false ↦
          walk next entries max_depth fuel (current ∷ visited)
            (to_visit ++ unvisited (current ∷ visited) (suc depth) (next current))
            (lineage ++ entries current depth)
    ]

-- A round takes one entry off the queue, and each edge puts at most one entry on it.
unfoldable pub get_resource_lineage :
    Arrangement ResourceEdge
    → Dict Resource
    → List ResourceEdge
    → ActorContext
    → ℕ
    → String
    → List String
    → ℕ
    → Option (List LineageEntry)
unfolding walk
get_resource_lineage db resources edges actor resource_id direction edge_types max_depth =
    walk (next_ids db actor direction edge_types edges) (entries_at actor resources resource_id)
      max_depth (suc (length edges)) [] ((resource_id, 0) ∷ []) []
