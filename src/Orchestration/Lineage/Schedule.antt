-- ===== src/Orchestration/Lineage/Schedule.antt =====
-- `get_execution_order` of libs/orchestration/lineage.py: the dictionary of dependencies and
-- Kahn's algorithm with batches, step by step, each exception a value.
pub mod Layers
mod Counts
mod Steps
mod Valid
mod Graph
pub mod Correct
pub mod Tests
use optaic_trading.Prelude.{
  ℕ, zero, suc, ◌+◌, ◌≡◌, Bool, true, false, not, List, [], ◌∷◌, ◌++◌, map, keep, contains, length,
  Option, none, some, if◌then◌else◌, nat_beq, Result, ok, err, ◌>>=◌,
}
use optaic_trading.Prelude.Dict.{Dict, keys, get, put, adjust, delete}
use optaic_trading.Database.{Arrangement}
use optaic_trading.Orchestration.Lineage.Table.{LineageRow}
use optaic_trading.Orchestration.Lineage.Traversal.{resolve_upstream_dependencies}

-- Why no order is returned: the ValueError of the code; a KeyError of `del` or of `-=`; a degree
-- that would fall below 0; and the fuel of this model.
pub data Fault : Type 0 where
  cycle_detected key_error negative_degree out_of_fuel : Fault

abbrev pub Outcome {ℓ} : Type ℓ → Type ℓ
Outcome = Result Fault

-- `s.add(x)`
abbrev pub add : ℕ → List ℕ → List ℕ
add x s = if contains x s then s else s ++ x ∷ []

-- {r: set() for r in all_resources}
pub blank_from : Dict (List ℕ) → List ℕ → Dict (List ℕ)
blank_from d [] = d
blank_from d (r ∷ rs) = blank_from (put r [] d) rs

-- for upstream, downstream in edges: if downstream in dependencies: dependencies[downstream].add(…)
pub add_edges : Dict (List ℕ) → List LineageRow → Dict (List ℕ)
add_edges d [] = d
add_edges d (row ∷ rows) =
    add_edges
      (if contains row.downstream_resource_id (keys d)
        then adjust row.downstream_resource_id (add row.upstream_resource_id) d
        else d)
      rows

-- select(upstream, downstream).where(downstream.in_(all_resources))
pub select_edges : Arrangement LineageRow → List LineageRow → List ℕ → List LineageRow
select_edges db rows resources =
    db.arrange (keep (λ row. contains row.downstream_resource_id resources) rows)

pub build_dependencies : Arrangement LineageRow → List LineageRow → List ℕ → Dict (List ℕ)
unfolding blank_from add_edges select_edges
build_dependencies db rows resources =
    add_edges (blank_from [] resources) (select_edges db rows resources)

-- {r: len(deps) for r, deps in dependencies.items()}
pub initial_degrees : Dict (List ℕ) → Dict ℕ
initial_degrees [] = []
initial_degrees ((r, deps) ∷ d) = (r, length deps) ∷ initial_degrees d

-- [r for r, deg in in_degree.items() if deg == 0]
pub ready : Dict ℕ → List ℕ
ready [] = []
ready ((r, zero) ∷ d) = r ∷ ready d
ready ((r, suc n) ∷ d) = ready d

-- in_degree[other] -= 1
pub decrement : ℕ → Dict ℕ → Outcome (Dict ℕ)
decrement other in_degree = elim (get other in_degree) [
  | none ↦ err key_error
  | some zero ↦ err negative_degree
  | some (suc n) ↦ ok (adjust other (λ _. n) in_degree)
]

-- for other, deps in dependencies.items(): if r in deps: in_degree[other] -= 1
pub release : ℕ → Dict (List ℕ) → Dict ℕ → Outcome (Dict ℕ)
unfolding decrement
release r [] in_degree = ok in_degree
release r ((other, deps) ∷ dependencies) in_degree =
    (if contains r deps then decrement other in_degree else ok in_degree) >>= λ next.
    release r dependencies next

-- del in_degree[r], and then the loop over the dependents
pub retire : ℕ → Dict (List ℕ) → Dict ℕ → Outcome (Dict ℕ)
unfolding release
retire r dependencies in_degree =
    if contains r (keys in_degree)
    then release r dependencies (delete r in_degree)
    else err key_error

-- for r in batch
pub retire_all : List ℕ → Dict (List ℕ) → Dict ℕ → Outcome (Dict ℕ)
unfolding retire
retire_all [] dependencies in_degree = ok in_degree
retire_all (r ∷ batch) dependencies in_degree =
    retire r dependencies in_degree >>= λ next. retire_all batch dependencies next

-- The `while in_degree` loop. Each round deletes a key.
pub rounds : ℕ → Dict (List ℕ) → Dict ℕ → Outcome (List (List ℕ))
unfolding ready retire_all
rounds fuel dependencies [] = ok []
rounds zero dependencies (entry ∷ in_degree) = err out_of_fuel
rounds (suc fuel) dependencies (entry ∷ in_degree) = elim (ready (entry ∷ in_degree)) [
  | [] ↦ err cycle_detected
  | r ∷ batch ↦ retire_all (r ∷ batch) dependencies (entry ∷ in_degree) >>= λ next.
      rounds fuel dependencies next >>= λ batches. ok ((r ∷ batch) ∷ batches)
]

pub execution_order : Dict (List ℕ) → Outcome (List (List ℕ))
unfolding rounds initial_degrees
execution_order dependencies =
    rounds (length dependencies) dependencies (initial_degrees dependencies)

-- What follows the search for the upstream resources.
pub order_found :
    Arrangement LineageRow → List LineageRow → ℕ → Option (List ℕ) → Outcome (List (List ℕ))
order_found db rows root_id none = err out_of_fuel
order_found db rows root_id (some found) =
    execution_order (build_dependencies db rows (found ++ root_id ∷ []))

pub get_execution_order : Arrangement LineageRow → List LineageRow → ℕ → Outcome (List (List ℕ))
get_execution_order db rows root_id =
    order_found db rows root_id (resolve_upstream_dependencies db rows root_id true)
