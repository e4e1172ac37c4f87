-- ===== src/Core/Governance/Service/Frames.antt =====
-- What the operations leave alone: only the transfer workflow writes transfer requests, and no
-- operation removes an edge.
use optaic_trading.Prelude.{
  ℕ, ◌≡◌, Bool, true, Option, none, some, List, [], ◌∷◌, ◌++◌, any, ap, subst, ◌∙◌, sym, ok, arith,
  refl, String, string_eq, >>=-eq-ok, >>-eq-ok, keep,
}
use optaic_trading.Prelude.Dict.{Dict}
use optaic_trading.Core.ResourceTypes.{copy, branch, merge}
use optaic_trading.Core.Governance.{
  ResourceEdge, Store, ActorContext, resource_not_found, target_not_found, same_edge, one_or_none,
  find_resource, validate_action, validate_place, insert_row, insert_edge, edge_by, copy_artifact,
}
use optaic_trading.Core.Governance.Guards.{ok-injective, insert_edge-eq-ok}
use optaic_trading.Core.Governance.Copies.{
  copied_from, copy_resource, with_artifacts, copy_files, branched_from, branch_resource,
  is_branch_edge, require_branch, merge_resource,
}

-- Edges that were there are there.
abbrev pub Grows : Store → Store → Type 0
Grows before after =
    (edge : ResourceEdge)
    → any (same_edge edge) before.edges ≡ true
    → any (same_edge edge) after.edges ≡ true

any-append_left {ℓ} :
    {A : Type ℓ} (p : A → Bool) (xs ys : List A) → any p xs ≡ true → any p (xs ++ ys) ≡ true
any-append_left p [] ys holds = cc
any-append_left p (x ∷ xs) ys holds = ground (arith, any-append_left p xs ys)

pub Grows-same : (before after : Store) → after.edges ≡ before.edges → Grows before after
Grows-same before after e edge there =
    subst (λ (es : List ResourceEdge). any (same_edge edge) es ≡ true) (sym e) there

pub Grows-append :
    (before after : Store) (added : List ResourceEdge)
    → before.edges ++ added ≡ after.edges
    → Grows before after
Grows-append before after added e edge there =
    subst (λ (es : List ResourceEdge). any (same_edge edge) es ≡ true) e
      (any-append_left (same_edge edge) before.edges added there)

-- Of the operations outside of the workflow
pub record IsFrame (before after : Store) : Type 0 where
  pub transfers_after : after.transfers ≡ before.transfers
  pub grows : Grows before after

pub copy-IsFrame :
    (new_id : ℕ) (actor : ActorContext) (source_id parent_id : ℕ) (name : Option String)
    (store : Store) {after : Store}
    → copy_resource new_id actor source_id parent_id name store ≡ ok after
    → IsFrame store after
unfolding copy_resource
copy-IsFrame new_id actor source_id parent_id name store {after} returned =
    let (source, _, rest) =
      >>=-eq-ok (find_resource store actor resource_not_found source_id) _ returned in
    let (_, _, rest1) = >>-eq-ok (validate_action store source copy) _ rest in
    let (_, _, rest2) = >>-eq-ok (validate_place store source.resource_type parent_id) _ rest1 in
    let (resources, _, rest3) =
      >>=-eq-ok (insert_row store new_id (copied_from actor parent_id name source) store.resources)
        _ rest2 in
    let edge = edge_by actor new_id source_id "copy_of" in
    let (edges, inserted, last) = >>=-eq-ok (insert_edge store edge) _ rest3 in
    record {
      transfers_after = cc;
      grows = Grows-append store after (edge ∷ []) (
          (insert_edge-eq-ok store edge inserted).1
          ∙ ap (λ (s : Store). s.edges) (sym (ok-injective refl (sym last))));
    }

-- Copies of files change the folders alone.
abbrev pub KeepsTables : Store → Store → Type 0
KeepsTables before after = (after.transfers ≡ before.transfers) × (after.edges ≡ before.edges)

with_artifacts-KeepsTables :
    (store : Store) (new_ref : ℕ) (folders : Option (Dict String)) {r : Option ℕ} {after : Store}
    → with_artifacts store new_ref folders ≡ ok (r, after)
    → KeepsTables store after
with_artifacts-KeepsTables store new_ref none returned = cc
with_artifacts-KeepsTables store new_ref (some folders) returned = (cc, cc)

pub copy_files-KeepsTables :
    (store : Store) (new_ref : ℕ) (source : Option ℕ) {r : Option ℕ} {after : Store}
    → copy_files store new_ref source ≡ ok (r, after)
    → KeepsTables store after
copy_files-KeepsTables store new_ref none returned = (cc, cc)
copy_files-KeepsTables store new_ref (some ref) returned =
    with_artifacts-KeepsTables store new_ref (copy_artifact ref new_ref store.artifacts) returned

-- An edge that is added in a session that keeps the tables
pub appended_since :
    (before session after : Store) (edge : ResourceEdge) {edges : List ResourceEdge}
    → KeepsTables before session
    → insert_edge session edge ≡ ok edges
    → after.edges ≡ edges
    → Grows before after
appended_since before session after edge (_, e) inserted f = Grows-append before after (edge ∷ []) (
    ap (λ (es : List ResourceEdge). es ++ edge ∷ []) (sym e)
    ∙ (insert_edge-eq-ok session edge inserted).1
    ∙ sym f)

pub branch-IsFrame :
    (new_id new_ref : ℕ) (actor : ActorContext) (source_id parent_id : ℕ) (name : Option String)
    (store : Store) {after : Store}
    → branch_resource new_id new_ref actor source_id parent_id name store ≡ ok after
    → IsFrame store after
unfolding branch_resource
branch-IsFrame new_id new_ref actor source_id parent_id name store {after} returned =
    let (source, _, rest) =
      >>=-eq-ok (find_resource store actor resource_not_found source_id) _ returned in
    let (_, _, rest1) = >>-eq-ok (validate_action store source branch) _ rest in
    let (_, _, rest2) = >>-eq-ok (validate_place store source.resource_type parent_id) _ rest1 in
    let ((ref, session), copied, rest3) =
      >>=-eq-ok (copy_files store new_ref source.artifact_ref) _ rest2 in
    let (resources, _, rest4) =
      >>=-eq-ok
        (insert_row session new_id (branched_from actor parent_id name ref source)
          session.resources)
        _ rest3 in
    let edge = edge_by actor new_id source_id "branch_of" in
    let (edges, inserted, last) = >>=-eq-ok (insert_edge session edge) _ rest4 in
    let kept = copy_files-KeepsTables store new_ref source.artifact_ref copied in
    let is = ok-injective refl (sym last) in
    record {
      transfers_after = ap (λ (s : Store). s.transfers) is ∙ kept.0;
      grows =
          appended_since store session after edge kept inserted (ap (λ (s : Store). s.edges) is);
    }

pub merge-IsFrame :
    (actor : ActorContext) (source_id target_id : ℕ) (store : Store) {after : Store}
    → merge_resource actor source_id target_id store ≡ ok after
    → IsFrame store after
unfolding merge_resource
merge-IsFrame actor source_id target_id store {after} returned =
    let (source, _, rest) =
      >>=-eq-ok (find_resource store actor resource_not_found source_id) _ returned in
    let (target, _, rest1) =
      >>=-eq-ok (find_resource store actor target_not_found target_id) _ rest in
    let (_, _, rest2) = >>-eq-ok (validate_action store source merge) _ rest1 in
    let (found, _, rest3) =
      >>=-eq-ok (one_or_none store (keep (is_branch_edge actor source_id target_id) store.edges)) _
        rest2 in
    let (_, _, rest4) = >>-eq-ok (require_branch store found) _ rest3 in
    let edge = edge_by actor target_id source_id "merged_from" in
    let (edges, inserted, last) = >>=-eq-ok (insert_edge store edge) _ rest4 in
    let is = ok-injective refl (sym last) in
    record {
      transfers_after = ap (λ (s : Store). s.transfers) is;
      grows =
          appended_since store store after edge (refl, refl) inserted
            (ap (λ (s : Store). s.edges) is);
    }
