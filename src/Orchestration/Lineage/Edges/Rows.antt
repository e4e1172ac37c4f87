-- ===== src/Orchestration/Lineage/Edges/Rows.antt =====
-- What the operations on lineage rows do to the dependencies between resources.
use optaic_trading.Prelude.{
  ℕ, ◌≡◌, inl, inr, Bool, true, false, not, ◌&&◌, ◌||◌, List, [], ◌∷◌, ◌++◌, keep, any, all, String,
  ◌==◌, string_eq, nat_beq, contains, ok, arith, refl, ◌∙◌, Bool-cases, ap, sym,
}
use optaic_trading.Orchestration.Lineage.Table.{LineageRow, joins, depends}
use optaic_trading.Orchestration.Lineage.Edges.{
  add_lineage_edge, remove_lineage_edge, Subscription, LineageDag, Links, EdgeSession,
  subscription_refers, flush, create_each, create_lineage_and_subscriptions,
}

any-append {ℓ} :
    {A : Type ℓ} (p : A → Bool) (xs ys : List A) → any p (xs ++ ys) ≡ (any p xs || any p ys)
any-append p [] ys = refl
any-append p (x ∷ xs) ys = ground (arith, any-append p xs ys)

any-keep-other :
    (u d v e : ℕ) (rows : List LineageRow)
    → any (joins v e) (keep (λ row. not (joins u d row)) rows)
      ≡ (not (nat_beq v u && nat_beq e d) && any (joins v e) rows)
any-keep-other u d v e [] = ground arith
any-keep-other u d v e (row ∷ rows) = ground (arith, any-keep-other u d v e rows)

-- Removing an edge says whether the table had the dependency, takes it away, and leaves all others.
pub remove_lineage_edge-depends :
    (u d : ℕ) (session : EdgeSession)
    → ((remove_lineage_edge u d session).0 ≡ depends session.links.lineage d u)
      × ((v e : ℕ)
          → depends (remove_lineage_edge u d session).1.links.lineage e v
            ≡ (not (nat_beq v u && nat_beq e d) && depends session.links.lineage e v))
unfolding remove_lineage_edge
remove_lineage_edge-depends u d session =
    (refl, λ v e. any-keep-other u d v e session.links.lineage)

-- A session with nothing to flush
abbrev pub opened : Links → EdgeSession
opened links = record { links = links; new_lineage = []; new_subscriptions = [] }

-- The table with one row more
abbrev pub with_edge : ℕ → ℕ → ℕ → String → Links → Links
with_edge tenant u d kind links = record links {
  lineage =
      links.lineage
      ++ record {
        tenant_id = tenant;
        upstream_resource_id = u;
        downstream_resource_id = d;
        edge_kind = kind;
      }
        ∷ [];
}

with_edge-depends :
    (tenant u d : ℕ) (kind : String) (links : Links) (v e : ℕ)
    → depends (with_edge tenant u d kind links).lineage e v
      ≡ (depends links.lineage e v || (nat_beq v u && nat_beq e d))
with_edge-depends tenant u d kind links v e = any-append (joins v e) links.lineage _ ∙ ground arith

-- What becomes of an edge that is added and removed, by where the flush comes.
pub record AddsRemoves (tenant u d : ℕ) (kind : String) (links : Links) : Type 0 where
  pub flushed : Links
  pub flush_between : flush (add_lineage_edge tenant u d kind (opened links)) ≡ ok flushed
  pub found : (remove_lineage_edge u d (opened flushed)).0 ≡ true
  pub restored :
      (v e : ℕ)
      → depends (remove_lineage_edge u d (opened flushed)).1.links.lineage e v
        ≡ depends links.lineage e v
  -- With no flush between, the removal does not find the edge, and the flush after it writes it.
  pub missed : (remove_lineage_edge u d (add_lineage_edge tenant u d kind (opened links))).0 ≡ false
  pub left : Links
  pub flush_after :
      flush (remove_lineage_edge u d (add_lineage_edge tenant u d kind (opened links))).1 ≡ ok left
  pub stays : depends left.lineage d u ≡ true

-- A new edge between resources that is added, flushed and removed: the removal finds it, and the
-- dependencies are those of the start. With no flush before the removal it is not found, and the
-- dependency is in the table after the next flush.
pub add_remove-AddsRemoves :
    (tenant u d : ℕ) (kind : String) (links : Links)
    → contains tenant links.tenants ≡ true
    → contains u links.resources ≡ true
    → contains d links.resources ≡ true
    → depends links.lineage d u ≡ false
    → AddsRemoves tenant u d kind links
unfolding add_lineage_edge flush remove_lineage_edge
add_remove-AddsRemoves tenant u d kind links known upstream downstream new =
    let added = with_edge tenant u d kind links in
    let (told, gone) = remove_lineage_edge-depends u d (opened added) in
    let cleared : Links = record links {
      lineage = keep (λ row. not (joins u d row)) links.lineage;
    } in
    record {
      flushed = record added { subscriptions = links.subscriptions ++ [] };
      flush_between = simp (known, upstream, downstream) refl;
      found = told ∙ with_edge-depends tenant u d kind links u d ∙ ground arith;
      restored = λ v e. gone v e ∙ elim (Bool-cases (nat_beq v u && nat_beq e d)) [
        | inl this ↦
            let v_is : v ≡ u = ground arith in
            let e_is : e ≡ d = ground arith in rw (v_is, e_is) (ground (arith, new))
        | inr other ↦ let kept = with_edge-depends tenant u d kind links v e in ground (arith, kept)
      ];
      missed = new;
      left = record (with_edge tenant u d kind cleared) {
        subscriptions = links.subscriptions ++ [];
      };
      flush_after = simp (known, upstream, downstream) refl;
      stays = with_edge-depends tenant u d kind cleared u d ∙ ground arith;
    }

-- A principal of a tenant is subscribed to a resource, for the scope.
abbrev pub subscribed : List Subscription → ℕ → String → ℕ → ℕ → Bool
subscribed subscriptions tenant scope principal resource =
    any
      (λ s.
        nat_beq tenant s.tenant_id
        && (s.scope == scope)
        && nat_beq principal s.principal_id
        && nat_beq resource s.resource_id)
      subscriptions

any-and-all :
    (p q : Subscription → Bool) (xs : List Subscription)
    → any p xs ≡ true
    → all q xs ≡ true
    → (x : Subscription) × (p x ≡ true) × (q x ≡ true)
any-and-all p q [] some_ every = cc
any-and-all p q (x ∷ xs) some_ every = elim (Bool-cases (p x)) [
  | inl here ↦ (x, here, ground arith)
  | inr there ↦ any-and-all p q xs (ground arith) (ground arith)
]

create_each-kept :
    (tenant id : ℕ) (ids : List ℕ) (session : EdgeSession)
    → (create_each tenant id ids session).links ≡ session.links
unfolding create_each
create_each-kept tenant id [] session = refl
create_each-kept tenant id (u ∷ ids) session = create_each-kept tenant id ids _

create_each-depends :
    (tenant id : ℕ) (ids : List ℕ) (session : EdgeSession) (v e : ℕ)
    → depends (create_each tenant id ids session).new_lineage e v
      ≡ (depends session.new_lineage e v || (nat_beq e id && contains v ids))
unfolding create_each
create_each-depends tenant id [] session v e = ground arith
create_each-depends tenant id (u ∷ ids) session v e =
    let row : LineageRow = record {
      tenant_id = tenant;
      upstream_resource_id = u;
      downstream_resource_id = id;
      edge_kind = "data_dependency";
    } in
    let one = any-append (joins v e) session.new_lineage (row ∷ []) in
    create_each-depends tenant id ids _ v e ∙ ground (arith, one)

abbrev names_subscription : ℕ → String → ℕ → ℕ → Subscription → Bool
names_subscription tenant scope principal resource s =
    nat_beq tenant s.tenant_id
    && (s.scope == scope)
    && nat_beq principal s.principal_id
    && nat_beq resource s.resource_id

create_each-subscribed :
    (tenant id : ℕ) (ids : List ℕ) (session : EdgeSession) (t : ℕ) (scope : String) (v e : ℕ)
    → subscribed (create_each tenant id ids session).new_subscriptions t scope e v ≡ (
        subscribed session.new_subscriptions t scope e v
        || (nat_beq t tenant && ("completion" == scope) && nat_beq e id && contains v ids))
unfolding create_each
create_each-subscribed tenant id [] session t scope v e = ground arith
create_each-subscribed tenant id (u ∷ ids) session t scope v e =
    let subscription : Subscription = record {
      tenant_id = tenant;
      principal_id = id;
      resource_id = u;
      scope = "completion";
    } in
    let one =
      any-append (names_subscription t scope e v) session.new_subscriptions (subscription ∷ []) in
    create_each-subscribed tenant id ids _ t scope v e ∙ ground (arith, one)

-- What the creation of the links of an instance has done once it is flushed.
pub record IsLinked (dag : LineageDag) (before after : Links) : Type 0 where
  pub principal :
      (u : ℕ)
      → contains u dag.upstream_ids ≡ true
      → contains dag.instance_id before.principals ≡ true
  pub depends_after :
      (v e : ℕ)
      → depends after.lineage e v
        ≡ (depends before.lineage e v || (nat_beq e dag.instance_id && contains v dag.upstream_ids))
  pub subscribed_after :
      (tenant : ℕ) (scope : String) (v e : ℕ)
      → subscribed after.subscriptions tenant scope e v ≡ (
          subscribed before.subscriptions tenant scope e v
          || (nat_beq tenant dag.tenant_id
              && ("completion" == scope)
              && nat_beq e dag.instance_id
              && contains v dag.upstream_ids))

flush-eq-ok :
    (session : EdgeSession) (after : Links)
    → flush session ≡ ok after
    → (all (subscription_refers session.links) session.new_subscriptions ≡ true)
      × (after.lineage ≡ session.links.lineage ++ session.new_lineage)
      × (after.subscriptions ≡ session.links.subscriptions ++ session.new_subscriptions)
unfolding flush
flush-eq-ok session after e = ground (arith, e)

-- Where the links of an instance are created and flushed, the instance is a principal, if it has an
-- upstream resource: the key of its subscriptions is one of a principal. The flush adds exactly the
-- dependencies on the given resources, and exactly the instance's subscriptions to their completion
-- in its tenant; all other dependencies and subscriptions stay.
pub create_lineage-IsLinked :
    (dag : LineageDag) (before after : Links)
    → flush (create_lineage_and_subscriptions dag (opened before)) ≡ ok after
    → IsLinked dag before after
unfolding create_lineage_and_subscriptions
create_lineage-IsLinked dag before after flushed =
    let session = create_each dag.tenant_id dag.instance_id dag.upstream_ids (opened before) in
    let (refers, rows, subscriptions) = flush-eq-ok session after flushed in
    let kept = create_each-kept dag.tenant_id dag.instance_id dag.upstream_ids (opened before) in
    let subscribes =
      create_each-subscribed dag.tenant_id dag.instance_id dag.upstream_ids (opened before) in
    record {
      principal = λ u named.
          let (s, is, referring) =
            any-and-all (names_subscription dag.tenant_id "completion" dag.instance_id u)
              (subscription_refers session.links) session.new_subscriptions
              (subscribes dag.tenant_id "completion" u dag.instance_id ∙ ground (arith, named))
              refers in
          ap (λ (l : Links). contains dag.instance_id l.principals) (sym kept)
          ∙ ground (arith, is, referring);
      depends_after = λ v e.
          ap (λ l. depends l e v) rows
          ∙ any-append (joins v e) session.links.lineage session.new_lineage
          ∙ ap (λ (l : Links). depends l.lineage e v || depends session.new_lineage e v) kept
          ∙ ap (λ b. depends before.lineage e v || b)
              (create_each-depends dag.tenant_id dag.instance_id dag.upstream_ids (opened before) v
                e);
      subscribed_after = λ tenant scope v e.
          ap (λ l. subscribed l tenant scope e v) subscriptions
          ∙ any-append (names_subscription tenant scope e v) session.links.subscriptions
              session.new_subscriptions
          ∙ ap
              (λ (l : Links).
                subscribed l.subscriptions tenant scope e v
                || subscribed session.new_subscriptions tenant scope e v)
              kept
          ∙ ap (λ b. subscribed before.subscriptions tenant scope e v || b)
              (subscribes tenant scope v e);
    }
