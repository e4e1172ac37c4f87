-- ===== src/Core/Governance/History/Nearest.antt =====
-- `get_resource_lineage` lists the resources within its depth, each once and at its distance.
use optaic_trading.Prelude.{
  ℕ, suc, ◌≡◌, ◌≤◌, Bool, true, false, not, ◌&&◌, Option, none, some, List, [], ◌∷◌, map, keep, any,
  contains, IsDistinct, length, nat_beq, nat_beq_iff, String, string_eq, arith, refl, ap, subst,
  ◌∙◌, fun_ext, Bool-cases, inl, inr,
}
use optaic_trading.Prelude.Dict.{Dict, get}
use optaic_trading.Database.{Arrangement, any-perm, length-perm, contains-map}
use optaic_trading.Core.Governance.{Resource, ResourceEdge, ActorContext}
use optaic_trading.Core.Governance.History.{
  LineageEntry, near_end, far_end, is_followed, next_ids, lineage_entry, entries_at,
  get_resource_lineage,
}
use optaic_trading.Core.Governance.History.Depths.{Chain, start, step, covered, link, Inv-start}
use optaic_trading.Core.Governance.History.Loop.{
  ids, listed, Entries, Lists-start, Searched, walk-Searched,
}
use optaic_trading.Core.Governance.History.Ends.{edges_from, search_ends}

-- The list of a search from a root along links to a depth, for the resources that are shown.
pub record IsLineage (link : ℕ → ℕ → Bool) (shown : ℕ → Bool) (root max_depth : ℕ)
    (lineage : List LineageEntry) : Type 0 where
  -- An entry is for a resource that is shown, and its depth is the length of a chain to it.
  pub sound :
      (v k : ℕ)
      → listed v k lineage ≡ true
      → (k ≤ max_depth) × (shown v ≡ true) × Chain link root v k
  -- Every resource at the end of a chain within the depth has an entry, and none at a greater depth.
  pub complete :
      (v n : ℕ)
      → Chain link root v n
      → n ≤ max_depth
      → shown v ≡ true
      → (k : ℕ) × (k ≤ n) × (listed v k lineage ≡ true)
  pub distinct : IsDistinct (ids lineage)

-- The resources that a search may show: those of the actor's tenant, but not the root
abbrev pub is_of_tenant : ActorContext → Option Resource → Bool
is_of_tenant actor none = false
is_of_tenant actor (some r) = nat_beq r.tenant_id actor.tenant_id

abbrev pub is_shown : ActorContext → Dict Resource → ℕ → ℕ → Bool
is_shown actor resources root v = not (nat_beq v root) && is_of_tenant actor (get v resources)

module _ (actor : ActorContext) where
  lineage_entry-listed :
      (c k v j : ℕ) (o : Option Resource)
      → listed v j (lineage_entry actor c k o)
        ≡ (nat_beq v c && nat_beq j k && is_of_tenant actor o)
  lineage_entry-listed c k v j none = ground arith
  lineage_entry-listed c k v j (some r) = ground arith

  lineage_entry-ids :
      (c k v : ℕ) (o : Option Resource)
      → contains v (ids (lineage_entry actor c k o)) ≡ (nat_beq v c && is_of_tenant actor o)
  lineage_entry-ids c k v none = ground arith
  lineage_entry-ids c k v (some r) = ground arith

  lineage_entry-IsDistinct :
      (c k : ℕ) (o : Option Resource) → IsDistinct (ids (lineage_entry actor c k o))
  lineage_entry-IsDistinct c k none = tt
  lineage_entry-IsDistinct c k (some r) = elim (Bool-cases (nat_beq r.tenant_id actor.tenant_id)) [
    | inl e ↦ rw (e) (refl, tt)
    | inr e ↦ rw (e) tt
  ]

  entries_at-Entries :
      (resources : Dict Resource) (root : ℕ)
      → Entries (entries_at actor resources root) (is_shown actor resources root)
  entries_at-Entries resources root = record {
    entry_listed = λ c k v j. elim (Bool-cases (nat_beq c root)) [
      | inl e ↦ rw (e) (ground arith)
      | inr e ↦ rw (e) (lineage_entry-listed c k v j (get c resources))
    ];
    entry_ids = λ c k v. elim (Bool-cases (nat_beq c root)) [
      | inl e ↦ rw (e) (ground arith)
      | inr e ↦ rw (e) (lineage_entry-ids c k v (get c resources))
    ];
    entry_distinct = λ c k. elim (Bool-cases (nat_beq c root)) [
      | inl e ↦ rw (e) tt
      | inr e ↦ rw (e) (lineage_entry-IsDistinct c k (get c resources))
    ];
  }

module _ (next : ℕ → List ℕ) (entries : ℕ → ℕ → List LineageEntry) (shown : ℕ → Bool)
    (has : Entries entries shown) (root max_depth : ℕ) (lineage : List LineageEntry)
    (searched : Searched next entries shown has root max_depth lineage) where
  Chain-covered :
      {v n : ℕ}
      → Chain (link next) root v n
      → n ≤ max_depth
      → covered searched.d searched.visited [] v n ≡ true
  Chain-covered start h = searched.inv.root_covered
  Chain-covered (step {u} {v} {n} path linked) h =
      let before = Chain-covered path (omega arith) in
      let seen : contains u searched.visited ≡ true = ground (arith, before) in
      let near : searched.d u ≤ n = ground (arith, before) in
      let closed = searched.inv.closed u v seen linked (omega arith) in ground (arith, closed, near)

  Searched-IsLineage : IsLineage (link next) shown root max_depth lineage
  Searched-IsLineage = record {
    sound = λ v k h.
        let is = searched.lists.lists v k in
        let seen : contains v searched.visited ≡ true = ground (arith, is, h) in
        let at : k ≡ searched.d v = (nat_beq_iff k (searched.d v)).0 (ground (arith, is, h)) in
        rw (at) (
          searched.inv.visited_within v seen,
          ground (arith, is, h),
          searched.inv.visited_sound v seen,
        );
    complete = λ v n path h shows.
        let covers = Chain-covered path h in
        let is = searched.lists.lists v (searched.d v) in
        (searched.d v, ground (arith, covers), ground (arith, is, covers, shows));
    distinct = searched.lists.distinct;
  }

-- An edge from `u` to `v` that the search follows
abbrev pub follows : ActorContext → String → List String → List ResourceEdge → ℕ → ℕ → Bool
follows actor direction edge_types edges u v =
    any (λ e. is_followed actor direction edge_types u e && nat_beq v (far_end direction e)) edges

any-keep {ℓ} :
    {A : Type ℓ} (p q : A → Bool) (xs : List A) → any p (keep q xs) ≡ any (λ x. q x && p x) xs
any-keep p q [] = refl
any-keep p q (x ∷ xs) = ground (arith, any-keep p q xs)

length-keep-imp {ℓ} :
    {A : Type ℓ} (p q : A → Bool) (xs : List A)
    → ((x : A) → p x ≡ true → q x ≡ true)
    → length (keep p xs) ≤ length (keep q xs)
length-keep-imp p q [] h = omega arith
length-keep-imp p q (x ∷ xs) h = ground (arith, length-keep-imp p q xs h, h x)

length-map {ℓ} : {A : Type ℓ} (f : A → ℕ) (xs : List A) → length (map f xs) ≡ length xs
length-map f [] = refl
length-map f (x ∷ xs) = ap suc (length-map f xs)

module _ (db : Arrangement ResourceEdge) (actor : ActorContext) (direction : String)
    (edge_types : List String) (edges : List ResourceEdge) where
  contains-next_ids :
      (u v : ℕ)
      → contains v (next_ids db actor direction edge_types edges u)
        ≡ follows actor direction edge_types edges u v
  unfolding next_ids
  contains-next_ids u v =
      let rows = keep (is_followed actor direction edge_types u) edges in
      contains-map v (far_end direction) (db.arrange rows)
      ∙ any-perm (λ e. nat_beq v (far_end direction e)) (db.arrange_perm rows)
      ∙ any-keep (λ e. nat_beq v (far_end direction e)) (is_followed actor direction edge_types u)
          edges

  length-next_ids :
      (c : ℕ)
      → length (next_ids db actor direction edge_types edges c)
        ≤ edges_from (near_end direction) c edges
  unfolding next_ids
  length-next_ids c =
      let rows = keep (is_followed actor direction edge_types c) edges in
      omega (
        arith,
        length-map (far_end direction) (db.arrange rows),
        length-perm (db.arrange_perm rows),
        length-keep-imp (is_followed actor direction edge_types c)
            (λ e. nat_beq (near_end direction e) c) edges (λ e h. ground (arith, h)),
      )

  -- The search for a resource's lineage returns for all edges, circles included. Its entries are the
  -- other resources of the actor's tenant that a chain of at most `max_depth` edges of the given
  -- types leads to in the given direction, each once, and at the length of its shortest chain.
  pub get_resource_lineage-IsLineage :
      (resources : Dict Resource) (resource_id max_depth : ℕ)
      → (lineage : List LineageEntry) × (get_resource_lineage db resources edges actor resource_id
            direction edge_types max_depth
          ≡ some lineage)
        × IsLineage
            (follows actor direction edge_types edges)
            (is_shown actor resources resource_id)
            resource_id
            max_depth
            lineage
  unfolding get_resource_lineage
  get_resource_lineage-IsLineage resources resource_id max_depth =
      let next = next_ids db actor direction edge_types edges in
      let entries = entries_at actor resources resource_id in
      let shown = is_shown actor resources resource_id in
      let has = entries_at-Entries actor resources resource_id in
      let (lineage, e) =
        search_ends (near_end direction) next entries max_depth edges length-next_ids resource_id in
      let searched =
        walk-Searched next entries shown has resource_id max_depth (suc (length edges)) (λ v. 0) 0
          [] ((resource_id, 0) ∷ []) [] lineage (Inv-start next resource_id max_depth)
          (Lists-start next entries shown has resource_id max_depth) e in
      let links : link next ≡ follows actor direction edge_types edges =
        fun_ext (λ u. fun_ext (λ v. contains-next_ids u v)) in
      (
        lineage,
        e,
        subst (λ l. IsLineage l shown resource_id max_depth lineage) links
            (Searched-IsLineage next entries shown has resource_id max_depth lineage searched),
      )
