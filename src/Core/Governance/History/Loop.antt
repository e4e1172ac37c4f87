-- ===== src/Core/Governance/History/Loop.antt =====
-- The loop of the search: it ends, and what it lists is what it visits.
use optaic_trading.Prelude.{
  ℕ, zero, suc, ◌≡◌, Bool, false, ◌&&◌, ◌||◌, some, List, [], ◌∷◌, ◌++◌, any, contains,
  contains-append, IsDistinct, ltb, nat_beq, nat_beq_iff, arith, refl, ap, subst, sym, ◌∙◌,
  Bool-cases, inl, inr,
}
use optaic_trading.Core.Governance.History.{LineageEntry, walk}
use optaic_trading.Core.Governance.History.Depths.{Inv, Inv-skip, any-append}
use optaic_trading.Core.Governance.History.Visits.{visit_depth, queue_after, Inv-visit}

abbrev pub ids : List LineageEntry → List ℕ
ids [] = []
ids (e ∷ lineage) = e.id ∷ ids lineage

ids-append : (xs ys : List LineageEntry) → ids (xs ++ ys) ≡ ids xs ++ ids ys
ids-append [] ys = refl
ids-append (x ∷ xs) ys = ap (λ (l : List ℕ). x.id ∷ l) (ids-append xs ys)

-- There is an entry for `v` at the depth `k`.
abbrev pub listed : ℕ → ℕ → List LineageEntry → Bool
listed v k = any (λ e. nat_beq v e.id && nat_beq k e.depth)

append-IsDistinct :
    (xs ys : List ℕ)
    → IsDistinct xs
    → IsDistinct ys
    → ((v : ℕ) → (contains v xs && contains v ys) ≡ false)
    → IsDistinct (xs ++ ys)
append-IsDistinct [] ys a b apart = b
append-IsDistinct (x ∷ xs) ys (fresh, a) b apart = (
  ground (arith, contains-append x xs ys, apart x, fresh),
  append-IsDistinct xs ys a b (λ v. ground (arith, apart v)),
)

-- What a visit lists: an entry for the resource at the depth, if the resource is shown
pub record Entries (entries : ℕ → ℕ → List LineageEntry) (shown : ℕ → Bool) : Type 0 where
  pub entry_listed :
      (c k v j : ℕ) → listed v j (entries c k) ≡ (nat_beq v c && nat_beq j k && shown c)
  pub entry_ids : (c k v : ℕ) → contains v (ids (entries c k)) ≡ (nat_beq v c && shown c)
  pub entry_distinct : (c k : ℕ) → IsDistinct (ids (entries c k))

module _ (next : ℕ → List ℕ) (entries : ℕ → ℕ → List LineageEntry) (shown : ℕ → Bool)
    (has : Entries entries shown) (root max_depth : ℕ) where
  pub record Lists (d : ℕ → ℕ) (visited : List ℕ) (lineage : List LineageEntry) : Type 0 where
    pub lists : (v j : ℕ) → listed v j lineage ≡ (contains v visited && nat_beq j (d v) && shown v)
    pub lists_ids : (v : ℕ) → contains v (ids lineage) ≡ (contains v visited && shown v)
    pub distinct : IsDistinct (ids lineage)

  pub Lists-start : Lists (λ v. 0) [] []
  Lists-start = record { lists = λ v j. refl; lists_ids = λ v. refl; distinct = tt }

  Lists-visit :
      (d : ℕ → ℕ) (visited : List ℕ) (lineage : List LineageEntry) (c k : ℕ)
      → contains c visited ≡ false
      → Lists d visited lineage
      → Lists (visit_depth next root max_depth d c k) (c ∷ visited) (lineage ++ entries c k)
  Lists-visit d visited lineage c k new inv = record {
    lists = λ v j.
        let both = any-append (λ e. nat_beq v e.id && nat_beq j e.depth) lineage (entries c k) in
        let here_listed = has.entry_listed c k v j in
        elim (Bool-cases (nat_beq v c)) [
          | inl here ↦
              let e : v ≡ c = (nat_beq_iff v c).0 here in
              let unseen : contains v visited ≡ false = rw (e) new in
              let shows : shown v ≡ shown c = ap shown e in
              ground (arith, both, here_listed, inv.lists v j, here, unseen, shows)
          | inr there ↦ ground (arith, both, here_listed, inv.lists v j, there)
        ];
    lists_ids = λ v.
        let both =
          ap (contains v) (ids-append lineage (entries c k))
          ∙ contains-append v (ids lineage) (ids (entries c k)) in
        elim (Bool-cases (nat_beq v c)) [
          | inl here ↦
              let shows : shown v ≡ shown c = ap shown ((nat_beq_iff v c).0 here) in
              ground (arith, both, has.entry_ids c k v, inv.lists_ids v, here, shows)
          | inr there ↦ ground (arith, both, has.entry_ids c k v, inv.lists_ids v, there)
        ];
    distinct = subst IsDistinct (sym (ids-append lineage (entries c k))) (
        append-IsDistinct (ids lineage) (ids (entries c k)) inv.distinct (has.entry_distinct c k)
          (λ v. elim (Bool-cases (nat_beq v c)) [
            | inl here ↦
                let unseen : contains v visited ≡ false = rw ((nat_beq_iff v c).0 here) new in
                ground (arith, inv.lists_ids v, unseen)
            | inr there ↦ ground (arith, has.entry_ids c k v, there)
          ]));
  }

  -- What the loop leaves: every resource within the depth is visited, and listed if it is shown.
  pub record Searched (lineage : List LineageEntry) : Type 0 where
    pub d : ℕ → ℕ
    pub lo : ℕ
    pub visited : List ℕ
    pub inv : Inv next root max_depth d lo visited []
    pub lists : Lists d visited lineage

  pub walk-Searched :
      (fuel : ℕ) (d : ℕ → ℕ) (lo : ℕ) (visited : List ℕ) (queue : List (ℕ × ℕ))
      (lineage result : List LineageEntry)
      → Inv next root max_depth d lo visited queue
      → Lists d visited lineage
      → walk next entries max_depth fuel visited queue lineage ≡ some result
      → Searched result
  unfolding walk
  walk-Searched zero d lo visited [] lineage result inv lists e =
      let same : lineage ≡ result = cc in
      record {
        d = d;
        lo = lo;
        visited = visited;
        inv = inv;
        lists = subst (Lists d visited) same lists;
      }
  walk-Searched (suc fuel) d lo visited [] lineage result inv lists e =
      let same : lineage ≡ result = cc in
      record {
        d = d;
        lo = lo;
        visited = visited;
        inv = inv;
        lists = subst (Lists d visited) same lists;
      }
  walk-Searched zero d lo visited ((c, k) ∷ queue) lineage result inv lists e = cc
  walk-Searched (suc fuel) d lo visited ((c, k) ∷ queue) lineage result inv lists e =
      elim (Bool-cases (contains c visited || ltb max_depth k)) [
        | inl skipped ↦
            walk-Searched fuel d k visited queue lineage result
              (Inv-skip next root max_depth d lo visited c k queue inv skipped) lists
              (rw (skipped, walk) at e)
        | inr visits ↦
            walk-Searched fuel (visit_depth next root max_depth d c k) k (c ∷ visited)
              (queue_after next root max_depth visited c k queue) (lineage ++ entries c k) result
              (Inv-visit next root max_depth d lo visited c k queue inv (ground arith)
                (ground arith))
              (Lists-visit d visited lineage c k (ground arith) lists) (rw (visits, walk) at e)
      ]
