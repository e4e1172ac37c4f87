-- ===== src/Core/Governance/History/Visits.antt =====
-- What a round that visits a resource keeps of the search's invariant.
use optaic_trading.Prelude.{
  ℕ, suc, ◌≡◌, ◌≤◌, true, false, not, ◌&&◌, List, ◌∷◌, ◌++◌, contains, leb, ltb, nat_beq,
  nat_beq_iff, if◌then◌else◌, arith, refl, ap, subst, sym, ◌∙◌, Bool-cases, inl, inr,
}
use optaic_trading.Core.Governance.History.{unvisited}
use optaic_trading.Core.Governance.History.Depths.{
  Chain, step, queued_at, IsSorted-weaken, level-IsSorted, append-IsSorted, any-append,
  queued_at-unvisited, queued_by-unvisited, covered, link, Inv,
}

module _ (next : ℕ → List ℕ) (root max_depth : ℕ) where
  -- The depths once `c` is visited at `k`
  abbrev pub visit_depth : (ℕ → ℕ) → ℕ → ℕ → ℕ → ℕ
  visit_depth d c k v = if nat_beq v c then k else d v

  abbrev pub queue_after : List ℕ → ℕ → ℕ → List (ℕ × ℕ) → List (ℕ × ℕ)
  queue_after visited c k queue = queue ++ unvisited (c ∷ visited) (suc k) (next c)

  covered-visit :
      (d : ℕ → ℕ) (visited : List ℕ) (c k : ℕ) (queue : List (ℕ × ℕ)) (v n : ℕ)
      → contains c visited ≡ false
      → covered d visited ((c, k) ∷ queue) v n ≡ true
      → covered (visit_depth d c k) (c ∷ visited) (queue_after visited c k queue) v n ≡ true
  covered-visit d visited c k queue v n new h =
      let later =
        any-append (λ (w, j). nat_beq v w && leb j n) queue
          (unvisited (c ∷ visited) (suc k) (next c)) in
      elim (Bool-cases (nat_beq v c)) [
        | inl here ↦
            let e : v ≡ c = (nat_beq_iff v c).0 here in
            let unseen : contains v visited ≡ false = rw (e) new in
            ground (arith, later, here, unseen)
        | inr there ↦ ground (arith, later, there)
      ]

  closed-visit :
      (d : ℕ → ℕ) (lo : ℕ) (visited : List ℕ) (c k : ℕ) (queue : List (ℕ × ℕ)) (v : ℕ)
      → Inv next root max_depth d lo visited ((c, k) ∷ queue)
      → contains v (next c) ≡ true
      → covered (visit_depth d c k) (c ∷ visited) (queue_after visited c k queue) v (suc k) ≡ true
  closed-visit d lo visited c k queue v inv linked =
      let later =
        any-append (λ (w, j). nat_beq v w && leb j (suc k)) queue
          (unvisited (c ∷ visited) (suc k) (next c)) in
      let added = queued_by-unvisited v (suc k) (suc k) (c ∷ visited) (next c) in
      elim (Bool-cases (nat_beq v c)) [
        | inl here ↦ ground (arith, here)
        | inr there ↦ elim (Bool-cases (contains v visited)) [
          | inl seen ↦
              let low : d v ≤ lo = inv.visited_le v seen in
              ground (arith, there, seen, inv.sorted.0)
          | inr unseen ↦ ground (arith, later, added, there, unseen, linked)
        ]
      ]

  visited-Chain :
      (d : ℕ → ℕ) (lo : ℕ) (visited : List ℕ) (c k : ℕ) (queue : List (ℕ × ℕ)) (v : ℕ)
      → Inv next root max_depth d lo visited ((c, k) ∷ queue)
      → contains v (c ∷ visited) ≡ true
      → Chain (link next) root v (visit_depth d c k v)
  visited-Chain d lo visited c k queue v inv h = elim (Bool-cases (nat_beq v c)) [
    | inl here ↦ rw (here) (inv.queue_sound v k (ground (arith, here)))
    | inr there ↦ rw (there) (inv.visited_sound v (ground (arith, h, there)))
  ]

  queue-Chain :
      (d : ℕ → ℕ) (lo : ℕ) (visited : List ℕ) (c k : ℕ) (queue : List (ℕ × ℕ)) (v j : ℕ)
      → Inv next root max_depth d lo visited ((c, k) ∷ queue)
      → queued_at v j (queue_after visited c k queue) ≡ true
      → Chain (link next) root v j
  queue-Chain d lo visited c k queue v j inv h =
      let later =
        any-append (λ (w, i). nat_beq v w && nat_beq j i) queue
          (unvisited (c ∷ visited) (suc k) (next c)) in
      let added = queued_at-unvisited v j (suc k) (c ∷ visited) (next c) in
      elim (Bool-cases (queued_at v j queue)) [
        | inl before ↦ inv.queue_sound v j (ground (arith, before))
        | inr not_before ↦
            let e : j ≡ suc k =
              (nat_beq_iff j (suc k)).0 (ground (arith, later, added, h, not_before)) in
            let linked : contains v (next c) ≡ true = ground (arith, later, added, h, not_before) in
            rw (e) (step (inv.queue_sound c k (ground arith)) linked)
      ]

  pub Inv-visit :
      (d : ℕ → ℕ) (lo : ℕ) (visited : List ℕ) (c k : ℕ) (queue : List (ℕ × ℕ))
      → Inv next root max_depth d lo visited ((c, k) ∷ queue)
      → contains c visited ≡ false
      → ltb max_depth k ≡ false
      → Inv next root max_depth (visit_depth d c k) k (c ∷ visited) (queue_after visited c k queue)
  Inv-visit d lo visited c k queue inv new near = record {
    sorted =
        append-IsSorted k (suc k) queue (unvisited (c ∷ visited) (suc k) (next c))
          (IsSorted-weaken k (suc lo) (suc k) queue (omega (arith, inv.sorted.0)) inv.sorted.2)
          (λ j h. level-IsSorted j (suc k) (λ v. not (contains v (c ∷ visited))) (next c) h)
          (omega arith);
    visited_le = λ v h. ground (arith, inv.visited_le v, inv.sorted.0, h);
    visited_within = λ v h. ground (arith, inv.visited_within v, near, h);
    visited_sound = λ v h. visited-Chain d lo visited c k queue v inv h;
    queue_sound = λ v j h. queue-Chain d lo visited c k queue v j inv h;
    root_covered = covered-visit d visited c k queue root 0 new inv.root_covered;
    closed = λ u v h e m. elim (Bool-cases (nat_beq u c)) [
      | inl here ↦
          let same : u ≡ c = (nat_beq_iff u c).0 here in
          let linked : contains v (next c) ≡ true =
            ap (λ (i : ℕ). contains v (next i)) (sym same) ∙ e in
          subst
            (λ (j : ℕ).
              covered (visit_depth d c k) (c ∷ visited) (queue_after visited c k queue) v (suc j)
              ≡ true)
            (sym (simp (here) refl)) (closed-visit d lo visited c k queue v inv linked)
      | inr there ↦
          let same : visit_depth d c k u ≡ d u = simp (there) refl in
          subst
            (λ (j : ℕ).
              covered (visit_depth d c k) (c ∷ visited) (queue_after visited c k queue) v (suc j)
              ≡ true)
            (sym same)
            (covered-visit d visited c k queue v (suc (d u)) new
              (inv.closed u v (ground (arith, h, there)) e (omega (arith, same, m))))
    ];
  }
