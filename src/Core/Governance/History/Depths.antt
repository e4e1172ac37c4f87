-- ===== src/Core/Governance/History/Depths.antt =====
-- What holds of the search after each round: the queue is in the order of the depths, and every
-- resource is visited at its least depth.
use optaic_trading.Prelude.{
  ℕ, zero, suc, ◌≡◌, ◌≤◌, Bool, true, not, ◌&&◌, ◌||◌, List, [], ◌∷◌, ◌++◌, map, keep, any,
  contains, leb, ltb, nat_beq, nat_beq_iff, arith, refl, Bool-cases, inl, inr,
}
use optaic_trading.Core.Governance.History.{unvisited}

-- A chain of so many links from the root
pub data Chain (link : ℕ → ℕ → Bool) (root : ℕ) : ℕ → ℕ → Type 0 where
  start : Chain link root root zero
  step : {u v n : ℕ} → Chain link root u n → link u v ≡ true → Chain link root v (suc n)

-- The queue has an entry for `v` at the depth `k`, or at most at it.
abbrev pub queued_at : ℕ → ℕ → List (ℕ × ℕ) → Bool
queued_at v k = any (λ (w, j). nat_beq v w && nat_beq k j)

abbrev pub queued_by : ℕ → ℕ → List (ℕ × ℕ) → Bool
queued_by v k = any (λ (w, j). nat_beq v w && leb j k)

abbrev pub IsSorted : ℕ → ℕ → List (ℕ × ℕ) → Type 0
IsSorted lo hi [] = Unit
IsSorted lo hi ((v, k) ∷ queue) = (lo ≤ k) × (k ≤ hi) × IsSorted k hi queue

pub IsSorted-weaken :
    (lo hi hi' : ℕ) (queue : List (ℕ × ℕ)) → hi ≤ hi' → IsSorted lo hi queue → IsSorted lo hi' queue
IsSorted-weaken lo hi hi' [] h s = tt
IsSorted-weaken lo hi hi' ((v, k) ∷ queue) h (a, b, s) =
    (a, omega arith, IsSorted-weaken k hi hi' queue h s)

pub level-IsSorted :
    (lo depth : ℕ) (p : ℕ → Bool) (ids : List ℕ)
    → lo ≤ depth
    → IsSorted lo depth (map (λ v. (v, depth)) (keep p ids))
level-IsSorted lo depth p [] h = tt
level-IsSorted lo depth p (v ∷ ids) h = elim (Bool-cases (p v)) [
  | inl e ↦ rw (e) (h, omega arith, level-IsSorted depth depth p ids (omega arith))
  | inr e ↦ rw (e) (level-IsSorted lo depth p ids h)
]

pub append-IsSorted :
    (lo hi : ℕ) (queue added : List (ℕ × ℕ))
    → IsSorted lo hi queue
    → ((k : ℕ) → k ≤ hi → IsSorted k hi added)
    → lo ≤ hi
    → IsSorted lo hi (queue ++ added)
append-IsSorted lo hi [] added s more h = more lo h
append-IsSorted lo hi ((v, k) ∷ queue) added (a, b, s) more h =
    (a, b, append-IsSorted k hi queue added s more b)

pub any-append {ℓ} :
    {A : Type ℓ} (p : A → Bool) (xs ys : List A) → any p (xs ++ ys) ≡ (any p xs || any p ys)
any-append p [] ys = refl
any-append p (x ∷ xs) ys = ground (arith, any-append p xs ys)

queued_at-level :
    (v k depth : ℕ) (p : ℕ → Bool) (ids : List ℕ)
    → queued_at v k (map (λ w. (w, depth)) (keep p ids))
      ≡ (nat_beq k depth && p v && contains v ids)
queued_at-level v k depth p [] = ground arith
queued_at-level v k depth p (w ∷ ids) = ground (arith, queued_at-level v k depth p ids)

queued_by-level :
    (v k depth : ℕ) (p : ℕ → Bool) (ids : List ℕ)
    → queued_by v k (map (λ w. (w, depth)) (keep p ids)) ≡ (leb depth k && p v && contains v ids)
queued_by-level v k depth p [] = ground arith
queued_by-level v k depth p (w ∷ ids) = ground (arith, queued_by-level v k depth p ids)

pub queued_at-unvisited :
    (v k depth : ℕ) (visited ids : List ℕ)
    → queued_at v k (unvisited visited depth ids)
      ≡ (nat_beq k depth && not (contains v visited) && contains v ids)
queued_at-unvisited v k depth visited ids =
    queued_at-level v k depth (λ w. not (contains w visited)) ids

pub queued_by-unvisited :
    (v k depth : ℕ) (visited ids : List ℕ)
    → queued_by v k (unvisited visited depth ids)
      ≡ (leb depth k && not (contains v visited) && contains v ids)
queued_by-unvisited v k depth visited ids =
    queued_by-level v k depth (λ w. not (contains w visited)) ids

-- `v` is visited at most at the depth `n`, or is to be visited so.
abbrev pub covered : (ℕ → ℕ) → List ℕ → List (ℕ × ℕ) → ℕ → ℕ → Bool
covered d visited queue v n = (contains v visited && leb (d v) n) || queued_by v n queue

abbrev pub link : (ℕ → List ℕ) → ℕ → ℕ → Bool
link next u v = contains v (next u)

module _ (next : ℕ → List ℕ) (root max_depth : ℕ) where
  -- Each visited resource has a depth `d`, at most `lo`, the depth of the last round.
  pub record Inv (d : ℕ → ℕ) (lo : ℕ) (visited : List ℕ) (queue : List (ℕ × ℕ)) : Type 0 where
    pub sorted : IsSorted lo (suc lo) queue
    pub visited_le : (v : ℕ) → contains v visited ≡ true → d v ≤ lo
    pub visited_within : (v : ℕ) → contains v visited ≡ true → d v ≤ max_depth
    pub visited_sound : (v : ℕ) → contains v visited ≡ true → Chain (link next) root v (d v)
    pub queue_sound : (v k : ℕ) → queued_at v k queue ≡ true → Chain (link next) root v k
    pub root_covered : covered d visited queue root 0 ≡ true
    pub closed :
        (u v : ℕ)
        → contains u visited ≡ true
        → contains v (next u) ≡ true
        → suc (d u) ≤ max_depth
        → covered d visited queue v (suc (d u)) ≡ true

  pub Inv-start : Inv (λ v. 0) 0 [] ((root, 0) ∷ [])
  Inv-start = record {
    sorted = (omega arith, omega arith, tt);
    visited_le = λ v h. omega arith;
    visited_within = λ v h. omega arith;
    visited_sound = λ v h. absurd (ground arith);
    queue_sound = λ v k h.
        let e : v ≡ root = (nat_beq_iff v root).0 (ground arith) in
        let f : k ≡ 0 = (nat_beq_iff k 0).0 (ground arith) in rw (e, f) start;
    root_covered = ground arith;
    closed = λ u v h e m. absurd (ground arith);
  }

  covered-skip :
      (d : ℕ → ℕ) (lo : ℕ) (visited : List ℕ) (c k : ℕ) (queue : List (ℕ × ℕ)) (v n : ℕ)
      → Inv d lo visited ((c, k) ∷ queue)
      → (contains c visited || ltb max_depth k) ≡ true
      → n ≤ max_depth
      → covered d visited ((c, k) ∷ queue) v n ≡ true
      → covered d visited queue v n ≡ true
  covered-skip d lo visited c k queue v n inv skipped m h =
      elim (Bool-cases (nat_beq v c && leb k n)) [
        | inl at_head ↦
            let e : v ≡ c = (nat_beq_iff v c).0 (ground arith) in
            let old : contains c visited ≡ true = ground arith in
            let low : d v ≤ lo = inv.visited_le v (rw (e) old) in
            let seen : contains v visited ≡ true = rw (e) old in ground (arith, inv.sorted.0)
        | inr later ↦ ground arith
      ]

  pub Inv-skip :
      (d : ℕ → ℕ) (lo : ℕ) (visited : List ℕ) (c k : ℕ) (queue : List (ℕ × ℕ))
      → Inv d lo visited ((c, k) ∷ queue)
      → (contains c visited || ltb max_depth k) ≡ true
      → Inv d k visited queue
  Inv-skip d lo visited c k queue inv skipped = record {
    sorted = IsSorted-weaken k (suc lo) (suc k) queue (omega (arith, inv.sorted.0)) inv.sorted.2;
    visited_le = λ v h. omega (arith, inv.visited_le v h, inv.sorted.0);
    visited_within = inv.visited_within;
    visited_sound = inv.visited_sound;
    queue_sound = λ v j h. inv.queue_sound v j (ground arith);
    root_covered =
        covered-skip d lo visited c k queue root 0 inv skipped (omega arith) inv.root_covered;
    closed = λ u v h e m.
        covered-skip d lo visited c k queue v (suc (d u)) inv skipped m (inv.closed u v h e m);
  }
