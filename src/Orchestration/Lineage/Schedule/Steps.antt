-- ===== src/Orchestration/Lineage/Schedule/Steps.antt =====
-- Each step of Kahn's algorithm on a dictionary of degrees that counts the remaining blockers
-- leaves such a dictionary, so that the loop computes the layers.
use optaic_trading.Prelude.{
  ok, ◌>>=◌, ℕ, zero, suc, ◌-◌, ◌<◌, ◌≡◌, inl, inr, Bool, true, false, not, ◌&&◌, List, [], ◌∷◌,
  keep, contains, contains-keep, length, some, if◌then◌else◌, nat_beq, IsDistinct, arith, refl, ap,
  Bool-cases, List-cases, subst, ◌∙◌, sym,
}
use optaic_trading.Prelude.Dict.{Dict, get}
use optaic_trading.Orchestration.Lineage.Schedule.{
  decrement, release, retire, retire_all, rounds, initial_degrees, execution_order,
}
use optaic_trading.Orchestration.Lineage.Schedule.Layers.{blockers, is_free, layers}
use optaic_trading.Orchestration.Lineage.Schedule.Counts.{
  table, drop_key, keys-table, get-table, delete-table, adjust-table, table_cong, ready-table,
  keep_cong, keep-true, keep-keep, keep-IsDistinct, blockers-keep-le, blockers-drop_key,
  blockers_pos, blockers-eq-length,
}

-- `in_degree[other] -= 1` where the degree is positive
decrement-table :
    (f : ℕ → ℕ) (other : ℕ) (ks : List ℕ)
    → contains other ks ≡ true
    → 0 < f other
    → decrement other (table f ks) ≡ ok (table (λ k. if nat_beq other k then f k - 1 else f k) ks)
unfolding decrement
decrement-table f other ks m pos =
    let n = f other - 1 in
    let found : get other (table f ks) ≡ some (suc n) = ground (arith, get-table f other ks) in
    let same : table (λ k. if nat_beq other k then n else f k) ks
        ≡ table (λ k. if nat_beq other k then f k - 1 else f k) ks =
      table_cong _ _ ks (λ k _. ground arith) in
    rw (found, decrement) (ap ok (adjust-table f other n ks ∙ same))

module _ (deps : ℕ → List ℕ) where
  -- One less for each resource of `es` that depends on `r`.
  abbrev released : ℕ → List ℕ → (ℕ → ℕ) → ℕ → ℕ
  released r es f k = f k - (if contains k es && contains r (deps k) then 1 else 0)

  release-table :
      (r : ℕ) (es : List ℕ) (f : ℕ → ℕ) (ks : List ℕ)
      → IsDistinct es
      → ((k : ℕ)
          → contains k es ≡ true
          → contains r (deps k) ≡ true
          → (contains k ks ≡ true) × (0 < f k))
      → release r (table deps es) (table f ks) ≡ ok (table (released r es f) ks)
  unfolding release
  release-table r [] f ks distinct h = ap ok (table_cong f _ ks (λ k _. omega arith))
  release-table r (e ∷ es) f ks distinct h = elim (Bool-cases (contains r (deps e))) [
    | inl dependent ↦
        let f1 = λ (k : ℕ). if nat_beq e k then f k - 1 else f k in
        let (m, pos) = h e (ground arith) dependent in
        rw (dependent, decrement-table f e ks m pos)
          (release-table r es f1 ks distinct.1 (λ k among d. ground (arith, h k))
            ∙ ap ok (table_cong _ _ ks (λ k _. ground arith)))
    | inr free ↦ rw free (
        release-table r es f ks distinct.1 (λ k among d. ground (arith, h k))
        ∙ ap ok (table_cong _ _ ks (λ k _. ground arith)))
  ]

  abbrev degrees : List ℕ → Dict ℕ
  degrees rem = table (λ k. blockers (deps k) rem) rem

  module _ (ks : List ℕ) (distinct : IsDistinct ks)
      (sets : (k : ℕ) → contains k ks ≡ true → IsDistinct (deps k)) where
    -- What is retired waits for no remaining resource.
    abbrev Settled : List ℕ → Type 0
    Settled rem =
        ((k : ℕ) → contains k rem ≡ true → contains k ks ≡ true)
        × ((k : ℕ) → contains k ks ≡ true → contains k rem ≡ false → blockers (deps k) rem ≡ 0)

    Settled-keep :
        (p : ℕ → Bool) (rem : List ℕ)
        → ((k : ℕ) → contains k rem ≡ true → p k ≡ false → blockers (deps k) rem ≡ 0)
        → Settled rem
        → Settled (keep p rem)
    Settled-keep p rem out (known, settled) = (
      λ k m. known k (ground (arith, contains-keep p k rem)),
      λ k among gone.
          ground
            (arith, contains-keep p k rem, blockers-keep-le p (deps k) rem, settled k among, out k),
    )

    retire-degrees :
        (r : ℕ) (rem : List ℕ)
        → contains r rem ≡ true
        → blockers (deps r) rem ≡ 0
        → Settled rem
        → retire r (table deps ks) (degrees rem) ≡ ok (degrees (drop_key r rem))
    unfolding retire
    retire-degrees r rem m free (known, settled) =
        let f = λ (k : ℕ). blockers (deps k) rem in
        rw (keys-table f rem, m, delete-table f r rem)
          (release-table r ks f (drop_key r rem) distinct (λ k among d. ground (
            arith,
            contains-keep (λ j. not (nat_beq r j)) k rem,
            blockers_pos r (deps k) rem d m,
            settled k among,
          ))
            ∙ ap ok (
                table_cong _ _ (drop_key r rem) (λ k left. ground (
                  arith,
                  contains-keep (λ j. not (nat_beq r j)) k rem,
                  known k,
                  blockers-drop_key r (deps k) rem
                      (sets k
                        (known k (ground (arith, contains-keep (λ j. not (nat_beq r j)) k rem))))
                      m,
                ))))

    retire_all-degrees :
        (batch rem : List ℕ)
        → IsDistinct batch
        → ((b : ℕ)
            → contains b batch ≡ true
            → (contains b rem ≡ true) × (blockers (deps b) rem ≡ 0))
        → Settled rem
        → retire_all batch (table deps ks) (degrees rem)
          ≡ ok (degrees (keep (λ k. not (contains k batch)) rem))
    unfolding retire_all
    retire_all-degrees [] rem apart free settled = ap (λ l. ok (degrees l)) (sym (keep-true rem))
    retire_all-degrees (r ∷ batch) rem apart free settled =
        let (m, zero_left) = free r (ground arith) in
        let fewer = drop_key r rem in
        rw (retire-degrees r rem m zero_left settled) (
          retire_all-degrees batch fewer apart.1
            (λ b among. (
              ground (arith, free b, contains-keep (λ j. not (nat_beq r j)) b rem),
              ground (arith, free b, blockers-keep-le (λ j. not (nat_beq r j)) (deps b) rem),
            ))
            (Settled-keep (λ j. not (nat_beq r j)) rem (λ k among gone. ground arith) settled)
          ∙ ap (λ l. ok (degrees l))
              (keep-keep (λ k. not (contains k batch)) (λ j. not (nat_beq r j)) rem
                ∙ keep_cong _ _ rem (λ k _. ground arith)))

    -- Without the free resources the others are left.
    batch_rest :
        (rem : List ℕ)
        → keep (λ k. not (contains k (keep (is_free deps rem) rem))) rem
          ≡ keep (λ k. not (is_free deps rem k)) rem
    batch_rest rem =
        keep_cong _ _ rem (λ k m. ground (arith, contains-keep (is_free deps rem) k rem))

    -- One round: the free resources leave, and the dictionary counts what is left.
    retire_batch :
        (rem : List ℕ) (b : ℕ) (batch : List ℕ)
        → keep (is_free deps rem) rem ≡ b ∷ batch
        → IsDistinct rem
        → Settled rem
        → retire_all (b ∷ batch) (table deps ks) (degrees rem)
          ≡ ok (degrees (keep (λ k. not (is_free deps rem k)) rem))
    retire_batch rem b batch e apart settled =
        let free = is_free deps rem in
        let rest : keep (λ k. not (contains k (b ∷ batch))) rem ≡ keep (λ k. not (free k)) rem =
          subst (λ l. keep (λ k. not (contains k l)) rem ≡ keep (λ k. not (free k)) rem) e
            (batch_rest rem) in
        let member : (c : ℕ) → contains c (b ∷ batch) ≡ true → contains c (keep free rem) ≡ true =
          λ c among. subst (λ l. contains c l ≡ true) (sym e) among in
        retire_all-degrees (b ∷ batch) rem (subst IsDistinct e (keep-IsDistinct free rem apart))
          (λ c among. (
            ground (arith, member c among, contains-keep free c rem),
            ground (arith, member c among, contains-keep free c rem),
          ))
          settled
        ∙ ap (λ l. ok (degrees l)) rest

    Settled-rest : (rem : List ℕ) → Settled rem → Settled (keep (λ k. not (is_free deps rem k)) rem)
    Settled-rest rem settled =
        Settled-keep (λ k. not (is_free deps rem k)) rem (λ k m out. ground arith) settled

    pub rounds-layers :
        (fuel : ℕ) (rem : List ℕ)
        → IsDistinct rem
        → Settled rem
        → rounds fuel (table deps ks) (degrees rem) ≡ layers deps fuel rem
    unfolding rounds layers
    rounds-layers zero [] apart settled = refl
    rounds-layers (suc fuel) [] apart settled = refl
    rounds-layers zero (k ∷ rem) apart settled = refl
    rounds-layers (suc fuel) (k ∷ rem) apart settled =
        let all : List ℕ = k ∷ rem in
        let free = is_free deps all in
        let rest = keep (λ j. not (free j)) all in
        rw (ready-table (λ j. blockers (deps j) all) all, rounds)
          (elim (List-cases (keep free all)) [
            | inl stuck ↦ rw (stuck, layers)
            | inr (b, batch, e) ↦
                rw (e, layers)
                  (ap
                      (λ o. o >>= λ next.
                        rounds fuel (table deps ks) next >>= λ batches. ok ((b ∷ batch) ∷ batches))
                      (retire_batch all b batch e apart settled)
                    ∙ ap (λ o. o >>= λ batches. ok ((b ∷ batch) ∷ batches))
                        (rounds-layers fuel rest (keep-IsDistinct (λ j. not (free j)) all apart)
                          (Settled-rest all settled)))
          ])

    initial_degrees-table :
        (js : List ℕ) → initial_degrees (table deps js) ≡ table (λ k. length (deps k)) js
    unfolding initial_degrees
    initial_degrees-table [] = refl
    initial_degrees-table (j ∷ js) =
        ap (λ (d : Dict ℕ). (j, length (deps j)) ∷ d) (initial_degrees-table js)

    length-table : (js : List ℕ) → length (table deps js) ≡ length js
    length-table [] = refl
    length-table (j ∷ js) = ap suc (length-table js)

    -- With every dependency among the keys, the algorithm computes the layers.
    pub execution_order-layers :
        ((k d : ℕ) → contains k ks ≡ true → contains d (deps k) ≡ true → contains d ks ≡ true)
        → execution_order (table deps ks) ≡ layers deps (length ks) ks
    unfolding execution_order
    execution_order-layers closed =
        rw (initial_degrees-table ks, length-table ks)
          (ap (rounds (length ks) (table deps ks)) (
              table_cong _ _ ks
                (λ k m. sym (blockers-eq-length (deps k) ks (λ d among. closed k d m among))))
            ∙ rounds-layers (length ks) ks distinct (λ k m. m, λ k m gone. cc))
