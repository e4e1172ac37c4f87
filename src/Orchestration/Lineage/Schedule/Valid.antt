-- ===== src/Orchestration/Lineage/Schedule/Valid.antt =====
-- What the layers are: each resource once, behind its dependencies, unless there is a knot.
use optaic_trading.Prelude.{
  ok, err, ◌>>=◌, >>=-eq-ok, ℕ, zero, suc, ◌≤◌, ◌<◌, ◌≡◌, ◌≢◌, ◌⊎◌, inl, inr, Bool, true, false,
  not, ◌&&◌, ◌||◌, List, [], ◌∷◌, ◌++◌, keep, contains, contains-keep, contains-append, length,
  IsDistinct, arith, refl, List-cases, subst, sym, ap, ◌∙◌, concat,
}
use optaic_trading.Orchestration.Lineage.Schedule.{cycle_detected}
use optaic_trading.Orchestration.Lineage.Schedule.Layers.{is_free, layers}
use optaic_trading.Orchestration.Lineage.Schedule.Counts.{
  keep-IsDistinct, blockers_pos, blocker_of_pos, length-keep_split,
}

-- Each resource of a batch depends only on `seen` and on resources of earlier batches.
abbrev pub IsStaged : (ℕ → ℕ → Bool) → List ℕ → List (List ℕ) → Type 0
IsStaged link seen [] = Unit
IsStaged link seen (batch ∷ batches) =
    ((r d : ℕ) → contains r batch ≡ true → link r d ≡ true → contains d seen ≡ true)
    × IsStaged link (seen ++ batch) batches

-- Resources, at least one, of which each depends on one of them: they wait for one another.
abbrev pub Knot : (ℕ → ℕ → Bool) → List ℕ → Type 0
Knot link knot =
    (knot ≢ [])
    × ((k : ℕ) → contains k knot ≡ true → (d : ℕ) × (link k d ≡ true) × (contains d knot ≡ true))

abbrev pub Within : List ℕ → List ℕ → Type 0
Within xs ys = (k : ℕ) → contains k xs ≡ true → contains k ys ≡ true

append-IsDistinct :
    (xs ys : List ℕ)
    → IsDistinct xs
    → IsDistinct ys
    → ((k : ℕ) → contains k xs ≡ true → contains k ys ≡ false)
    → IsDistinct (xs ++ ys)
append-IsDistinct [] ys h g apart = g
append-IsDistinct (x ∷ xs) ys h g apart = (
  ground (arith, contains-append x xs ys, apart x),
  append-IsDistinct xs ys h.1 g (λ k m. apart k (ground arith)),
)

module _ (deps : ℕ → List ℕ) where
  abbrev pub link : ℕ → ℕ → Bool
  link k d = contains d (deps k)

  abbrev rest_of : List ℕ → List ℕ
  rest_of rem = keep (λ k. not (is_free deps rem k)) rem

  rest_shorter :
      (rem : List ℕ) (b : ℕ) (batch : List ℕ)
      → keep (is_free deps rem) rem ≡ b ∷ batch
      → length (rest_of rem) < length rem
  rest_shorter rem b batch e = omega (arith, length-keep_split (is_free deps rem) rem, ap length e)

  layers_step :
      (fuel k : ℕ) (rem : List ℕ) (b : ℕ) (batch : List ℕ)
      → keep (is_free deps (k ∷ rem)) (k ∷ rem) ≡ b ∷ batch
      → layers deps (suc fuel) (k ∷ rem)
        ≡ (layers deps fuel (rest_of (k ∷ rem)) >>= λ batches. ok ((b ∷ batch) ∷ batches))
  unfolding layers
  layers_step fuel k rem b batch e = rw (e, layers)

  layers_stuck :
      (fuel k : ℕ) (rem : List ℕ)
      → keep (is_free deps (k ∷ rem)) (k ∷ rem) ≡ []
      → layers deps (suc fuel) (k ∷ rem) ≡ err cycle_detected
  unfolding layers
  layers_stuck fuel k rem e = rw (e, layers)

  -- With no free resource, all of the remaining ones are a knot.
  stuck-Knot : (rem : List ℕ) → rem ≢ [] → keep (is_free deps rem) rem ≡ [] → Knot link rem
  stuck-Knot rem some_left e = (
    some_left,
    λ k m.
        let none_free : contains k (keep (is_free deps rem) rem) ≡ false =
          subst (λ l. contains k l ≡ false) (sym e) refl in
        blocker_of_pos (deps k) rem
          (ground (arith, none_free, contains-keep (is_free deps rem) k rem)),
  )

  -- With enough fuel there are layers, or a knot.
  pub layers_cases :
      (fuel : ℕ) (rem : List ℕ)
      → length rem ≤ fuel
      → ((batches : List (List ℕ)) × (layers deps fuel rem ≡ ok batches))
        ⊎ ((knot : List ℕ) × (layers deps fuel rem ≡ err cycle_detected)
            × Within knot rem
            × Knot link knot)
  unfolding layers
  layers_cases zero [] h = inl ([], refl)
  layers_cases (suc fuel) [] h = inl ([], refl)
  layers_cases zero (k ∷ rem) h = absurd (omega arith)
  layers_cases (suc fuel) (k ∷ rem) h =
      let all : List ℕ = k ∷ rem in
      let free = is_free deps all in
      elim (List-cases (keep free all)) [
        | inl stuck ↦
            inr (all, layers_stuck fuel k rem stuck, λ j m. m, stuck-Knot all (λ e. cc) stuck)
        | inr (b, batch, e) ↦
            elim (layers_cases fuel (rest_of all) (omega (arith, rest_shorter all b batch e))) [
              | inl (batches, done) ↦
                  inl ((b ∷ batch) ∷ batches, rw (layers_step fuel k rem b batch e, done))
              | inr (knot, failed, inside, tied) ↦ inr (
                knot,
                rw (layers_step fuel k rem b batch e, failed),
                λ j m. ground (arith, inside j m, contains-keep (λ i. not (free i)) j all),
                tied,
              )
            ]
      ]

  -- A successful round, taken apart.
  layers-eq-ok :
      (fuel k : ℕ) (rem : List ℕ) (batches : List (List ℕ))
      → layers deps (suc fuel) (k ∷ rem) ≡ ok batches
      → (later : List (List ℕ)) × (layers deps fuel (rest_of (k ∷ rem)) ≡ ok later)
        × (batches ≡ keep (is_free deps (k ∷ rem)) (k ∷ rem) ∷ later)
  layers-eq-ok fuel k rem batches h =
      let all : List ℕ = k ∷ rem in
      elim (List-cases (keep (is_free deps all) all)) [
        | inl stuck ↦ cc (layers_stuck fuel k rem stuck)
        | inr (b, batch, e) ↦
            let (later, done, same) =
              >>=-eq-ok (layers deps fuel (rest_of all)) (λ l. ok ((b ∷ batch) ∷ l))
                (sym (layers_step fuel k rem b batch e) ∙ h) in
            (later, done, ground arith)
      ]

  pub record Valid (seen rem : List ℕ) (batches : List (List ℕ)) : Type 0 where
    pub staged : IsStaged link seen batches
    pub each : (k : ℕ) → contains k (concat batches) ≡ contains k rem
    pub once : IsDistinct (concat batches)

  abbrev pub Closed : List ℕ → List ℕ → Type 0
  Closed seen rem =
      (k d : ℕ)
      → contains k rem ≡ true
      → contains d (deps k) ≡ true
      → (contains d rem || contains d seen) ≡ true

  abbrev batch_of : List ℕ → List ℕ
  batch_of rem = keep (is_free deps rem) rem

  contains-batch :
      (j : ℕ) (rem : List ℕ) → contains j (batch_of rem) ≡ (is_free deps rem j && contains j rem)
  contains-batch j rem = contains-keep (is_free deps rem) j rem

  contains-rest :
      (j : ℕ) (rem : List ℕ)
      → contains j (rest_of rem) ≡ (not (is_free deps rem j) && contains j rem)
  contains-rest j rem = contains-keep (λ k. not (is_free deps rem k)) j rem

  Closed-rest : (seen rem : List ℕ) → Closed seen rem → Closed (seen ++ batch_of rem) (rest_of rem)
  Closed-rest seen rem closed k d m l = ground (
    arith,
    contains-rest k rem,
    contains-rest d rem,
    contains-append d seen (batch_of rem),
    contains-batch d rem,
    closed k d,
  )

  -- A round puts its batch in front of the batches of the rest.
  Valid-cons :
      (seen rem : List ℕ) (later : List (List ℕ))
      → IsDistinct rem
      → Closed seen rem
      → Valid (seen ++ batch_of rem) (rest_of rem) later
      → Valid seen rem (batch_of rem ∷ later)
  Valid-cons seen rem later apart closed tail = record {
    staged = (
      λ r d m l. ground (arith, contains-batch r rem, blockers_pos d (deps r) rem l, closed r d),
      tail.staged,
    );
    each = λ j. ground (
      arith,
      contains-append j (batch_of rem) (concat later),
      tail.each j,
      contains-batch j rem,
      contains-rest j rem,
    );
    once =
        append-IsDistinct (batch_of rem) (concat later)
          (keep-IsDistinct (is_free deps rem) rem apart) tail.once
          (λ j m. ground (arith, tail.each j, contains-batch j rem, contains-rest j rem));
  }

  pub layers-Valid :
      (fuel : ℕ) (seen rem : List ℕ) (batches : List (List ℕ))
      → IsDistinct rem
      → Closed seen rem
      → layers deps fuel rem ≡ ok batches
      → Valid seen rem batches
  unfolding layers
  layers-Valid zero seen [] batches apart closed h =
      let none_left : [] ≡ batches = cc in
      subst (Valid seen []) none_left (record { staged = tt; each = λ k. refl; once = tt })
  layers-Valid (suc fuel) seen [] batches apart closed h =
      let none_left : [] ≡ batches = cc in
      subst (Valid seen []) none_left (record { staged = tt; each = λ k. refl; once = tt })
  layers-Valid zero seen (k ∷ rem) batches apart closed h = cc
  layers-Valid (suc fuel) seen (k ∷ rem) batches apart closed h =
      let all : List ℕ = k ∷ rem in
      let (later, done, same) = layers-eq-ok fuel k rem batches h in
      subst (Valid seen all) (sym same) (
        Valid-cons seen all later apart closed (
          layers-Valid fuel (seen ++ batch_of all) (rest_of all) later
            (keep-IsDistinct (λ j. not (is_free deps all j)) all apart)
            (Closed-rest seen all closed) done))

  -- No resource of a knot is free.
  Knot-rest : (rem knot : List ℕ) → Within knot rem → Knot link knot → Within knot (rest_of rem)
  Knot-rest rem knot inside tied j m =
      let (d, l, among) = tied.1 j m in
      ground
        (arith, contains-rest j rem, inside j m, blockers_pos d (deps j) rem l (inside d among))

  not-Knot-nil : (knot : List ℕ) → Within knot [] → ¬ Knot link knot
  not-Knot-nil [] inside tied = tied.0 refl
  not-Knot-nil (k ∷ knot) inside tied = cc (inside k (ground arith))

  -- Where there are layers there is no knot.
  pub no-Knot :
      (fuel : ℕ) (rem : List ℕ) (batches : List (List ℕ)) (knot : List ℕ)
      → layers deps fuel rem ≡ ok batches
      → Within knot rem
      → ¬ Knot link knot
  unfolding layers
  no-Knot zero [] batches knot h inside tied = not-Knot-nil knot inside tied
  no-Knot (suc fuel) [] batches knot h inside tied = not-Knot-nil knot inside tied
  no-Knot zero (k ∷ rem) batches knot h inside tied = cc
  no-Knot (suc fuel) (k ∷ rem) batches knot h inside tied =
      let all : List ℕ = k ∷ rem in
      let (later, done, same) = layers-eq-ok fuel k rem batches h in
      no-Knot fuel (rest_of all) later knot done (Knot-rest all knot inside tied) tied
