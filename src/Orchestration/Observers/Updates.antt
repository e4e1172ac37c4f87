-- ===== src/Orchestration/Observers/Updates.antt =====
-- An update of one instance, and the list of instances that the loop has updated.
use optaic_trading.Prelude.{
  ℕ, ◌≡◌, Bool, true, false, ◌&&◌, ◌||◌, Option, none, some, List, [], ◌∷◌, all, contains,
  contains-append, String, string_eq, nat_beq, nat_beq_iff, if◌then◌else◌, arith, refl, ap, ◌∙◌,
  Bool-cases, inl, inr,
}
use optaic_trading.Prelude.Dict.{Dict, get, put, get-put}
use optaic_trading.Orchestration.Lineage.Propagation.{
  Instance, Instances, or_empty, is_ready_in, with_status,
}
use optaic_trading.Orchestration.Observers.{add_if}

put_again {ℓ} : {V : Type ℓ} (k : ℕ) (v : V) (d : Dict V) → put k v (put k v d) ≡ put k v d
put_again k v [] = ground arith
put_again k v ((j, w) ∷ d) = elim (Bool-cases (nat_beq k j)) [
  | inl here ↦ simp (here) refl
  | inr there ↦ simp (there) (ap (λ l. (j, w) ∷ l) (put_again k v d))
]

with_status_again :
    (u : ℕ) (status : String) (found : Instance)
    → with_status u status (with_status u status found) ≡ with_status u status found
with_status_again u status found =
    ap (λ (d : Dict String). record found { upstream_status = some d })
      (put_again u status (or_empty found.upstream_status))

module _ (u : ℕ) where
  abbrev pub updated : Option Instance → Option Instance
  updated none = none
  updated (some found) = some (with_status u "ready" found)

  -- The instance as the loop leaves it
  abbrev pub expected : ℕ → List ℕ → Instances → Option Instance
  expected j ids instances = if contains j ids then updated (get j instances) else get j instances

  -- Whether an instance is there and ready once it has the update
  abbrev pub is_ready_after : Option Instance → Bool
  is_ready_after none = false
  is_ready_after (some found) =
      all (is_ready_in (put u "ready" (or_empty found.upstream_status)))
        (or_empty found.upstream_resource_ids)

  updated_again : (o : Option Instance) → updated (updated o) ≡ updated o
  updated_again none = refl
  updated_again (some found) = ap (λ (i : Instance). some i) (with_status_again u "ready" found)

  is_ready_after-updated : (o : Option Instance) → is_ready_after (updated o) ≡ is_ready_after o
  is_ready_after-updated none = refl
  is_ready_after-updated (some found) =
      ap (λ (d : Dict String). all (is_ready_in d) (or_empty found.upstream_resource_ids))
        (put_again u "ready" (or_empty found.upstream_status))

  pub contains-add_if :
      (v id : ℕ) (b : Bool) (ids : List ℕ)
      → contains v (add_if b id ids) ≡ (contains v ids || (nat_beq v id && b))
  contains-add_if v id true ids = contains-append v ids (id ∷ []) ∙ ground arith
  contains-add_if v id false ids = ground arith

  get-updated :
      (j id : ℕ) (found : Instance) (instances : Instances)
      → get id instances ≡ some found
      → get j (put id (with_status u "ready" found) instances)
        ≡ (if nat_beq j id then updated (get j instances) else get j instances)
  get-updated j id found instances here = elim (Bool-cases (nat_beq j id)) [
    | inl same ↦
        let is : j ≡ id = (nat_beq_iff j id).0 same in
        let at : get j instances ≡ some found = ap (λ (i : ℕ). get i instances) is ∙ here in
        get-put j id (with_status u "ready" found) instances ∙ simp (same, at) refl
    | inr other ↦ get-put j id (with_status u "ready" found) instances ∙ simp (other) refl
  ]

  -- The first instance of the list, and the rest
  pub expected-cons :
      (j id : ℕ) (ids : List ℕ) (found : Instance) (instances : Instances)
      → get id instances ≡ some found
      → expected j ids (put id (with_status u "ready" found) instances)
        ≡ expected j (id ∷ ids) instances
  expected-cons j id ids found instances here =
      let at = get-updated j id found instances here in
      elim (Bool-cases (nat_beq j id)) [
        | inl same ↦ elim (Bool-cases (contains j ids)) [
          | inl later ↦ simp (same, later, at) (updated_again (get j instances))
          | inr once ↦ simp (same, once, at) refl
        ]
        | inr other ↦ elim (Bool-cases (contains j ids)) [
          | inl later ↦ simp (other, later, at) refl
          | inr never ↦ simp (other, never, at) refl
        ]
      ]

  pub expected-absent :
      (j id : ℕ) (ids : List ℕ) (instances : Instances)
      → get id instances ≡ none
      → expected j ids instances ≡ expected j (id ∷ ids) instances
  expected-absent j id ids instances absent = elim (Bool-cases (nat_beq j id)) [
    | inl same ↦
        let at : get j instances ≡ none =
          ap (λ (i : ℕ). get i instances) ((nat_beq_iff j id).0 same) ∙ absent in
        simp (same, at)
          (elim (Bool-cases (contains j ids)) [ inl e ↦ simp (e) refl | inr e ↦ simp (e) refl ])
    | inr other ↦ simp (other) refl
  ]

  pub is_ready_after-put :
      (v id : ℕ) (found : Instance) (instances : Instances)
      → get id instances ≡ some found
      → is_ready_after (get v (put id (with_status u "ready" found) instances))
        ≡ is_ready_after (get v instances)
  is_ready_after-put v id found instances here =
      let at = get-updated v id found instances here in
      elim (Bool-cases (nat_beq v id)) [
        | inl same ↦ simp (same, at) (is_ready_after-updated (get v instances))
        | inr other ↦ simp (other, at) refl
      ]
