-- ===== src/Orchestration/Lineage/Schedule/Counts.antt =====
-- Dictionaries that are the table of a function over their keys, and the count of blockers.
use optaic_trading.Prelude.{
  ℕ, ◌+◌, ◌≤◌, ◌<◌, ◌≡◌, inl, inr, Bool, true, not, ◌&&◌, List, [], ◌∷◌, keep, contains,
  contains-keep, length, none, some, if◌then◌else◌, nat_beq, IsDistinct, arith, refl, ap,
  Bool-cases,
}
use optaic_trading.Prelude.Dict.{Dict, keys, get, adjust, delete}
use optaic_trading.Orchestration.Lineage.Schedule.{ready}
use optaic_trading.Orchestration.Lineage.Schedule.Layers.{blockers}

abbrev pub table {ℓ} : {V : Type ℓ} → (ℕ → V) → List ℕ → Dict V
table f [] = []
table f (k ∷ ks) = (k, f k) ∷ table f ks

abbrev pub drop_key : ℕ → List ℕ → List ℕ
drop_key r = keep (λ k. not (nat_beq r k))

module _ {ℓ} {V : Type ℓ} (f : ℕ → V) where
  pub keys-table : (ks : List ℕ) → keys (table f ks) ≡ ks
  keys-table [] = refl
  keys-table (k ∷ ks) = ap (λ (l : List ℕ). k ∷ l) (keys-table ks)

  pub get-table :
      (k : ℕ) (ks : List ℕ) → get k (table f ks) ≡ (if contains k ks then some (f k) else none)
  get-table k [] = refl
  get-table k (j ∷ ks) = ground (arith, get-table k ks)

  pub delete-table : (r : ℕ) (ks : List ℕ) → delete r (table f ks) ≡ table f (drop_key r ks)
  delete-table r [] = refl
  delete-table r (k ∷ ks) = ground (arith, delete-table r ks)

  pub adjust-table :
      (r : ℕ) (v : V) (ks : List ℕ)
      → adjust r (λ _. v) (table f ks) ≡ table (λ k. if nat_beq r k then v else f k) ks
  adjust-table r v [] = refl
  adjust-table r v (k ∷ ks) =
      ap (λ (l : Dict V). (k, if nat_beq r k then v else f k) ∷ l) (adjust-table r v ks)

pub table_cong {ℓ} :
    {V : Type ℓ} (f g : ℕ → V) (ks : List ℕ)
    → ((k : ℕ) → contains k ks ≡ true → f k ≡ g k)
    → table f ks ≡ table g ks
table_cong f g [] h = refl
table_cong f g (k ∷ ks) h = ground (arith, h k, table_cong f g ks (λ j m. h j (ground arith)))

pub ready-table : (f : ℕ → ℕ) (ks : List ℕ) → ready (table f ks) ≡ keep (λ k. nat_beq (f k) 0) ks
unfolding ready
ready-table f [] = refl
ready-table f (k ∷ ks) = ground (arith, ready-table f ks)

pub keep_cong :
    (p q : ℕ → Bool) (ks : List ℕ)
    → ((k : ℕ) → contains k ks ≡ true → p k ≡ q k)
    → keep p ks ≡ keep q ks
keep_cong p q [] h = refl
keep_cong p q (k ∷ ks) h = ground (arith, h k, keep_cong p q ks (λ j m. h j (ground arith)))

pub keep-true : (ks : List ℕ) → keep (λ _. true) ks ≡ ks
keep-true [] = refl
keep-true (k ∷ ks) = ap (λ (l : List ℕ). k ∷ l) (keep-true ks)

pub keep-keep : (p q : ℕ → Bool) (ks : List ℕ) → keep p (keep q ks) ≡ keep (λ k. p k && q k) ks
keep-keep p q [] = refl
keep-keep p q (k ∷ ks) = ground (arith, keep-keep p q ks)

pub keep-IsDistinct : (p : ℕ → Bool) (ks : List ℕ) → IsDistinct ks → IsDistinct (keep p ks)
keep-IsDistinct p [] h = tt
keep-IsDistinct p (k ∷ ks) h = ground (arith, contains-keep p k ks, keep-IsDistinct p ks)

pub length-keep_split :
    (p : ℕ → Bool) (ks : List ℕ)
    → length (keep p ks) + length (keep (λ k. not (p k)) ks) ≡ length ks
length-keep_split p [] = refl
length-keep_split p (k ∷ ks) = ground (arith, length-keep_split p ks)

-- Blockers among fewer resources.
pub blockers-keep-le : (p : ℕ → Bool) (ds rem : List ℕ) → blockers ds (keep p rem) ≤ blockers ds rem
blockers-keep-le p [] rem = omega arith
blockers-keep-le p (d ∷ ds) rem = ground (arith, contains-keep p d rem, blockers-keep-le p ds rem)

pub blockers-drop_key :
    (r : ℕ) (ds rem : List ℕ)
    → IsDistinct ds
    → contains r rem ≡ true
    → blockers ds (drop_key r rem) + (if contains r ds then 1 else 0) ≡ blockers ds rem
blockers-drop_key r [] rem h m = refl
blockers-drop_key r (d ∷ ds) rem h m =
    ground (arith, contains-keep (λ k. not (nat_beq r k)) d rem, blockers-drop_key r ds rem h.1 m)

pub blockers_pos :
    (d : ℕ) (ds rem : List ℕ) → contains d ds ≡ true → contains d rem ≡ true → 0 < blockers ds rem
blockers_pos d [] rem h m = cc
blockers_pos d (e ∷ ds) rem h m = ground (arith, blockers_pos d ds rem)

-- A blocker can be named.
pub blocker_of_pos :
    (ds rem : List ℕ)
    → 0 < blockers ds rem
    → (d : ℕ) × (contains d ds ≡ true) × (contains d rem ≡ true)
blocker_of_pos [] rem h = absurd (omega arith)
blocker_of_pos (e ∷ ds) rem h = elim (Bool-cases (contains e rem)) [
  | inl m ↦ (e, ground arith, m)
  | inr absent ↦ let (d, among, m) = blocker_of_pos ds rem (ground arith) in (d, ground arith, m)
]

-- With all dependencies among the resources, every dependency counts.
pub blockers-eq-length :
    (ds rem : List ℕ)
    → ((d : ℕ) → contains d ds ≡ true → contains d rem ≡ true)
    → blockers ds rem ≡ length ds
blockers-eq-length [] rem h = refl
blockers-eq-length (d ∷ ds) rem h =
    ground (arith, h d, blockers-eq-length ds rem (λ e m. h e (ground arith)))
