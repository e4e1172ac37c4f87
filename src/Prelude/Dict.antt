-- ===== src/Prelude/Dict.antt =====
-- Dictionaries keyed by identifiers, as lists of entries in the order of insertion.
use optaic_trading.Prelude.{
  ℕ, ◌≡◌, true, false, ◌||◌, Option, none, some, List, [], ◌∷◌, nat_beq, if◌then◌else◌, contains,
  IsDistinct, arith, refl, ap, Bool-cases, inl, inr,
}

abbrev pub Dict {ℓ} : Type ℓ → Type ℓ
Dict V = List (ℕ × V)

module _ {ℓ} {V : Type ℓ} where
  abbrev pub keys : Dict V → List ℕ
  keys [] = []
  keys ((k, v) ∷ d) = k ∷ keys d

  -- `d.get(k)`
  abbrev pub get : ℕ → Dict V → Option V
  get k [] = none
  get k ((j, v) ∷ d) = if nat_beq k j then some v else get k d

  -- `d[k] = v`: a new key goes to the end.
  abbrev pub put : ℕ → V → Dict V → Dict V
  put k v [] = (k, v) ∷ []
  put k v ((j, w) ∷ d) = if nat_beq k j then (j, v) ∷ d else (j, w) ∷ put k v d

  -- `d[k] = f(d[k])` for a key of the dictionary
  abbrev pub adjust : ℕ → (V → V) → Dict V → Dict V
  adjust k f [] = []
  adjust k f ((j, v) ∷ d) = (j, if nat_beq k j then f v else v) ∷ adjust k f d

  -- `del d[k]` for a key of the dictionary
  abbrev pub delete : ℕ → Dict V → Dict V
  delete k [] = []
  delete k ((j, v) ∷ d) = if nat_beq k j then delete k d else (j, v) ∷ delete k d

  pub get-put :
      (j k : ℕ) (v : V) (d : Dict V) → get j (put k v d) ≡ (if nat_beq j k then some v else get j d)
  get-put j k v [] = refl
  get-put j k v ((i, w) ∷ d) = ground (arith, get-put j k v d)

  pub contains-keys-put :
      (j k : ℕ) (v : V) (d : Dict V)
      → contains j (keys (put k v d)) ≡ (nat_beq j k || contains j (keys d))
  contains-keys-put j k v [] = refl
  contains-keys-put j k v ((i, w) ∷ d) = ground (arith, contains-keys-put j k v d)

  pub keys-put-IsDistinct :
      (k : ℕ) (v : V) (d : Dict V) → IsDistinct (keys d) → IsDistinct (keys (put k v d))
  keys-put-IsDistinct k v [] h = (refl, tt)
  keys-put-IsDistinct k v ((j, w) ∷ d) h =
      ground (arith, contains-keys-put j k v d, keys-put-IsDistinct k v d)

  pub keys-adjust : (k : ℕ) (f : V → V) (d : Dict V) → keys (adjust k f d) ≡ keys d
  keys-adjust k f [] = refl
  keys-adjust k f ((j, v) ∷ d) = ap (λ (l : List ℕ). j ∷ l) (keys-adjust k f d)

  pub get-adjust_ne :
      (j k : ℕ) (f : V → V) (d : Dict V) → nat_beq j k ≡ false → get j (adjust k f d) ≡ get j d
  get-adjust_ne j k f [] h = refl
  get-adjust_ne j k f ((i, v) ∷ d) h = ground (arith, get-adjust_ne j k f d)

  pub get-adjust_self :
      (k : ℕ) (f : V → V) (v : V) (d : Dict V)
      → get k d ≡ some v
      → get k (adjust k f d) ≡ some (f v)
  get-adjust_self k f v [] h = cc
  get-adjust_self k f v ((i, w) ∷ d) h = ground (arith, get-adjust_self k f v d)

  pub get-none_of_not_key : (k : ℕ) (d : Dict V) → contains k (keys d) ≡ false → get k d ≡ none
  get-none_of_not_key k [] h = refl
  get-none_of_not_key k ((j, v) ∷ d) h = ground (arith, get-none_of_not_key k d)

  pub get-some_of_key :
      (k : ℕ) (d : Dict V) → contains k (keys d) ≡ true → (v : V) × (get k d ≡ some v)
  get-some_of_key k [] h = cc
  get-some_of_key k ((j, v) ∷ d) h = elim (Bool-cases (nat_beq k j)) [
    | inl here ↦ (v, rw here)
    | inr there ↦ let (w, found) = get-some_of_key k d (ground arith) in (w, rw there found)
  ]
