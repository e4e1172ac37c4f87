-- ===== src/Database.antt =====
-- The database session that the services under libs/ query. SQLAlchemy and the database are not
-- part of the repository. A `select` with a `where` clause and no `order_by` returns the rows
-- that satisfy the clause in an order that the database chooses, and that choice is a parameter.
use mathlib.Core.List.{Perm, Permᴰ}
use mathlib.Core.List.Perm
use mathlib.Core.Logic.{∥∥₁_elim}
use mathlib.Core.Bool.{Bool-set}
use native.Mathlib.Nat.{ℕ_set}
use optaic_trading.Prelude.{
  ℕ, suc, ◌≡◌, Bool, List, [], ◌∷◌, map, length, ap, ◌∙◌, arith, contains, any, nat_beq, refl, ◌||◌,
}

-- The order in which the database returns the rows that a query selects.
pub record Arrangement {ℓ} (Row : Type ℓ) : Type ℓ where
  pub arrange : List Row → List Row
  pub arrange_perm : (rows : List Row) → Perm (arrange rows) rows

-- The rows as they are stored.
abbrev pub stored {ℓ} : {Row : Type ℓ} → Arrangement Row
stored = record { arrange = λ rows. rows; arrange_perm = λ rows. Perm.refl rows }

module _ {ℓ} {A : Type ℓ} where
  any-permᴰ : (p : A → Bool) {xs ys : List A} → Permᴰ xs ys → any p xs ≡ any p ys
  any-permᴰ p Permᴰ.nil = refl
  any-permᴰ p (Permᴰ.cons e h) = rw (e, any-permᴰ p h)
  any-permᴰ p (Permᴰ.swap {a} {b} e f) = rw (e, f) (ground arith)
  any-permᴰ p (Permᴰ.trans h k) = any-permᴰ p h ∙ any-permᴰ p k

  length-permᴰ : {xs ys : List A} → Permᴰ xs ys → length xs ≡ length ys
  length-permᴰ Permᴰ.nil = refl
  length-permᴰ (Permᴰ.cons e h) = ap suc (length-permᴰ h)
  length-permᴰ (Permᴰ.swap e f) = refl
  length-permᴰ (Permᴰ.trans h k) = length-permᴰ h ∙ length-permᴰ k

  pub any-perm : (p : A → Bool) {xs ys : List A} → Perm xs ys → any p xs ≡ any p ys
  any-perm p h = ∥∥₁_elim h (Bool-set _ _) (any-permᴰ p)

  pub length-perm : {xs ys : List A} → Perm xs ys → length xs ≡ length ys
  length-perm h = ∥∥₁_elim h (ℕ_set _ _) length-permᴰ

  pub contains-map :
      (a : ℕ) (f : A → ℕ) (xs : List A) → contains a (map f xs) ≡ any (λ x. nat_beq a (f x)) xs
  contains-map a f [] = refl
  contains-map a f (x ∷ xs) = ap (λ b. nat_beq a (f x) || b) (contains-map a f xs)
