-- ===== src/Base/Index.antt =====
-- Reading and writing a list at an index.
use Prim.Native.Nat.{ℕ, zero, suc, ◌+◌, ◌≤◌}
use mathlib.Core.Path.{◌≡◌, refl}
use mathlib.Core.Option.{Option, none, some}
use mathlib.Core.List.{List, [], ◌∷◌}
use native.Mathlib.Omega.{arith}
use lymbo.Base.Tests.{if◌then◌else◌, nat_eq}

module _ {ℓ} {A : Type ℓ} where
  unfoldable pub get_elem? : List A → ℕ → Option A
  get_elem? [] i = none
  get_elem? (x ∷ xs) zero = some x
  get_elem? (x ∷ xs) (suc i) = get_elem? xs i

  -- A write out of bounds changes nothing.
  unfoldable pub set : List A → ℕ → A → List A
  set [] i v = []
  set (x ∷ xs) zero v = v ∷ xs
  set (x ∷ xs) (suc i) v = x ∷ set xs i v

  -- The sum of a measure.
  unfoldable pub total : (A → ℕ) → List A → ℕ
  total f [] = 0
  total f (x ∷ xs) = f x + total f xs

  pub total-set :
      (f : A → ℕ) (xs : List A) (i : ℕ) (p q : A)
      → get_elem? xs i ≡ some p
      → total f (set xs i q) + f p ≡ total f xs + f q
  unfolding total get_elem? set
  total-set f [] i p q e = ground arith
  total-set f (x ∷ xs) zero p q e = ground arith
  total-set f (x ∷ xs) (suc i) p q e = omega (arith, total-set f xs i p q e)

  pub le-total :
      (f : A → ℕ) (xs : List A) (i : ℕ) (p : A) → get_elem? xs i ≡ some p → f p ≤ total f xs
  unfolding total get_elem?
  le-total f [] i p e = ground arith
  le-total f (x ∷ xs) zero p e = ground arith
  le-total f (x ∷ xs) (suc i) p e = omega (arith, le-total f xs i p e)

  pub get_elem?-set :
      (xs : List A) (i j : ℕ) (p q v : A)
      → get_elem? xs i ≡ some p
      → get_elem? xs j ≡ some q
      → get_elem? (set xs i v) j ≡ (if nat_eq i j then some v else some q)
  unfolding get_elem? set
  get_elem?-set [] i j p q v e h = ground arith
  get_elem?-set (x ∷ xs) zero zero p q v e h = refl
  get_elem?-set (x ∷ xs) zero (suc j) p q v e h = ground arith
  get_elem?-set (x ∷ xs) (suc i) zero p q v e h = ground arith
  get_elem?-set (x ∷ xs) (suc i) (suc j) p q v e h = ground (arith, get_elem?-set xs i j p q v)
