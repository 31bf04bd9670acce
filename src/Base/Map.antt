-- ===== src/Base/Map.antt =====
-- Go's `map[string]V` as an association list. A write replaces the entry of its key, so the keys
-- stay distinct; the order of the entries stands for nothing.
use Prim.Native.Nat.{◌+◌}
use Prim.Native.String.{String}
use mathlib.Core.Path.{◌≡◌, refl}
use mathlib.Core.Bool.{Bool, false, ◌&&◌}
use mathlib.Core.Option.{Option, none, some}
use mathlib.Core.List.{List, [], ◌∷◌}
use native.Mathlib.Omega.{arith}
use text.Mathlib.TextEquality.{eq_iff}
use lymbo.Base.Lists.{any, length}
use lymbo.Base.Tests.{if◌then◌else◌}
use lymbo.Base.Text.{◌==◌}

module _ {ℓ} {V : Type ℓ} where
  -- v, ok := m[k]
  unfoldable pub lookup : String → List (String × V) → Option V
  lookup k [] = none
  lookup k ((j, v) ∷ m) = if j == k then some v else lookup k m

  -- m[k] = v
  unfoldable pub insert : String → V → List (String × V) → List (String × V)
  insert k v [] = (k, v) ∷ []
  insert k v ((j, w) ∷ m) = if j == k then (k, v) ∷ m else (j, w) ∷ insert k v m

  -- delete(m, k)
  unfoldable pub remove : String → List (String × V) → List (String × V)
  remove k [] = []
  remove k ((j, v) ∷ m) = let rest = remove k m in if j == k then rest else (j, v) ∷ rest

  -- No key stands twice.
  abbrev pub IsMap : List (String × V) → Type ℓ
  IsMap [] = Unit
  IsMap ((k, v) ∷ m) = (lookup k m ≡ none) × IsMap m

  -- An insertion is read back at its key and nowhere else.
  pub lookup-insert :
      (key other : String) (new : V) (entries : List (String × V))
      → lookup other (insert key new entries)
        ≡ (if key == other then some new else lookup other entries)
  unfolding lookup insert
  lookup-insert key other new [] = refl
  lookup-insert key other new ((first, old) ∷ rest) = ground (
    arith,
    lookup-insert key other new rest,
    eq_iff first other,
    eq_iff first key,
    eq_iff key other,
  )

  pub lookup-remove :
      (k j : String) (m : List (String × V))
      → lookup j (remove k m) ≡ (if k == j then none else lookup j m)
  unfolding lookup remove
  lookup-remove k j [] = ground arith
  lookup-remove k j ((i, w) ∷ m) =
      ground (arith, eq_iff k j, eq_iff i k, eq_iff i j, lookup-remove k j m)

  pub insert-IsMap : (k : String) (v : V) (m : List (String × V)) → IsMap m → IsMap (insert k v m)
  unfolding insert lookup
  insert-IsMap k v [] h = (refl, tt)
  insert-IsMap k v ((j, w) ∷ m) h =
      ground (arith, eq_iff j k, eq_iff k j, lookup-insert k j v m, insert-IsMap k v m h.1)

  pub remove-IsMap : (k : String) (m : List (String × V)) → IsMap m → IsMap (remove k m)
  unfolding remove lookup
  remove-IsMap k [] h = h
  remove-IsMap k ((j, w) ∷ m) h = ground (arith, lookup-remove k j m, remove-IsMap k m h.1)

  -- Whether the entry of a key passes a test.
  abbrev pub test_at : String → (V → Bool) → List (String × V) → Bool
  test_at k p m = elim (lookup k m) [ none ↦ false | some v ↦ p v ]

  -- In a map, a scan for an entry with the key that passes a test finds what a lookup finds.
  pub any-test_at :
      (k : String) (p : V → Bool) (m : List (String × V))
      → IsMap m
      → any (λ e. e.0 == k && p e.1) m ≡ test_at k p m
  unfolding any lookup
  any-test_at k p [] h = refl
  any-test_at k p ((j, v) ∷ m) h = ground (arith, eq_iff j k, any-test_at k p m h.1)

  pub length-remove_absent :
      (k : String) (m : List (String × V)) → lookup k m ≡ none → length (remove k m) ≡ length m
  unfolding lookup remove
  length-remove_absent k [] h = refl
  length-remove_absent k ((j, w) ∷ m) h = ground (arith, length-remove_absent k m)

  -- A deletion of a key that is there takes one entry away.
  pub length-remove :
      (k : String) (m : List (String × V)) (v : V)
      → IsMap m
      → lookup k m ≡ some v
      → length (remove k m) + 1 ≡ length m
  unfolding lookup remove
  length-remove k [] v d h = ground arith
  length-remove k ((j, w) ∷ m) v d h =
      ground (arith, eq_iff j k, length-remove k m v d.1, length-remove_absent k m)
