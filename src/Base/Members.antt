-- ===== src/Base/Members.antt =====
-- Members of lists against the Boolean predicates and the maps.
use mathlib.Core.Logic.{∥∥₁_elim}
use mathlib.Core.List.{Mem, Memᴰ, mem-append, mem-cons_self, mem-cons_of_mem}
use mathlib.Core.Logic.Or
use lymbo.Base.{
  ℕ, String, ◌≡◌, refl, sym, ap, subst, ◌∙◌, List, [], ◌∷◌, map, Bool, true, false, some, arith,
  ◌==◌, eq_iff, select, all, any, take, take-append-drop, lookup, IsMap, count, length, ◌⊎◌, inl,
  inr, Bool-cases, suc, test_at, ◌↔◌,
}

module _ {ℓ} {A : Type ℓ} where
  all-Memᴰ : (p : A → Bool) (x : A) {xs : List A} → Memᴰ x xs → all p xs ≡ true → p x ≡ true
  unfolding all
  all-Memᴰ p x (Memᴰ.head e) h = ground arith
  all-Memᴰ p x (Memᴰ.tail m) h = all-Memᴰ p x m (ground arith)

  pub all-mem : (p : A → Bool) (x : A) {xs : List A} → Mem x xs → all p xs ≡ true → p x ≡ true
  all-mem p x m h = ∥∥₁_elim m (hlevel) (λ d. all-Memᴰ p x d h)

  any-Memᴰ : (p : A → Bool) (x : A) {xs : List A} → Memᴰ x xs → p x ≡ true → any p xs ≡ true
  unfolding any
  any-Memᴰ p x (Memᴰ.head e) h = ground arith
  any-Memᴰ p x {xs = y ∷ ys} (Memᴰ.tail m) h = ground (arith, any-Memᴰ p x m h)

  pub any-mem : (p : A → Bool) (x : A) {xs : List A} → Mem x xs → p x ≡ true → any p xs ≡ true
  any-mem p x m h = ∥∥₁_elim m (hlevel) (λ d. any-Memᴰ p x d h)

  pub all_of_mem :
      (p : A → Bool) (xs : List A) → ((x : A) → Mem x xs → p x ≡ true) → all p xs ≡ true
  unfolding all
  all_of_mem p [] h = refl
  all_of_mem p (x ∷ xs) h =
      ground (arith, h x mem-cons_self, all_of_mem p xs (λ y m. h y (mem-cons_of_mem x m)))

  -- A member that passes the test, where there is one.
  pub witness : (p : A → Bool) (xs : List A) → any p xs ≡ true → (x : A) × Memᴰ x xs × (p x ≡ true)
  unfolding any
  witness p [] h = absurd (cc)
  witness p (x ∷ xs) h = elim (Bool-cases (p x)) [
    | inl e ↦ (x, Memᴰ.head refl, e)
    | inr e ↦ let (y, m, q) = witness p xs (ground arith) in (y, Memᴰ.tail m, q)
  ]

  uncons : {x y : A} {ys : List A} → Memᴰ x (y ∷ ys) → (x ≡ y) ⊎ Memᴰ x ys
  uncons (Memᴰ.head e) = inl e
  uncons (Memᴰ.tail m) = inr m

  select_kept :
      (p : A → Bool) {x y : A} {ys : List A}
      → p y ≡ true
      → (Memᴰ x (select p ys) → Memᴰ x ys × (p x ≡ true))
      → Memᴰ x (y ∷ select p ys)
      → Memᴰ x (y ∷ ys) × (p x ≡ true)
  select_kept p e ih m = elim (uncons m) [
    | inl q ↦ (Memᴰ.head q, ground (arith, ap p q))
    | inr m' ↦ let (n, q) = ih m' in (Memᴰ.tail n, q)
  ]

  -- What a selection holds.
  pub select-Memᴰ :
      (p : A → Bool) (x : A) (xs : List A) → Memᴰ x (select p xs) → Memᴰ x xs × (p x ≡ true)
  unfolding select
  select-Memᴰ p x [] m = elim m [ ]
  select-Memᴰ p x (y ∷ ys) m = elim (Bool-cases (p y)) [
    | inl e ↦ select_kept p e (select-Memᴰ p x ys) (rw e at m)
    | inr e ↦ let (m', q) = select-Memᴰ p x ys (rw e at m) in (Memᴰ.tail m', q)
  ]

  pub Memᴰ-select :
      (p : A → Bool) {x : A} {xs : List A} → Memᴰ x xs → p x ≡ true → Memᴰ x (select p xs)
  unfolding select
  Memᴰ-select p (Memᴰ.head e) h = rw (ap p (sym e) ∙ h) (Memᴰ.head e)
  Memᴰ-select p {xs = y ∷ ys} (Memᴰ.tail m) h = elim (Bool-cases (p y)) [
    | inl e ↦ rw e (Memᴰ.tail (Memᴰ-select p m h))
    | inr e ↦ rw e (Memᴰ-select p m h)
  ]

  pub take-mem : (n : ℕ) {x : A} {xs : List A} → Mem x (take n xs) → Mem x xs
  take-mem n {x} {xs} m = subst (Mem x) (take-append-drop n xs) (mem-append.1 (Or.inl m))

module _ {ℓ κ} {A : Type ℓ} {B : Type κ} where
  pub map-Memᴰ :
      (f : A → B) (y : B) (xs : List A) → Memᴰ y (map f xs) → (x : A) × Memᴰ x xs × (y ≡ f x)
  map-Memᴰ f y [] m = elim m [ ]
  map-Memᴰ f y (x ∷ xs) (Memᴰ.head e) = (x, Memᴰ.head refl, e)
  map-Memᴰ f y (x ∷ xs) (Memᴰ.tail m) = let (z, n, e) = map-Memᴰ f y xs m in (z, Memᴰ.tail n, e)

  pub Memᴰ-map : (f : A → B) {x : A} {xs : List A} → Memᴰ x xs → Memᴰ (f x) (map f xs)
  Memᴰ-map f (Memᴰ.head e) = Memᴰ.head (ap f e)
  Memᴰ-map f (Memᴰ.tail m) = Memᴰ.tail (Memᴰ-map f m)

  pub all-map : (p : B → Bool) (f : A → B) (xs : List A) → all p (map f xs) ≡ all (λ x. p (f x)) xs
  unfolding all
  all-map p f [] = refl
  all-map p f (x ∷ xs) = ground (arith, all-map p f xs)

  pub any-map : (p : B → Bool) (f : A → B) (xs : List A) → any p (map f xs) ≡ any (λ x. p (f x)) xs
  unfolding any
  any-map p f [] = refl
  any-map p f (x ∷ xs) = ground (arith, any-map p f xs)

  pub count-map :
      (p : B → Bool) (f : A → B) (xs : List A) → count p (map f xs) ≡ count (λ x. p (f x)) xs
  unfolding count
  count-map p f [] = refl
  count-map p f (x ∷ xs) = ground (arith, count-map p f xs)

  pub length-map : (f : A → B) (xs : List A) → length (map f xs) ≡ length xs
  length-map f [] = refl
  length-map f (x ∷ xs) = ap suc (length-map f xs)

module _ {ℓ} {V : Type ℓ} where
  -- In a map, the entries are what the lookups find.
  pub lookup-Memᴰ :
      {k : String} {v : V} {m : List (String × V)} → IsMap m → Memᴰ (k, v) m → lookup k m ≡ some v
  unfolding lookup
  lookup-Memᴰ {k} h (Memᴰ.head {x = (j, w)} e) = ground (arith, eq_iff j k)
  lookup-Memᴰ {k} {v} {m = (j, w) ∷ m} h (Memᴰ.tail d) =
      ground (arith, eq_iff j k, lookup-Memᴰ h.1 d)

  pub Memᴰ-lookup :
      (k : String) (v : V) (m : List (String × V)) → lookup k m ≡ some v → Memᴰ (k, v) m
  unfolding lookup
  Memᴰ-lookup k v [] h = absurd (cc)
  Memᴰ-lookup k v ((j, w) ∷ m) h = elim (Bool-cases (j == k)) [
    | inl e ↦ Memᴰ.head (ground (arith, eq_iff j k))
    | inr e ↦ Memᴰ.tail (Memᴰ-lookup k v m (ground arith))
  ]

  -- No entry of a map passes a test exactly when no key holds one that does.
  none_counted :
      (p : V → Bool) (m : List (String × V))
      → count (λ e. p e.1) m ≡ 0
      → (k : String) → test_at k p m ≡ false
  unfolding count lookup
  none_counted p [] h k = refl
  none_counted p ((j, v) ∷ m) h k = ground (arith, none_counted p m (ground arith) k)

  counted_none :
      (p : V → Bool) (m : List (String × V))
      → IsMap m
      → ((k : String) → test_at k p m ≡ false)
      → count (λ e. p e.1) m ≡ 0
  unfolding count lookup
  counted_none p [] d h = refl
  counted_none p ((j, v) ∷ m) d h =
      ground (arith, h j, eq_iff j j, counted_none p m d.1 (λ k. ground (arith, h k, eq_iff j k)))

  pub count-eq-zero_iff :
      (p : V → Bool) (m : List (String × V))
      → IsMap m
      → (count (λ e. p e.1) m ≡ 0) ↔ ((k : String) → test_at k p m ≡ false)
  count-eq-zero_iff p m d = (none_counted p m, counted_none p m d)
