-- ===== src/Base/Order.antt =====
-- The order of Go's strings, and what the program takes from the package `slices` for them: `Sort`,
-- `Compact` and `BinarySearch`.
use Prim.Native.Char.{code}
use Prim.Native.String.{String}
use mathlib.Core.Path.{◌≡◌, refl, ap₂, ◌∙◌}
use mathlib.Core.Bool.{Bool, true, false, ◌||◌}
use mathlib.Core.List.{List, [], ◌∷◌}
use native.Mathlib.Omega.{arith}
use text.Mathlib.TextEquality.{eq_iff, Char-path}
use lymbo.Base.Tests.{ltb, nat_eq, if◌then◌else◌}
use lymbo.Base.Text.{◌==◌, contains}

-- s < t. The order of the bytes of UTF-8 is that of the code points.
unfoldable pub str_lt : String → String → Bool
str_lt String.[] String.[] = false
str_lt String.[] (String.◌∷◌ d t) = true
str_lt (String.◌∷◌ c s) String.[] = false
str_lt (String.◌∷◌ c s) (String.◌∷◌ d t) =
    let rest = str_lt s t in
    if ltb (code c) (code d) then true else if nat_eq (code c) (code d) then rest else false

pub str_lt_irrefl : (s : String) → str_lt s s ≡ false
unfolding str_lt
str_lt_irrefl String.[] = refl
str_lt_irrefl (String.◌∷◌ c s) = ground (arith, str_lt_irrefl s)

pub str_lt_trans : (s t u : String) → str_lt s t ≡ true → str_lt t u ≡ true → str_lt s u ≡ true
unfolding str_lt
str_lt_trans String.[] String.[] String.[] h k = h
str_lt_trans String.[] (String.◌∷◌ d t) String.[] h k = ground arith
str_lt_trans String.[] t (String.◌∷◌ e u) h k = refl
str_lt_trans (String.◌∷◌ c s) String.[] u h k = ground arith
str_lt_trans (String.◌∷◌ c s) (String.◌∷◌ d t) String.[] h k = ground arith
str_lt_trans (String.◌∷◌ c s) (String.◌∷◌ d t) (String.◌∷◌ e u) h k =
    ground (arith, str_lt_trans s t u)

-- Two strings neither of which is below the other are equal.
pub str_lt_connex : (s t : String) → str_lt s t ≡ false → str_lt t s ≡ false → s ≡ t
unfolding str_lt
str_lt_connex String.[] String.[] h k = refl
str_lt_connex String.[] (String.◌∷◌ d t) h k = ground arith
str_lt_connex (String.◌∷◌ c s) String.[] h k = ground arith
str_lt_connex (String.◌∷◌ c s) (String.◌∷◌ d t) h k =
    ap₂ String.◌∷◌ (Char-path c d (ground arith)) (str_lt_connex s t (ground arith) (ground arith))

pub str_lt_asymm : (s t : String) → str_lt s t ≡ true → str_lt t s ≡ false
str_lt_asymm s t h = ground (arith, str_lt_trans s t s, str_lt_irrefl s)

-- slices.Sort
insert_sorted : String → List String → List String
insert_sorted s [] = s ∷ []
insert_sorted s (t ∷ ts) = if str_lt t s then t ∷ insert_sorted s ts else s ∷ t ∷ ts

unfoldable pub sort : List String → List String
unfolding insert_sorted
sort [] = []
sort (s ∷ ss) = insert_sorted s (sort ss)

-- slices.Compact: of a run of equal entries the first stays.
compact_from : String → List String → List String
compact_from last [] = []
compact_from last (s ∷ ss) = let rest = compact_from s ss in if last == s then rest else s ∷ rest

unfoldable pub compact : List String → List String
unfolding compact_from
compact [] = []
compact (s ∷ ss) = s ∷ compact_from s ss

-- slices.BinarySearch: whether the first entry that is not below the target equals it.
unfoldable pub binary_search : List String → String → Bool
binary_search [] target = false
binary_search (s ∷ ss) target =
    let rest = binary_search ss target in if str_lt s target then rest else s == target

-- `s` is at most the first entry, and each entry at most the next.
abbrev pub SortedFrom : String → List String → Type 0
SortedFrom s [] = Unit {0}
SortedFrom s (t ∷ ts) = (str_lt t s ≡ false) × SortedFrom t ts

abbrev pub IsSorted : List String → Type 0
IsSorted [] = Unit {0}
IsSorted (s ∷ ss) = SortedFrom s ss

-- `s` is below the first entry, and each entry below the next.
abbrev pub StrictFrom : String → List String → Type 0
StrictFrom s [] = Unit {0}
StrictFrom s (t ∷ ts) = (str_lt s t ≡ true) × StrictFrom t ts

abbrev pub IsStrict : List String → Type 0
IsStrict [] = Unit {0}
IsStrict (s ∷ ss) = StrictFrom s ss

insert_sorted-SortedFrom :
    (low s : String) (ts : List String)
    → str_lt s low ≡ false
    → SortedFrom low ts
    → SortedFrom low (insert_sorted s ts)
unfolding insert_sorted
insert_sorted-SortedFrom low s [] h k = (h, tt)
insert_sorted-SortedFrom low s (t ∷ ts) h k =
    ground (arith, insert_sorted-SortedFrom t s ts, str_lt_asymm t s)

insert_sorted-IsSorted :
    (s : String) (ts : List String) → IsSorted ts → IsSorted (insert_sorted s ts)
unfolding insert_sorted
insert_sorted-IsSorted s [] h = tt
insert_sorted-IsSorted s (t ∷ ts) h =
    ground (arith, insert_sorted-SortedFrom t s ts, str_lt_asymm t s)

pub sort-IsSorted : (ss : List String) → IsSorted (sort ss)
unfolding sort
sort-IsSorted [] = tt
sort-IsSorted (s ∷ ss) = insert_sorted-IsSorted s (sort ss) (sort-IsSorted ss)

contains-insert_sorted :
    (x s : String) (ts : List String) → contains x (insert_sorted s ts) ≡ (s == x || contains x ts)
unfolding insert_sorted contains
contains-insert_sorted x s [] = refl
contains-insert_sorted x s (t ∷ ts) = ground (arith, contains-insert_sorted x s ts)

pub contains-sort : (x : String) (ss : List String) → contains x (sort ss) ≡ contains x ss
unfolding sort contains
contains-sort x [] = refl
contains-sort x (s ∷ ss) = ground (arith, contains-insert_sorted x s (sort ss), contains-sort x ss)

compact_from-StrictFrom :
    (low s : String) (ts : List String)
    → low ≡ s
    → SortedFrom s ts
    → StrictFrom low (compact_from s ts)
unfolding compact_from
compact_from-StrictFrom low s [] e h = tt
compact_from-StrictFrom low s (t ∷ ts) e h = ground (
  arith,
  eq_iff s t,
  str_lt_connex s t,
  compact_from-StrictFrom low t ts,
  compact_from-StrictFrom t t ts refl,
)

pub compact-IsStrict : (ss : List String) → IsSorted ss → IsStrict (compact ss)
unfolding compact
compact-IsStrict [] h = tt
compact-IsStrict (s ∷ ss) h = compact_from-StrictFrom s s ss refl h

contains-compact_from :
    (x s : String) (ts : List String)
    → (s == x || contains x (compact_from s ts)) ≡ (s == x || contains x ts)
unfolding compact_from contains
contains-compact_from x s [] = refl
contains-compact_from x s (t ∷ ts) =
    ground (arith, eq_iff s t, eq_iff s x, eq_iff t x, contains-compact_from x t ts)

pub contains-compact : (x : String) (ss : List String) → contains x (compact ss) ≡ contains x ss
unfolding compact contains
contains-compact x [] = refl
contains-compact x (s ∷ ss) = contains-compact_from x s ss

not_contains_above :
    (x s : String) (ts : List String) → str_lt x s ≡ true → StrictFrom s ts → contains x ts ≡ false
unfolding contains
not_contains_above x s [] h k = refl
not_contains_above x s (t ∷ ts) h k =
    ground (arith, eq_iff t x, str_lt_trans x s t, str_lt_irrefl x, not_contains_above x t ts)

search-StrictFrom :
    (x s : String) (ts : List String)
    → StrictFrom s ts
    → binary_search (s ∷ ts) x ≡ contains x (s ∷ ts)
unfolding binary_search contains
search-StrictFrom x s [] h = ground (arith, eq_iff s x, str_lt_irrefl x)
search-StrictFrom x s (t ∷ ts) h = ground (
  arith,
  eq_iff s x,
  eq_iff t x,
  str_lt_irrefl x,
  str_lt_connex s x,
  str_lt_trans x s t,
  not_contains_above x s (t ∷ ts),
  search-StrictFrom x t ts,
)

binary_search-IsStrict :
    (x : String) (ss : List String) → IsStrict ss → binary_search ss x ≡ contains x ss
unfolding binary_search contains
binary_search-IsStrict x [] h = refl
binary_search-IsStrict x (s ∷ ss) h = search-StrictFrom x s ss h

-- A search in a sorted and compacted list finds what the list held at first.
pub binary_search-compact-sort :
    (x : String) (ss : List String) → binary_search (compact (sort ss)) x ≡ contains x ss
binary_search-compact-sort x ss =
    binary_search-IsStrict x (compact (sort ss)) (compact-IsStrict (sort ss) (sort-IsSorted ss))
    ∙ contains-compact x (sort ss)
    ∙ contains-sort x ss
