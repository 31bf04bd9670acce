-- ===== src/Tests/Fixtures.antt =====
-- The concrete arguments of the tests: a floating point of whole numbers, an insertion sort as
-- `sort.Slice`, loops that visit a map in its order, and a store with a group and its finalizer.
use mathlib.Core.List.Perm
use lymbo.Base.{
  ◌*◌, ◌/◌, ◌+◌, ◌-◌, ◌^◌, min, ltb, leb, nat_eq, String, ◌≡◌, refl, ℤ, pos, pos_part, List, [],
  ◌∷◌, Option, none, some, Bool, true, false, not, arith, if◌then◌else◌, Bool-cases, inl, inr, all,
  all-perm, Perm,
}
use lymbo.Status.{pending}
use lymbo.Ticket.{Floats, Ticket, UpdateSet, PollRequest, default_nice, zero_time}
use lymbo.Memory.{Store, new_store, put, put_after_group}
use lymbo.Memory.Invariant.{Inv, new_store-Inv}
use lymbo.Memory.Preserve.{put-Inv, put_after_group-Inv}
use lymbo.Memory.Sorted.{IsStrictWeak, Sorted, IsSortSlice}

abbrev pub floats : Floats
floats = record {
  power = λ x y. x ^ y;
  minimum = min;
  times = λ x y. x * y;
  of_int = pos_part;
  over = λ x y. x / y;
  logarithm = λ x. x;
  ceiling = λ x. x;
  le = leb;
  lt = ltb;
  eq = nat_eq;
  plus = λ x y. x + y;
  minus = λ x y. x - y;
  exponential2 = λ x. 2 ^ x;
  floor = λ x. x;
  logarithm2 = λ x. x;
  to_int32 = pos;
  to_duration = pos;
  seconds = λ d. pos_part d / 1_000_000_000;
}

module _ {A : Type 0} (less : A → A → Bool) where
  place : A → List A → List A
  place x [] = x ∷ []
  place x (y ∷ ys) = if less y x then y ∷ place x ys else x ∷ y ∷ ys

  unfoldable pub sort_by : List A → List A
  unfolding place
  sort_by [] = []
  sort_by (x ∷ xs) = place x (sort_by xs)

  place-perm : (x : A) (xs : List A) → Perm (place x xs) (x ∷ xs)
  unfolding place
  place-perm x [] = Perm.refl (x ∷ [])
  place-perm x (y ∷ ys) = elim (Bool-cases (less y x)) [
    | inl e ↦ rw e (Perm.trans (Perm.cons y (place-perm x ys)) (Perm.swap x y ys))
    | inr e ↦ rw e (Perm.refl (x ∷ y ∷ ys))
  ]

  sort_by-perm : (xs : List A) → Perm (sort_by xs) xs
  unfolding sort_by
  sort_by-perm [] = Perm.nil
  sort_by-perm (x ∷ xs) = Perm.trans (place-perm x (sort_by xs)) (Perm.cons x (sort_by-perm xs))

  module _ (order : IsStrictWeak less) where
    all_later :
        (x y : A) (ys : List A)
        → less y x ≡ false
        → all (λ z. not (less z y)) ys ≡ true
        → all (λ z. not (less z x)) ys ≡ true
    unfolding all
    all_later x y [] e h = refl
    all_later x y (z ∷ ys) e h = ground (arith, order.tied z y x, all_later x y ys e)

    place-Sorted : (x : A) (xs : List A) → Sorted less xs → Sorted less (place x xs)
    unfolding place all
    place-Sorted x [] h = (refl, tt)
    place-Sorted x (y ∷ ys) h = elim (Bool-cases (less y x)) [
      | inl e ↦ rw e (
        ground (
          arith,
          order.trans x y x,
          order.irrefl x,
          all-perm (λ z. not (less z y)) (place-perm x ys),
          h.0,
        ),
        place-Sorted x ys h.1,
      )
      | inr e ↦ rw e (ground (arith, all_later x y ys e h.0), h)
    ]

    sort_by-Sorted : (xs : List A) → Sorted less (sort_by xs)
    unfolding sort_by
    sort_by-Sorted [] = tt
    sort_by-Sorted (x ∷ xs) = place-Sorted x (sort_by xs) (sort_by-Sorted xs)

abbrev pub sort_slice : (Ticket → Ticket → Bool) → List Ticket → List Ticket
sort_slice less = sort_by less

pub sort_slice-IsSortSlice : IsSortSlice sort_slice
sort_slice-IsSortSlice = record {
  permutes = λ less xs. sort_by-perm less xs;
  sorts = λ less order xs. sort_by-Sorted less order xs;
}

-- Loops in the order of the map.
abbrev pub in_order : {A : Type 0} → List A → List A
in_order m = m

pub in_order-perm : {A : Type 0} (m : List A) → Perm (in_order m) m
in_order-perm m = Perm.refl m

abbrev pub ticket : String → Option String → ℤ → Ticket
ticket id group runat = record {
  id = id;
  status = pending;
  tube = "mail";
  group_id = group;
  runat = runat;
  nice = default_nice;
  type = "send";
  ctime = pos 0;
  mtime = none;
  attempts = pos 0;
  payload = none;
  error_reason = none;
  ready_at = zero_time;
}

abbrev pub member : Ticket
member = ticket "m" (some "g") (pos 5)

abbrev pub finalizer : Ticket
finalizer = ticket "f" none (pos 3)

-- A member of the group g, and a finalizer that waits for it.
abbrev pub one : Store
one = (put member new_store).0

abbrev pub two : Store
two = (put_after_group in_order finalizer "g" one).0

pub one-Inv : Inv one
one-Inv = put-Inv member new_store new_store-Inv

pub two-Inv : Inv two
two-Inv = put_after_group-Inv in_order finalizer "g" one in_order-perm one-Inv

-- A poll of the tube at the time 10, with a lease of 7 and no backoff.
abbrev pub request : ℤ → PollRequest
request now = record {
  limit = pos 4;
  now = now;
  ttr = pos 7;
  backoff_base = 1;
  max_backoff_delay = pos 0;
  request_tubes = "mail" ∷ [];
}

-- An update of the member that sets a status.
abbrev pub no_update : String → UpdateSet
no_update id = record {
  id = id;
  tube = none;
  group_id = none;
  status = none;
  nice = none;
  runat = none;
  backoff = none;
  payload = none;
  error_reason = none;
}
