-- ===== src/Memory/Polling.antt =====
-- What PollPending of store/memory/memory.go returns.
use mathlib.Core.List.{Mem, Memᴰ, mem-append}
use mathlib.Core.List.Perm
use mathlib.Core.Logic.{∥∥₁_elim}
use mathlib.Core.Logic.Or
use mathlib.Core.Path.{fun_ext}
use mathlib.Core.Bool.{false≢true}
use text.Mathlib.TextEquality.{IsScalar-prop}
use lymbo.Base.{
  String, ◌≡◌, sym, ap, ◌∙◌, pos_part, leb_ℤ, List, map, some, Bool, true, false, ◌&&◌, not, arith,
  ◌==◌, eq_iff, nat_eq, min, length, length-take, length-select, length-perm, take, take_all, ◌<◌,
  all, any, count, count-perm, contains, ◌++◌, drop, take-append-drop, subst, lookup, Perm,
}
use lymbo.Base.Range.{IsMap-perm, lookup-perm}
use lymbo.Base.Order.{sort, compact, binary_search-compact-sort}
use lymbo.Base.Members.{
  take-mem, select-Memᴰ, map-Memᴰ, lookup-Memᴰ, count-map, Memᴰ-select, Memᴰ-map, Memᴰ-lookup,
  any-mem,
}
use lymbo.Status.{pending, is}
use lymbo.Ticket.{Floats, Ticket, PollRequest}
use lymbo.Memory.{Tickets, Store, blockers}
use lymbo.Memory.Poll.{is_ready, precedes, ready, chosen}
use lymbo.Memory.Invariant.{Inv}
use lymbo.Memory.Expire.{Ticket-set}
use lymbo.Memory.Sorted.{IsSortSlice, Sorted, Sorted-take, precedes-IsStrictWeak, not_precedes}

-- A ticket that a poll may hand out: pending, due, in a requested tube and waiting for nobody.
abbrev pub is_due : PollRequest → Store → Ticket → Bool
is_due req s t =
    is t.status pending
    && leb_ℤ t.runat req.now
    && contains t.tube req.request_tubes
    && nat_eq (length (blockers t.id s.deps)) 0

-- The scan, with its search in the sorted and compacted tubes, takes exactly the due tickets.
is_ready-is_due :
    (req : PollRequest) (s : Store) (t : Ticket)
    → is_ready req.now (compact (sort req.request_tubes)) s.deps t ≡ is_due req s t
unfolding is_ready
is_ready-is_due req s t = ground (arith, binary_search-compact-sort t.tube req.request_tubes)

module _ (fl : Floats) (sort_slice : (Ticket → Ticket → Bool) → List Ticket → List Ticket)
    (range : Tickets → Tickets) where
  abbrev found : PollRequest → Store → List Ticket
  found req s = ready req.now (compact (sort req.request_tubes)) s.deps (range s.entries)

  module _ (sorting : IsSortSlice sort_slice) (shuffle : (m : Tickets) → Perm (range m) m)
      (req : PollRequest) (s : Store) (v : Inv s) where
    found_stored :
        (t : Ticket)
        → Memᴰ t (found req s)
        → (lookup t.id s.entries ≡ some t) × (is_due req s t ≡ true)
    unfolding ready
    found_stored t m =
        let (m', due) =
          select-Memᴰ (is_ready req.now (compact (sort req.request_tubes)) s.deps) t
            (map (λ e. e.1) (range s.entries)) m in
        let ((k, u), n, e) = map-Memᴰ (λ (e : String × Ticket). e.1) t (range s.entries) m' in
        let at : lookup k s.entries ≡ some u =
          sym (lookup-perm Ticket-set k (shuffle s.entries) v.entries_map)
          ∙ lookup-Memᴰ (IsMap-perm (shuffle s.entries) v.entries_map) n in
        (ground (arith, v.sound k u at), ground (arith, is_ready-is_due req s t))

    -- Whatever a poll takes stands in the store and is due.
    pub chosen_stored :
        (t : Ticket)
        → Mem t (chosen fl sort_slice range req s)
        → (lookup t.id s.entries ≡ some t) × (is_due req s t ≡ true)
    unfolding chosen
    chosen_stored t m =
        ∥∥₁_elim ((Perm.mem_iff (sorting.permutes precedes (found req s))).0 (take-mem _ m))
          (hlevel IsScalar-prop) (found_stored t)

    count_ready : length (found req s) ≡ count (λ e. is_due req s e.1) s.entries
    unfolding ready
    count_ready =
        length-select (is_ready req.now (compact (sort req.request_tubes)) s.deps)
          (map (λ e. e.1) (range s.entries))
        ∙ ap (λ p. count p (map (λ e. e.1) (range s.entries))) (fun_ext (is_ready-is_due req s))
        ∙ count-map (is_due req s) (λ (e : String × Ticket). e.1) (range s.entries)
        ∙ count-perm (λ e. is_due req s e.1) (shuffle s.entries)

    -- It takes as many due tickets as there are, up to the limit.
    pub length-chosen :
        length (chosen fl sort_slice range req s)
        ≡ min (pos_part req.limit) (count (λ e. is_due req s e.1) s.entries)
    unfolding chosen
    length-chosen = omega (
      arith,
      length-take (min (pos_part req.limit) (length (found req s)))
          (sort_slice precedes (found req s)),
      length-perm (sorting.permutes precedes (found req s)),
      count_ready,
    )

    pub chosen-Sorted : Sorted precedes (chosen fl sort_slice range req s)
    unfolding chosen
    chosen-Sorted =
        Sorted-take precedes _ _ (sorting.sorts precedes precedes-IsStrictWeak (found req s))

    stored_found :
        (k : String) (u : Ticket)
        → lookup k s.entries ≡ some u
        → is_due req s u ≡ true
        → Memᴰ u (found req s)
    unfolding ready
    stored_found k u e due =
        Memᴰ-select (is_ready req.now (compact (sort req.request_tubes)) s.deps)
          (Memᴰ-map (λ (e : String × Ticket). e.1)
            (Memᴰ-lookup k u (range s.entries)
              (lookup-perm Ticket-set k (shuffle s.entries) v.entries_map ∙ e)))
          (is_ready-is_due req s u ∙ due)

    -- A due ticket that is left behind precedes none of those that are taken.
    pub left_behind :
        (k : String) (u : Ticket)
        → lookup k s.entries ≡ some u
        → is_due req s u ≡ true
        → any (λ t. t.id == k) (chosen fl sort_slice range req s) ≡ false
        → all (λ t. not (precedes u t)) (chosen fl sort_slice range req s) ≡ true
    unfolding chosen
    left_behind k u e due absent =
        let n = min (pos_part req.limit) (length (found req s)) in
        let xs = sort_slice precedes (found req s) in
        let split = take-append-drop n xs in
        let m : Mem u (take n xs ++ drop n xs) = subst (Mem u) (sym split) (
          (Perm.mem_iff (sorting.permutes precedes (found req s))).1 ∣ stored_found k u e due ∣₁) in
        let sorted : Sorted precedes (take n xs ++ drop n xs) =
          subst (Sorted precedes) (sym split)
            (sorting.sorts precedes precedes-IsStrictWeak (found req s)) in
        Or.elim (hlevel) (mem-append.0 m)
          (λ taken. absurd (
            false≢true (
              sym absent
              ∙ any-mem (λ t. t.id == k) u taken (ground (arith, eq_iff u.id k, v.sound k u)))))
          (λ behind. not_precedes precedes (take n xs) (drop n xs) u sorted behind)

    -- Every due ticket is taken where a poll takes fewer than its limit.
    pub chosen_all :
        (k : String) (u : Ticket)
        → lookup k s.entries ≡ some u
        → is_due req s u ≡ true
        → length (chosen fl sort_slice range req s) < pos_part req.limit
        → Mem u (chosen fl sort_slice range req s)
    unfolding chosen
    chosen_all k u e due room =
        let n = min (pos_part req.limit) (length (found req s)) in
        let xs = sort_slice precedes (found req s) in
        let perm = sorting.permutes precedes (found req s) in
        let whole : take n xs ≡ xs =
          take_all n xs (omega (arith, room, length-take n xs, length-perm perm)) in
        subst (Mem u) (sym whole) ((Perm.mem_iff perm).1 ∣ stored_found k u e due ∣₁)
