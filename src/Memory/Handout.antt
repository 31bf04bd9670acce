-- ===== src/Memory/Handout.antt =====
-- PollPending of store/memory/memory.go: which tickets a poll hands out and what it leaves behind.
use mathlib.Core.Option
use mathlib.Core.Path.{fun_ext}
use mathlib.Core.List.{Mem}
use mathlib.Core.Logic.{∥∥₁_elim}
use text.Mathlib.TextEquality.{IsScalar-prop}
use lymbo.Base.{
  String, ◌≡◌, refl, sym, ap, subst, ◌∙◌, inl, inr, pos, pos_part, leb_ℤ, ltb_ℤ, eqb_ℤ, add64, ◌&&◌,
  ◌+ℤ◌, ◌<ℤ◌, List, [], ◌∷◌, map, some, Bool, true, false, ◌||◌, not, is_empty, arith, ◌==◌,
  if◌then◌else◌, Bool-cases, min, length, all, any, count, lookup, contains, Perm,
}
use lymbo.Base.Members.{map-Memᴰ, all-map, any-map, length-map}
use lymbo.Errors.{Result, ok, err, limit_invalid}
use lymbo.Ticket.{Floats, Ticket, PollRequest, backoff}
use lymbo.Memory.{Tickets, Store}
use lymbo.Memory.Poll.{precedes, with_ready_at, lease_time, leased, lease_all, chosen, poll_pending}
use lymbo.Memory.Invariant.{Inv}
use lymbo.Memory.Sorted.{IsSortSlice, Sorted, Sorted-with_ready_at}
use lymbo.Memory.Polling.{is_due, chosen_stored, length-chosen, chosen-Sorted, left_behind}
use lymbo.Memory.Leases.{lookup-leases, leased_not_chosen}

none_due :
    (req : PollRequest) (s : Store) (entries : Tickets)
    → req.request_tubes ≡ []
    → count (λ e. is_due req s e.1) entries ≡ 0
unfolding count contains
none_due req s [] h = refl
none_due req s ((k, t) ∷ rest) h = ground (arith, none_due req s rest h, ap (contains t.tube) h)

empty_of_length : {A : Type 0} (xs : List A) → length xs ≡ 0 → xs ≡ []
empty_of_length [] h = refl
empty_of_length (x ∷ xs) h = absurd (omega arith)

on_tubes :
    {A : Type 0} (tubes : List String) (a b : A)
    → (tubes ≡ [] → a ≡ b)
    → elim tubes as (λ _. A) [ [] ↦ a | _ ∷ _ ↦ b ] ≡ b
on_tubes [] a b h = h refl
on_tubes (tube ∷ tubes) a b h = refl

-- What a poll is to leave of a ticket that it hands out: due again at the end of its lease, with one
-- attempt more and the old Runat in ReadyAt.
abbrev pub with_lease : Floats → PollRequest → Ticket → Ticket
with_lease fl req t = record t {
  runat = req.now +ℤ add64 (backoff fl req.backoff_base req.max_backoff_delay t.attempts) req.ttr;
  attempts = add64 t.attempts (pos 1);
  ready_at = t.runat;
}

leased_lem : (fl : Floats) (req : PollRequest) (t : Ticket) → leased fl req t ≡ with_lease fl req t
unfolding leased lease_time
leased_lem fl req t = refl

-- The first of two tickets by Runat, and of two at one time the one with the lower Nice.
abbrev pub is_before : Ticket → Ticket → Bool
is_before t u = ltb_ℤ t.runat u.runat || eqb_ℤ t.runat u.runat && ltb_ℤ t.nice u.nice

precedes_lem : (u t : Ticket) → precedes u t ≡ is_before u t
unfolding precedes
precedes_lem u t = ground arith

module _ (fl : Floats) (sort_slice : (Ticket → Ticket → Bool) → List Ticket → List Ticket)
    (range : Tickets → Tickets) (sorting : IsSortSlice sort_slice)
    (shuffle : (m : Tickets) → Perm (range m) m) where
  abbrev pub poll : PollRequest → Store → Store × Result (List Ticket)
  poll = poll_pending fl sort_slice range

  abbrev pub taken : PollRequest → Store → List Ticket
  taken = chosen fl sort_slice range

  -- What a poll with a positive limit computes, its early return included.
  pub poll_eq :
      (req : PollRequest) (s : Store)
      → Inv s
      → leb_ℤ req.limit (pos 0) ≡ false
      → poll req s ≡ (
        record s { entries = lease_all fl req (taken req s) s.entries },
        ok (map with_ready_at (taken req s)),
      )
  unfolding poll_pending lease_all
  poll_eq req s v positive =
      rw positive (on_tubes req.request_tubes _ _ (λ e. rw (nothing e, lease_all) refl))
    where
      nothing : req.request_tubes ≡ [] → taken req s ≡ []
      nothing e = empty_of_length (taken req s) (
          omega (
            arith,
            length-chosen fl sort_slice range sorting shuffle req s v,
            none_due req s s.entries e,
          ))

  pub poll_low :
      (req : PollRequest) (s : Store)
      → leb_ℤ req.limit (pos 0) ≡ true
      → poll req s ≡ (s, err limit_invalid)
  unfolding poll_pending
  poll_low req s low = rw low

  pub poll_ok :
      (req : PollRequest) (s s' : Store) (ts : List Ticket)
      → Inv s
      → poll req s ≡ (s', ok ts)
      → (s'.entries ≡ lease_all fl req (taken req s) s.entries)
        × (s'.deps ≡ s.deps)
        × (ts ≡ map with_ready_at (taken req s))
  poll_ok req s s' ts v h = elim (Bool-cases (leb_ℤ req.limit (pos 0))) [
    | inl low ↦ absurd (refused low)
    | inr positive ↦ ground (arith, poll_eq req s v positive)
  ]
    where
      refused : leb_ℤ req.limit (pos 0) ≡ true → ⊥
      refused low = ground (arith, poll_low req s low)

  module _ (req : PollRequest) (s s' : Store) (ts : List Ticket) (v : Inv s)
      (polled : poll req s ≡ (s', ok ts)) where
    -- Where the store has the invariant, `sort.Slice` sorts and loops visit each entry once: every
    -- ticket that a poll returns is the stored ticket of its id, with ReadyAt set to its
    -- Runat, and it was due: pending, with a Runat that is not after the time of the poll, in a
    -- requested tube, and blocked by no other ticket.
    pub poll_returns_due :
        (t : Ticket)
        → Mem t ts
        → (Option.map with_ready_at (lookup t.id s.entries) ≡ some t) × (is_due req s t ≡ true)
    poll_returns_due t m =
        ∥∥₁_elim (subst (Mem t) (poll_ok req s s' ts v polled).2 m) (hlevel IsScalar-prop) (λ d.
          let (u, n, e) = map-Memᴰ with_ready_at t (taken req s) d in
          let stored = chosen_stored fl sort_slice range sorting shuffle req s v u ∣ n ∣₁ in
          ground arith)

    -- Where the store has the invariant, `sort.Slice` sorts and loops visit each entry once: a poll
    -- that is not refused returns as many tickets as are due, up to the limit.
    pub poll_count : length ts ≡ min (pos_part req.limit) (count (λ e. is_due req s e.1) s.entries)
    poll_count =
        ap length (poll_ok req s s' ts v polled).2
        ∙ length-map with_ready_at (taken req s)
        ∙ length-chosen fl sort_slice range sorting shuffle req s v

    -- Where the store has the invariant, `sort.Slice` sorts and loops visit each entry once: the
    -- tickets of a poll come by Runat and then by Nice.
    pub poll-Sorted : Sorted precedes ts
    poll-Sorted = subst (Sorted precedes) (sym (poll_ok req s s' ts v polled).2) (
        Sorted-with_ready_at (taken req s)
          (chosen-Sorted fl sort_slice range sorting shuffle req s v))

    -- Where the store has the invariant, `sort.Slice` sorts and loops visit each entry once: a due
    -- ticket that a poll does not return is before none of those that it returns, by Runat and, of
    -- two at one time, by Nice.
    pub poll_takes_first :
        (k : String) (u : Ticket)
        → lookup k s.entries ≡ some u
        → is_due req s u ≡ true
        → any (λ t. t.id == k) ts ≡ false
        → all (λ t. not (is_before u t)) ts ≡ true
    unfolding precedes
    poll_takes_first k u e due absent =
        let q = (poll_ok req s s' ts v polled).2 in
        ap (λ (p : Ticket → Bool). all (λ t. not (p t)) ts) (fun_ext (λ t. sym (precedes_lem u t)))
        ∙ ap (all (λ t. not (precedes u t))) q
        ∙ all-map (λ t. not (precedes u t)) with_ready_at (taken req s)
        ∙ left_behind fl sort_slice range sorting shuffle req s v k u e due (
            sym (any-map (λ t. t.id == k) with_ready_at (taken req s))
            ∙ sym (ap (any (λ t. t.id == k)) q)
            ∙ absent)

    pub taken_ids : (k : String) → any (λ t. t.id == k) ts ≡ any (λ t. t.id == k) (taken req s)
    taken_ids k =
        ap (any (λ t. t.id == k)) (poll_ok req s s' ts v polled).2
        ∙ any-map (λ t. t.id == k) with_ready_at (taken req s)

    -- Where the store has the invariant, `sort.Slice` sorts and loops visit each entry once: a
    -- poll that is not refused leases exactly the tickets that it returns: it moves their Runat
    -- behind the lease, counts an attempt and keeps the old Runat in ReadyAt. It changes no other
    -- ticket.
    pub poll_leases :
        (k : String)
        → lookup k s'.entries ≡ (
            if any (λ t. t.id == k) ts
            then Option.map (with_lease fl req) (lookup k s.entries)
            else lookup k s.entries)
    poll_leases k =
        rw (sym (fun_ext (leased_lem fl req)), taken_ids k)
          (ap (lookup k) (poll_ok req s s' ts v polled).0
            ∙ lookup-leases fl sort_slice range sorting shuffle req s v k)

  -- As long as a ticket that a poll returned stands in the store as that poll left it, whatever else
  -- has changed, it is returned by no poll, at whatever tubes and limit, whose time is before the end of
  -- its lease. Both stores have the invariant, `sort.Slice` sorts and loops visit each entry once.
  pub poll_again :
      (req req' : PollRequest) (s s' s₂ s₃ : Store) (ts ts' : List Ticket) (k : String) (u : Ticket)
      → Inv s
      → Inv s₂
      → poll req s ≡ (s', ok ts)
      → lookup k s₂.entries ≡ lookup k s'.entries
      → poll req' s₂ ≡ (s₃, ok ts')
      → any (λ t. t.id == k) ts ≡ true
      → lookup k s.entries ≡ some u
      → req'.now <ℤ (with_lease fl req u).runat
      → any (λ t. t.id == k) ts' ≡ false
  poll_again req req' s s' s₂ s₃ ts ts' k u v v' first kept second returned stored early =
      let at : lookup k s₂.entries ≡ some (with_lease fl req u) =
        kept ∙ ground (arith, poll_leases req s s' ts v first k) in
      taken_ids req' s₂ s₃ ts' v' second k
      ∙ leased_not_chosen fl sort_slice range sorting shuffle req' s₂ v' k (with_lease fl req u) at
          (ground arith)

  -- A poll with a limit of zero or less is refused, and any other poll that requests no tube
  -- returns no ticket; neither changes the store.
  pub poll_without_work :
      (req : PollRequest) (s : Store)
      → (leb_ℤ req.limit (pos 0) || is_empty req.request_tubes) ≡ true
      → poll req s ≡ (s, (if leb_ℤ req.limit (pos 0) then err limit_invalid else ok []))
  unfolding poll_pending
  poll_without_work req s h = ground arith
