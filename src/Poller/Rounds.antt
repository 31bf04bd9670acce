-- ===== src/Poller/Rounds.antt =====
-- Rounds of the poller of kharon.go over the in-memory store.
use mathlib.Core.Option
use mathlib.Core.List.{Memᴰ}
use lymbo.Base.{
  ℕ, String, ◌≡◌, refl, ap, ◌∙◌, ◌≢◌, inl, inr, ℤ, pos, add64, List, [], ◌∷◌, map, Option, none,
  some, Bool, true, not, arith, ◌==◌, eq_iff, if◌then◌else◌, Bool-cases, select, any, contains,
  lookup, Perm,
}
use lymbo.Base.Members.{select-Memᴰ, any-mem}
use lymbo.Errors.{ok}
use lymbo.Ticket.{Floats, Ticket, UpdateSet, PollRequest}
use lymbo.Settings.{Settings}
use lymbo.Settings.Normal.{IsNormal}
use lymbo.Tubes.{Subscriptions, tubes_of}
use lymbo.Kharon.{Kharon}
use lymbo.Memory
use lymbo.Memory.{Tickets, Store}
use lymbo.Memory.Poll.{poll_pending, leased, lease_time, with_ready_at}
use lymbo.Memory.Invariant.{Inv}
use lymbo.Memory.Sorted.{IsSortSlice}
use lymbo.Memory.Handout.{poll_eq, poll_returns_due, poll_leases}
use lymbo.Poller.{PollOps, put_back_of, put_all_back, request_of, distribute, poll_round, backs_off}
use lymbo.Poller.PutBack.{sort_out_lem, AllHeld, IsHeld, put_back-Runat, with_runat}

-- The in-memory store as the poller uses it; `now` is the time that its updates read.
abbrev pub memory_poll_ops :
    Floats
    → ((Ticket → Ticket → Bool) → List Ticket → List Ticket)
    → (Tickets → Tickets)
    → ℤ
    → PollOps Store
memory_poll_ops fl sort_slice range now = record {
  poll_pending = poll_pending fl sort_slice range;
  update_batch = λ sets s. Memory.update_batch fl (map (λ us. (now, us)) sets) s;
}

map-pair :
    (now : ℤ) (ts : List Ticket)
    → map (λ us. (now, us)) (map put_back_of ts)
      ≡ map {B = ℤ × UpdateSet} (λ t. (now, put_back_of t)) ts
map-pair now [] = refl
map-pair now (t ∷ ts) = ap (◌∷◌ (now, put_back_of t)) (map-pair now ts)

AllHeld-of_mem :
    (due : String → ℤ) (m : Tickets) (ts : List Ticket)
    → ((t : Ticket) → Memᴰ t ts → IsHeld due m t)
    → AllHeld due m ts
AllHeld-of_mem due m [] h = tt
AllHeld-of_mem due m (t ∷ ts) h =
    (h t (Memᴰ.head refl), AllHeld-of_mem due m ts (λ u n. h u (Memᴰ.tail n)))

-- What a ticket that was polled and put back looks like: it is due as before, with one attempt more.
abbrev pub returned : Ticket → Ticket
returned u = record u { attempts = add64 u.attempts (pos 1); ready_at = u.runat }

-- The polled tickets whose tubes are not subscribed.
abbrev pub unsubscribed : Subscriptions → List Ticket → List Ticket
unsubscribed k = select (λ t. not (contains t.tube (tubes_of k)))

any-select : (p q : Ticket → Bool) (ts : List Ticket) → any p (select q ts) ≡ true → any p ts ≡ true
unfolding any select
any-select p q [] h = h
any-select p q (t ∷ ts) h = ground (arith, any-select p q ts)

module _ (fl : Floats) (sort_slice : (Ticket → Ticket → Bool) → List Ticket → List Ticket)
    (range : Tickets → Tickets) (sorting : IsSortSlice sort_slice)
    (shuffle : (m : Tickets) → Perm (range m) m) (now : ℤ) where
  abbrev pub ops : PollOps Store
  ops = memory_poll_ops fl sort_slice range now

  put_all_back-update_batch :
      (ts : List Ticket) (s : Store)
      → put_all_back ops (map put_back_of ts) s
        ≡ (Memory.update_batch fl (map (λ t. (now, put_back_of t)) ts) s).0
  unfolding put_all_back Memory.update_batch
  put_all_back-update_batch [] s = refl
  put_all_back-update_batch (t ∷ ts) s =
      ap (λ us. (Memory.update_batch fl us s).0) (map-pair now (t ∷ ts))

  distribute-store :
      (settings : Settings) (subscribed : Subscriptions) (slowdown : ℕ) (ts : List Ticket)
      (k : Kharon Store)
      → subscribed.tubeson ≡ true
      → (distribute ops settings subscribed slowdown ts k).0.store
        ≡ put_all_back ops (map put_back_of (unsubscribed subscribed ts)) k.store
  unfolding distribute
  distribute-store settings subscribed slowdown ts k on =
      ground (arith, ap (λ p. put_all_back ops p.1 k.store) (sort_out_lem (tubes_of subscribed) ts))

  module _ (req : PollRequest) (s s' : Store) (ts : List Ticket) (v : Inv s)
      (polled : poll_pending fl sort_slice range req s ≡ (s', ok ts)) where
    due_at : String → ℤ
    due_at k = elim (lookup k s.entries) [ none ↦ pos 0 | some u ↦ u.runat ]

    polled-IsHeld : (t : Ticket) → Memᴰ t ts → IsHeld due_at s'.entries t
    unfolding due_at leased lease_time add64
    polled-IsHeld t m =
        let (at, due) =
          poll_returns_due fl sort_slice range sorting shuffle req s s' ts v polled t ∣ m ∣₁ in
        let leases = poll_leases fl sort_slice range sorting shuffle req s s' ts v polled t.id in
        let there : any (λ u. u.id == t.id) ts ≡ true =
          any-mem (λ u. u.id == t.id) t ∣ m ∣₁ (ground (arith, eq_iff t.id t.id)) in
        by_entry t (lookup t.id s.entries) refl at (leases ∙ rw there refl)
      where
        by_entry :
            (t : Ticket) (o : Option Ticket)
            → lookup t.id s.entries ≡ o
            → Option.map with_ready_at (lookup t.id s.entries) ≡ some t
            → lookup t.id s'.entries ≡ Option.map (leased fl req) (lookup t.id s.entries)
            → IsHeld due_at s'.entries t
        by_entry t none e at leases = absurd (ground arith)
        by_entry t (some u) e at leases =
            (ground arith, (leased fl req u, ground arith, ground arith))

    back-IsHeld :
        (subscribed : Subscriptions) → AllHeld due_at s'.entries (unsubscribed subscribed ts)
    back-IsHeld subscribed = AllHeld-of_mem due_at s'.entries (unsubscribed subscribed ts) (λ t m.
        polled-IsHeld t (select-Memᴰ (λ u. not (contains u.tube (tubes_of subscribed))) t ts m).0)

    restored :
        (subscribed : Subscriptions) (id : String)
        → any (λ t. t.id == id) (unsubscribed subscribed ts) ≡ true
        → Option.map (with_runat (due_at id)) (lookup id s'.entries)
          ≡ Option.map returned (lookup id s.entries)
    unfolding due_at leased
    restored subscribed id there = ground (
      arith,
      poll_leases fl sort_slice range sorting shuffle req s s' ts v polled id,
      any-select (λ t. t.id == id) (λ t. not (contains t.tube (tubes_of subscribed))) ts there,
    )

    -- Where the store has the invariant, `sort.Slice` sorts and loops visit each entry once: after a
    -- poll, and with tubes on, the tickets in tubes that are not subscribed any more have their old
    -- Runat again, with one attempt more; all others are as the poll left them.
    pub put_back_restores :
        (settings : Settings) (subscribed : Subscriptions) (slowdown : ℕ) (k : Kharon Store)
        (id : String)
        → subscribed.tubeson ≡ true
        → let k' = (distribute ops settings subscribed slowdown ts (record k { store = s' })).0 in
          lookup id k'.store.entries ≡ (
            if any (λ t. t.id == id) (unsubscribed subscribed ts)
            then Option.map returned (lookup id s.entries)
            else lookup id s'.entries)
    put_back_restores settings subscribed slowdown k id on =
        let back = unsubscribed subscribed ts in
        ap (λ z. lookup id z.entries)
          (distribute-store settings subscribed slowdown ts (record k { store = s' }) on
            ∙ put_all_back-update_batch back s')
        ∙ put_back-Runat fl now due_at back s' id (back-IsHeld subscribed)
        ∙ elim (Bool-cases (any (λ t. t.id == id) back)) [
          | inl there ↦ rw there (restored subscribed id there)
          | inr away ↦ rw away refl
        ]

  -- A Kharon with normal settings over the in-memory store never backs off: no poll fails.
  pub poll_round_succeeds :
      (settings : Settings) (time : ℤ) (subscribed now_subscribed : Subscriptions) (slowdown : ℕ)
      (k : Kharon Store) (d : ℤ)
      → IsNormal fl settings
      → Inv k.store
      → (poll_round ops settings time subscribed now_subscribed slowdown k).1 ≢ backs_off d
  unfolding poll_round distribute request_of
  poll_round_succeeds settings time subscribed now_subscribed slowdown k d normal v e =
      let req = request_of settings time (tubes_of subscribed) in
      ground (
        arith,
        normal,
        poll_eq fl sort_slice range sorting shuffle req k.store v (ground (arith, normal)),
      )
