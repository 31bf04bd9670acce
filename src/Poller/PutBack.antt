-- ===== src/Poller/PutBack.antt =====
-- That poll of kharon.go puts the tickets back that it must not dispatch.
use mathlib.Core.Option
use lymbo.Base.{
  String, ◌≡◌, refl, ℤ, List, [], ◌∷◌, map, some, not, arith, ◌==◌, eq_iff, if◌then◌else◌, select,
  any, contains, lookup, lookup-insert, Bool-cases, inl, inr,
}
use lymbo.Ticket.{Floats, Ticket}
use lymbo.Memory.{Tickets, Store, update_one, runat_after, apply_update, update_batch}
use lymbo.Poller.{put_back_of, sort_out}

-- Each polled ticket is either dispatched as it came, which the subscribed tubes decide, or put back;
-- both keep the order.
pub sort_out_lem :
    (tubes : List String) (ts : List Ticket)
    → sort_out tubes ts ≡ (
      select (λ t. contains t.tube tubes) ts,
      map put_back_of (select (λ t. not (contains t.tube tubes)) ts),
    )
unfolding sort_out select
sort_out_lem tubes [] = refl
sort_out_lem tubes (t ∷ ts) = ground (arith, sort_out_lem tubes ts)

-- Whether the store has the ticket, under an id at which `due` is its ready time.
abbrev pub IsHeld : (String → ℤ) → Tickets → Ticket → Type 0
IsHeld due m t = (t.ready_at ≡ due t.id) × ((u : Ticket) × (lookup t.id m ≡ some u) × (u.id ≡ t.id))

abbrev pub AllHeld : (String → ℤ) → Tickets → List Ticket → Type 0
AllHeld due m [] = Unit {0}
AllHeld due m (t ∷ ts) = IsHeld due m t × AllHeld due m ts

abbrev pub with_runat : ℤ → Ticket → Ticket
with_runat r u = record u { runat = r }

module _ (fl : Floats) (now : ℤ) (due : String → ℤ) where
  put_back-lookup :
      (t u : Ticket) (s : Store) (k : String)
      → lookup t.id s.entries ≡ some u
      → u.id ≡ t.id
      → t.ready_at ≡ due t.id
      → lookup k (apply_update fl now u (put_back_of t) s).entries ≡ (
          if t.id == k
          then Option.map (with_runat (due k)) (lookup k s.entries)
          else lookup k s.entries)
  unfolding apply_update update_one runat_after
  put_back-lookup t u s k found named ready =
      ground
        (arith, eq_iff t.id k, lookup-insert u.id k (update_one fl now u (put_back_of t)) s.entries)

  AllHeld-after :
      (t u : Ticket) (s : Store) (ts : List Ticket)
      → lookup t.id s.entries ≡ some u
      → u.id ≡ t.id
      → t.ready_at ≡ due t.id
      → AllHeld due s.entries ts
      → AllHeld due (apply_update fl now u (put_back_of t) s).entries ts
  AllHeld-after t u s [] found named ready h = tt
  AllHeld-after t u s (v ∷ ts) found named ready ((e, (w, f, n)), h) = (
    (
      e,
      elim (Bool-cases (t.id == v.id)) [
        | inl same ↦ (
          with_runat (due v.id) w,
          ground (arith, put_back-lookup t u s v.id found named ready),
          n,
        )
        | inr other ↦ (w, ground (arith, put_back-lookup t u s v.id found named ready), n)
      ],
    ),
    AllHeld-after t u s ts found named ready h,
  )

  -- Where the store has all of the tickets, to put them back sets the Runat of exactly these to their
  -- ready times and changes nothing else of any ticket.
  pub put_back-Runat :
      (ts : List Ticket) (s : Store) (k : String)
      → AllHeld due s.entries ts
      → lookup k (update_batch fl (map (λ t. (now, put_back_of t)) ts) s).0.entries ≡ (
          if any (λ t. t.id == k) ts
          then Option.map (with_runat (due k)) (lookup k s.entries)
          else lookup k s.entries)
  unfolding update_batch any
  put_back-Runat [] s k h = refl
  put_back-Runat (t ∷ ts) s k ((ready, (u, found, named)), h) =
      let s' = apply_update fl now u (put_back_of t) s in
      let ih = put_back-Runat ts s' k (AllHeld-after t u s ts found named ready h) in
      ground (arith, ih, put_back-lookup t u s k found named ready)
