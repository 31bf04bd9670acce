-- ===== src/Postgres/Refinement/Expired.antt =====
-- ExpireTickets of store/postgres beside that of store/memory.
use lymbo.Base.{
  take_all, ℕ, ◌^◌, ◌<◌, ◌≤◌, ◌≡◌, refl, ap, ◌∙◌, String, ℤ, pos, eqb_ℤ, wrap32_lem, List, [], ◌∷◌,
  map, Option, none, some, Bool, true, false, ◌&&◌, arith, ◌==◌, eq_iff, if◌then◌else◌, any,
  any-perm, take, length, length-perm, lookup, contains, IsMap, test_at, Option-cases, Bool-cases,
  inl, inr, Perm,
}
use lymbo.Errors.{ok}
use lymbo.Ticket.{Floats}
use lymbo.Memory
use lymbo.Memory.{Tickets, Store, is_expired, expire_tickets}
use lymbo.Memory.Expire.{
  expire_tickets-Inv, expire_tickets_complete, expire_tickets_safe, expire_tickets_count,
  expire_tickets_none,
}
use lymbo.Postgres.{Row}
use lymbo.Postgres.Batch
use lymbo.Postgres.Batch.{deletion}
use lymbo.Postgres.Expiry.{any-rows, length-rows}
use lymbo.Postgres.Refinement.Deletion.{lookup-without_ids, without_ids-IsMap}
use lymbo.Postgres.Sql.{returned, Table, Pairs, Db, Server, mentioned, taken, without_ids}
use lymbo.Postgres.Sql.Poll.{is_over, sql_expire, sql}
use lymbo.Postgres.View.{waits, Refines}

contains-any : (k : String) (xs : List String) → contains k xs ≡ any (λ x. x == k) xs
unfolding contains any
contains-any k [] = refl
contains-any k (x ∷ xs) = ground (arith, contains-any k xs)

-- A test that holds of no row that is looked up holds of no entry.
any_none :
    (test : Row → Bool) (table : Table)
    → IsMap table
    → ((k : String) (r : Row) → lookup k table ≡ some r → test r ≡ false)
    → any (λ e. test e.1) table ≡ false
unfolding any lookup
any_none test [] m h = refl
any_none test ((j, r) ∷ table) m h = ground (
  arith,
  h j r,
  eq_iff j j,
  any_none test table m.1 (λ k q e. h k q (ground (arith, e, eq_iff j k, m.0))),
)

-- Among rows that stand under their ids, those with one id are the one that is looked up.
any_at :
    (p : Row → Bool) (k : String) (table : Table)
    → IsMap table
    → ((j : String) (r : Row) → lookup j table ≡ some r → r.columns.id ≡ j)
    → any (λ e. p e.1 && e.1.columns.id == k) table ≡ test_at k p table
unfolding any lookup
any_at p k [] m own = refl
any_at p k ((j, r) ∷ table) m own = ground (
  arith,
  own j r,
  eq_iff j j,
  eq_iff j k,
  m.0,
  any_at p k table m.1 (λ i q e. own i q (ground (arith, e, eq_iff j i, m.0))),
)

-- A row and the ticket that it stands for are over at the same time.
over_expired :
    (now : ℤ) (k : String) (db : Db) (s : Store)
    → Refines db s
    → test_at k (is_over now) db.table ≡ test_at k (is_expired now) s.entries
unfolding is_over is_expired
over_expired now k db s v = ground (arith, v.same k)

own_id :
    (db : Db) (s : Store)
    → Refines db s
    → (k : String) (r : Row) → lookup k db.table ≡ some r
    → r.columns.id ≡ k
own_id db s v k r e = elim (Option-cases (lookup k s.entries)) [
  | inl gone ↦ absurd (ground (arith, v.same k, e, gone))
  | inr (t, at) ↦ ground (arith, v.same k, e, at, (v.inv.sound k t at).0)
]

waits_mention : (f b : String) (deps : Pairs) → waits f b deps ≡ true → mentioned f deps ≡ true
unfolding waits mentioned any
waits_mention f b [] h = ground arith
waits_mention f b (d ∷ deps) h = ground (arith, waits_mention f b deps)

module _ (sv : Server) (visits : (table : Table) → Perm (sv.scan table) table) (now : ℤ) (n : ℕ)
    (db : Db) (s : Store) (v : Refines db s) (few : length db.table ≤ n)
    (free : (k : String) (r : Row)
      → lookup k db.table ≡ some r
      → is_over now r ≡ true
      → mentioned k db.deps ≡ false) where
  abbrev over : List Row
  over = taken sv (λ id r. is_over now r) db.table

  abbrev ids : List String
  ids = map (λ r. r.columns.id) over

  abbrev left : Db
  left = record db { table = without_ids ids db.table }

  contains_over : (k : String) → contains k ids ≡ test_at k (is_over now) db.table
  unfolding taken
  contains_over k =
      contains-any k ids
      ∙ any-rows (λ e. is_over now e.1) (λ x. x == k) (sv.scan db.table)
      ∙ any-perm (λ e. is_over now e.1 && e.1.columns.id == k) (visits db.table)
      ∙ any_at (is_over now) k db.table v.table_map (own_id db s v)

  none_mentioned : any (λ id. mentioned id db.deps) ids ≡ false
  unfolding taken
  none_mentioned =
      any-rows (λ e. is_over now e.1) (λ x. mentioned x db.deps) (sv.scan db.table)
      ∙ any-perm (λ e. is_over now e.1 && mentioned e.1.columns.id db.deps) (visits db.table)
      ∙ any_none (λ r. is_over now r && mentioned r.columns.id db.deps) db.table v.table_map
          (λ k r e. ground (arith, free k r e, own_id db s v k r e))

  all_over : take n over ≡ over
  unfolding taken
  all_over = take_all n over (
      omega (
        arith,
        few,
        length-rows (λ e. is_over now e.1) (sv.scan db.table),
        length-perm (visits db.table),
      ))

  statement :
      sql_expire sv now (pos n) db ≡ ok (left, record { rows = map returned over; broken = none })
  unfolding sql_expire
  statement = rw all_over (rw none_mentioned (ground arith))

  waiter_stays : (f b : String) → waits f b db.deps ≡ true → contains f ids ≡ false
  waiter_stays f b h = elim (Option-cases (lookup f db.table)) [
    | inl gone ↦ ground (arith, contains_over f, gone)
    | inr (r, e) ↦ elim (Bool-cases (is_over now r)) [
      | inl old ↦ absurd (ground (arith, free f r e old, waits_mention f b db.deps h))
      | inr young ↦ ground (arith, contains_over f, e, young)
    ]
  ]

  -- Which tickets the in-memory store has left.
  module _ (range : Tickets → Tickets) (shuffle : (m : Tickets) → Perm (range m) m)
      (room : length s.entries < n) where
    abbrev after : Store
    after = (expire_tickets range (pos n) now s).0

    not_full : eqb_ℤ (pos (length (expire_tickets range (pos n) now s).1)) (pos n) ≡ false
    not_full = ground (arith, room, expire_tickets_count range shuffle (pos n) now s v.inv)

    lookup-after :
        (k : String)
        → lookup k after.entries
          ≡ (if test_at k (is_expired now) s.entries then none else lookup k s.entries)
    lookup-after k = elim (Option-cases (lookup k s.entries)) [
      | inl gone ↦ ground (arith, gone, expire_tickets_none range (pos n) now s k gone)
      | inr (t, e) ↦ elim (Bool-cases (is_expired now t)) [
        | inl old ↦ ground (
          arith,
          e,
          old,
          expire_tickets_complete range (pos n) now s shuffle v.inv.entries_map k t e old not_full,
        )
        | inr young ↦
            ground
              (arith, e, young, expire_tickets_safe range shuffle (pos n) now s v.inv k t e young)
      ]
    ]

    left-Refines : Refines left after
    unfolding expire_tickets
    left-Refines = record {
      inv = expire_tickets-Inv range shuffle (pos n) now s v.inv;
      table_map = without_ids-IsMap ids db.table v.table_map;
      same = λ k. ground (
        arith,
        lookup-without_ids ids k db.table,
        contains_over k,
        over_expired now k db s v,
        lookup-after k,
        v.same k,
      );
      linked = v.linked;
      keys = λ f b h.
          ground (arith, h, v.keys f b h, waiter_stays f b h, lookup-without_ids ids f db.table);
    }

    -- Where the tables stand for an in-memory store, with fewer tickets than the limit, no expired
    -- row is mentioned in the second table, and both sides visit each entry once: ExpireTickets of
    -- PostgreSQL leaves tables that stand for the store which the in-memory ExpireTickets leaves,
    -- and reports no error.
    pub expire_tickets-Refines :
        (fl : Floats) (parse : String → Option String)
        → n < 2 ^ 31
        → let r = Batch.expire_tickets parse (sql fl sv) (pos n) now db in
          Refines r.0 (Memory.expire_tickets range (pos n) now s).0 × (r.2 ≡ none)
    unfolding Batch.expire_tickets
    expire_tickets-Refines fl parse small =
        let made : Batch.expire_tickets parse (sql fl sv) (pos n) now db
            ≡ deletion db (ok (left, record { rows = map returned over; broken = none })) =
          ap (λ l. deletion db (sql_expire sv now l db))
            (wrap32_lem (pos n) (omega arith) (omega (arith, small)))
          ∙ ap (deletion db) statement in
        rw made (left-Refines, refl)
