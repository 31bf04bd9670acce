-- ===== src/Postgres/Refinement/Groups.antt =====
-- PutAfterGroup of store/postgres beside that of store/memory.
use lymbo.Base.{
  String, ◌≡◌, ◌≢◌, refl, inl, inr, ◌⊎◌, ap, sym, subst, ◌∙◌, ◌++◌, Option, none, some, ◌&&◌, ◌||◌,
  not, arith, ◌==◌, eq_iff, any, lookup, insert, contains, test_at, any-test_at, any-perm, Perm,
  lookup-insert, insert-IsMap,
}
use lymbo.Errors.{ok}
use lymbo.Status.{pending}
use lymbo.Ticket.{Floats, Ticket}
use lymbo.Memory.{Store, Tickets, blockers, is_pending_member}
use lymbo.Memory
use lymbo.Memory.Deps.{blockers-wire-map}
use lymbo.Memory.Preserve.{put_after_group-Inv}
use lymbo.Postgres.{Columns, Row, row_of, or_default, Queries}
use lymbo.Postgres
use lymbo.Postgres.Sql.{Table, Db, Server, in_group, waits_for, sql_put_after_group}
use lymbo.Postgres.Sql.Poll.{sql}
use lymbo.Postgres.View.{Refines, waits-append, waits-waits_for, in_group-member}
use lymbo.Postgres.Refinement.{Fits, forget-row_of}

none_or_not {ℓ} : {A : Type ℓ} (o : Option A) → (o ≡ none) ⊎ (o ≢ none)
none_or_not none = inl refl
none_or_not (some a) = inr (λ e. cc e)

module _ (fl : Floats) (sv : Server) (parse : String → Option String) (range : Tickets → Tickets)
    (db : Db) (s : Store) (v : Refines db s) (scan : (t : Table) → Perm (sv.scan t) t)
    (shuffle : (m : Tickets) → Perm (range m) m) where
  -- Who is a member, in whichever order the server visits the rows.
  members :
      (group b : String)
      → any (λ e. e.0 == b && in_group group e.1) (sv.scan db.table)
        ≡ test_at b (is_pending_member group) s.entries
  members group b =
      any-perm (λ e. e.0 == b && in_group group e.1) (scan db.table)
      ∙ any-test_at b (in_group group) db.table v.table_map
      ∙ in_group-member group b db s v

  module _ (t : Ticket) (group : String) (h : Fits sv parse t) where
    abbrev new_row : Row
    new_row = row_of t.id t.tube t.group_id t

    abbrev wired : Db
    wired = record {
      table = insert t.id new_row db.table;
      deps = db.deps ++ waits_for t.id group (sv.scan db.table);
    }

    abbrev wired_store : Store
    wired_store = (Memory.put_after_group range t group s).0

    entries_wired :
        lookup t.id s.entries ≡ none
        → wired_store.entries ≡ insert t.id (record t { status = pending }) s.entries
    unfolding Memory.put_after_group
    entries_wired absent = ground (arith, h.named)

    deps_wired :
        (f b : String)
        → lookup t.id s.entries ≡ none
        → contains b (blockers f wired_store.deps) ≡ (
            contains b (blockers f s.deps)
            || (t.id == f && not (b == t.id) && test_at b (is_pending_member group) s.entries))
    unfolding Memory.put_after_group
    deps_wired f b absent = ground (
      arith,
      h.named,
      eq_iff t.id b,
      eq_iff b t.id,
      lookup-insert t.id b (record t { status = pending }) s.entries,
      blockers-wire-map range t.id group f b (insert t.id (record t { status = pending }) s.entries)
          s.deps (shuffle (insert t.id (record t { status = pending }) s.entries))
          (insert-IsMap t.id (record t { status = pending }) s.entries v.inv.entries_map),
    )

    wired-Refines : lookup t.id s.entries ≡ none → Refines wired wired_store
    wired-Refines absent = record {
      inv = put_after_group-Inv range t group s shuffle v.inv;
      table_map = insert-IsMap t.id new_row db.table v.table_map;
      same = λ id. ground (
        arith,
        entries_wired absent,
        forget-row_of sv parse t h,
        h.is_pending,
        lookup-insert t.id id new_row db.table,
        lookup-insert t.id id (record t { status = pending }) s.entries,
        v.same id,
      );
      linked = λ f b. ground (
        arith,
        waits-append f b db.deps (waits_for t.id group (sv.scan db.table)),
        waits-waits_for f b t.id group (sv.scan db.table),
        members group b,
        deps_wired f b absent,
        v.linked f b,
      );
      keys = λ f b w. ground (
        arith,
        waits-append f b db.deps (waits_for t.id group (sv.scan db.table)),
        waits-waits_for f b t.id group (sv.scan db.table),
        lookup-insert t.id f new_row db.table,
        v.keys f b,
      );
    }

    put_new :
        lookup t.id db.table ≡ none
        → Postgres.put_after_group parse (sql fl sv) t group db ≡ (wired, ok tt)
    unfolding Postgres.put_after_group sql_put_after_group
    put_new absent = ground (arith, h.usual, h.in_tube, h.stored)

    put_old :
        lookup t.id db.table ≢ none
        → Postgres.put_after_group parse (sql fl sv) t group db ≡ (db, ok tt)
    unfolding Postgres.put_after_group sql_put_after_group
    put_old there = ground (arith, h.usual, h.in_tube, h.stored)

    store_old : lookup t.id s.entries ≢ none → Memory.put_after_group range t group s ≡ (s, ok tt)
    unfolding Memory.put_after_group
    store_old there = ground (arith, h.named)

    store_new : (Memory.put_after_group range t group s).1 ≡ ok tt
    unfolding Memory.put_after_group
    store_new = ground (arith, h.named)

    -- Where the tables stand for an in-memory store, and the server and the loops over the store visit
    -- each entry once: PutAfterGroup of a ticket that fits leaves tables that stand for the store that
    -- the in-memory PutAfterGroup leaves, whether the ticket was there or not, and both succeed.
    pub put_after_group-Refines :
        Refines (Postgres.put_after_group parse (sql fl sv) t group db).0 wired_store
        × ((Postgres.put_after_group parse (sql fl sv) t group db).1 ≡ ok tt)
        × ((Memory.put_after_group range t group s).1 ≡ ok tt)
    put_after_group-Refines = elim (none_or_not (lookup t.id s.entries)) [
      | inl absent ↦
          let new : Postgres.put_after_group parse (sql fl sv) t group db ≡ (wired, ok tt) =
            put_new (ground (arith, v.same t.id)) in
          (
            subst (λ d. Refines d wired_store) (sym (ap (λ r. r.0) new)) (wired-Refines absent),
            ap (λ r. r.1) new,
            store_new,
          )
      | inr there ↦
          let old : Postgres.put_after_group parse (sql fl sv) t group db ≡ (db, ok tt) =
            put_old (ground (arith, v.same t.id)) in
          let same : Memory.put_after_group range t group s ≡ (s, ok tt) = store_old there in
          (
            subst (λ d. Refines d wired_store) (sym (ap (λ r. r.0) old))
                (subst (Refines db) (sym (ap (λ r. r.0) same)) v),
            ap (λ r. r.1) old,
            store_new,
          )
    ]
