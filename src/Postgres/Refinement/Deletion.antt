-- ===== src/Postgres/Refinement/Deletion.antt =====
-- DeleteBatch of store/postgres beside that of store/memory.
use lymbo.Base.{
  String, ◌≡◌, ◌≢◌, refl, ap, sym, subst, List, [], ◌∷◌, Option, none, some, true, false, ◌&&◌,
  ◌||◌, not, arith, ◌==◌, eq_iff, any, select, lookup, remove, contains, IsMap, lookup-remove,
  remove-IsMap, if◌then◌else◌,
}
use lymbo.Errors.{Result, ok, err}
use lymbo.Ticket.{Floats}
use lymbo.Memory.{Store, Tickets, blockers, is_pending_member}
use lymbo.Memory
use lymbo.Memory.Deps.{blockers-remove_dep}
use lymbo.Memory.Preserve.{delete_batch-Inv, delete-Inv}
use lymbo.Memory.Erasure.{WaitersStored, lookup-delete_batch, blockers-delete_batch}
use lymbo.Postgres.{Columns, Row, row_of, or_default, Queries}
use lymbo.Postgres
use lymbo.Postgres.Batch.{ids_of, deletion}
use lymbo.Postgres.Batch
use lymbo.Postgres.Sql.{
  Table, Pairs, Db, Server, sql_delete_batch, without_ids, mentioned, foreign_key, sql_delete,
}
use lymbo.Postgres.Sql.Poll.{sql}
use lymbo.Postgres.View.{waits, Refines, waits-erase_all}

pub lookup-without_ids :
    (ids : List String) (k : String) (table : Table)
    → lookup k (without_ids ids table) ≡ (if contains k ids then none else lookup k table)
unfolding without_ids contains
lookup-without_ids [] k table = refl
lookup-without_ids (id ∷ ids) k table =
    ground (arith, lookup-remove id k table, lookup-without_ids ids k (remove id table))

pub without_ids-IsMap :
    (ids : List String) (table : Table) → IsMap table → IsMap (without_ids ids table)
unfolding without_ids
without_ids-IsMap [] table m = m
without_ids-IsMap (id ∷ ids) table m =
    without_ids-IsMap ids (remove id table) (remove-IsMap id table m)

Refines-WaitersStored : (db : Db) (s : Store) → Refines db s → WaitersStored s
Refines-WaitersStored db s v = λ f b h. ground (arith, v.linked f b, v.keys f b, v.same f)

-- No row of the second table is about a ticket that none mentions.
waits_mentioned :
    (f b id : String) (deps : Pairs)
    → mentioned id deps ≡ false
    → waits f b deps ≡ (not (id == f) && not (id == b) && waits f b deps)
unfolding waits mentioned any
waits_mentioned f b id [] h = ground arith
waits_mentioned f b id (d ∷ deps) h = ground (
  arith,
  eq_iff d.0 f,
  eq_iff d.1 b,
  eq_iff id f,
  eq_iff id b,
  eq_iff d.0 id,
  eq_iff d.1 id,
  waits_mentioned f b id deps,
)

module _ (fl : Floats) (sv : Server) (parse : String → Option String) (db : Db) (s : Store)
    (v : Refines db s) where
  unchanged : (Memory.delete_batch [] s).0 ≡ s
  unfolding Memory.delete_batch
  unchanged = refl

  abbrev erased : List String → Db
  erased ids = record {
    table = without_ids ids db.table;
    deps = select (λ d. not (contains d.0 ids || contains d.1 ids)) db.deps;
  }

  -- The statement deletes on both sides the same tickets and the same waits.
  erased-Refines : (ids : List String) → Refines (erased ids) (Memory.delete_batch ids s).0
  erased-Refines ids =
      let stored : WaitersStored s = Refines-WaitersStored db s v in
      record {
        inv = delete_batch-Inv ids s v.inv;
        table_map = without_ids-IsMap ids db.table v.table_map;
        same = λ id.
            ground
              (arith, lookup-without_ids ids id db.table, lookup-delete_batch ids id s, v.same id);
        linked = λ f b. ground (
          arith,
          waits-erase_all f b ids db.deps,
          blockers-delete_batch ids f b s v.inv stored,
          v.linked f b,
        );
        keys = λ f b h.
            ground (
              arith,
              waits-erase_all f b ids db.deps,
              lookup-without_ids ids f db.table,
              v.keys f b,
            );
      }

  -- Where the tables stand for an in-memory store: DeleteBatch of ids that are UUIDs in their usual form
  -- leaves tables that stand for the store that the in-memory DeleteBatch leaves, and reports no error.
  pub delete_batch-Refines :
      (ids : List String)
      → ids_of parse (sql fl sv) ids ≡ ok ids
      → Refines (Batch.delete_batch parse (sql fl sv) ids db).0 (Memory.delete_batch ids s).0
        × ((Batch.delete_batch parse (sql fl sv) ids db).2 ≡ none)
  unfolding Batch.delete_batch sql_delete_batch
  delete_batch-Refines [] h = (subst (Refines db) (sym unchanged) v, refl)
  delete_batch-Refines (id ∷ ids) h = rw h (erased-Refines (id ∷ ids), refl)

  removed-Refines :
      (id : String)
      → mentioned id db.deps ≡ false
      → Refines (record db { table = remove id db.table }) (Memory.delete id s).0
  unfolding Memory.delete
  removed-Refines id free = record {
    inv = delete-Inv id s v.inv;
    table_map = remove-IsMap id db.table v.table_map;
    same = λ k. ground (arith, lookup-remove id k db.table, lookup-remove id k s.entries, v.same k);
    linked = λ f b. ground (
      arith,
      waits_mentioned f b id db.deps free,
      blockers-remove_dep id f b s.deps,
      v.linked f b,
    );
    keys = λ f b h.
        ground
          (arith, h, waits_mentioned f b id db.deps free, lookup-remove id f db.table, v.keys f b);
  }

  delete_free :
      (id : String)
      → parse id ≡ some id
      → lookup id db.table ≢ none
      → mentioned id db.deps ≡ false
      → Postgres.delete parse (sql fl sv) id db ≡ (record db { table = remove id db.table }, ok tt)
  unfolding Postgres.delete sql_delete
  delete_free id p there free = ground arith

  delete_bound :
      (id : String)
      → parse id ≡ some id
      → lookup id db.table ≢ none
      → mentioned id db.deps ≡ true
      → Postgres.delete parse (sql fl sv) id db ≡ (db, err foreign_key)
  unfolding Postgres.delete sql_delete
  delete_bound id p there bound = ground arith

  -- Where the tables stand for an in-memory store, Delete of a stored ticket under an id in its usual
  -- form: where no row of the second table mentions it, the tables then stand for the store that the
  -- in-memory Delete leaves; where one does, PostgreSQL refuses and deletes nothing, while the
  -- in-memory Delete succeeds.
  pub delete-Refines :
      (id : String)
      → parse id ≡ some id
      → lookup id db.table ≢ none
      → (mentioned id db.deps ≡ false
          → Refines (Postgres.delete parse (sql fl sv) id db).0 (Memory.delete id s).0
            × ((Postgres.delete parse (sql fl sv) id db).1 ≡ ok tt))
        × (mentioned id db.deps ≡ true
            → (Postgres.delete parse (sql fl sv) id db ≡ (db, err foreign_key))
              × ((Memory.delete id s).1 ≡ ok tt))
  unfolding Memory.delete
  delete-Refines id p there = (
    λ free.
        let deleted = delete_free id p there free in
        (
          subst (λ (d : Db). Refines d (Memory.delete id s).0)
              (sym (ap (λ (w : Db × Result (Unit {0})). w.0) deleted)) (removed-Refines id free),
          ap (λ (w : Db × Result (Unit {0})). w.1) deleted,
        ),
    λ bound. (delete_bound id p there bound, refl),
  )
