-- ===== src/Postgres/Expiry.antt =====
-- The expiration of kharon.go over store/postgres: what rows that still refer to a ticket do to it.
use lymbo.Base.{
  ◌≤◌, ◌≡◌, refl, String, [], ◌∷◌, map, Option, none, some, Bool, true, ◌&&◌, arith, any, select,
  length, lookup, insert, Perm,
}
use lymbo.Errors.{ok, err}
use lymbo.Ticket.{Floats, UpdateSet}
use lymbo.Status.{Status}
use lymbo.Expirer.{ExpireOps}
use lymbo.Postgres.{Row, Queries}
use lymbo.Postgres.Batch
use lymbo.Postgres.Sql.{Table, Db, Server}
use lymbo.Postgres.Plain.{set_row, left_waits}
use lymbo.Postgres.Sql.Poll.{sql}

-- The errors of the store are only logged.
abbrev pub postgres_expire_ops : {D : Type 0} → (String → Option String) → Queries D → ExpireOps D
postgres_expire_ops parse queries = record {
  expire_tickets = λ limit now db.
      let (db', infos, failure) = Batch.expire_tickets parse queries limit now db in
      (db', elim failure [ none ↦ ok infos | some e ↦ err e ]);
}

module _ (p : String × Row → Bool) where
  pub any-rows :
      (q : String → Bool) (xs : Table)
      → any q (map (λ r. r.columns.id) (map (λ e. e.1) (select p xs)))
        ≡ any (λ e. p e && q e.1.columns.id) xs
  unfolding any select
  any-rows q [] = refl
  any-rows q (x ∷ xs) = ground (arith, any-rows q xs)

  pub length-rows :
      (xs : Table) → length (map (λ (e : String × Row). e.1) (select p xs)) ≤ length xs
  unfolding select
  length-rows [] = omega arith
  length-rows (x ∷ xs) = ground (arith, length-rows xs)

pub any-lookup :
    (test : Row → Bool) (k : String) (r : Row) (table : Table)
    → lookup k table ≡ some r
    → test r ≡ true
    → any (λ e. test e.1) table ≡ true
unfolding any lookup
any-lookup test k r [] e h = ground arith
any-lookup test k r ((j, q) ∷ table) e h = ground (arith, any-lookup test k r table)

module _ (fl : Floats) (sv : Server) (parse : String → Option String)
    (visits : (table : Table) → Perm (sv.scan table) table) where
  abbrev ops : ExpireOps Db
  ops = postgres_expire_ops parse (sql fl sv)

  module _ (us : UpdateSet) (r : Row) (db : Db) where
    abbrev db' : Db
    db' = record { table = insert us.id (set_row sv us r) db.table; deps = left_waits us db.deps }
