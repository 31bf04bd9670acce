-- ===== src/Postgres/Ids.antt =====
-- What store/postgres does with an id that is not a UUID.
use lymbo.Base.{
  String, ◌≡◌, List, [], ◌∷◌, Option, none, some, true, any, contains, arith, ◌==◌, eq_iff,
}
use lymbo.Errors.{Result, err, ticket_id_invalid}
use lymbo.Ticket.{Floats, Ticket, UpdateSet}
use lymbo.Postgres.{Queries, get, put, delete, update, put_after_group}
use lymbo.Postgres.Batch.{ids_of, deletion, statements_of, delete_batch, update_batch}

module _ {D : Type 0} (parse : String → Option String) (queries : Queries D) (id : String)
    (invalid : parse id ≡ none) where
  ids_of_invalid :
      (ids : List String)
      → contains id ids ≡ true
      → ids_of parse queries ids ≡ err ticket_id_invalid
  unfolding ids_of contains
  ids_of_invalid [] h = ground arith
  ids_of_invalid (x ∷ ids) h = ground (arith, eq_iff x id, invalid, ids_of_invalid ids)

  statements_of_invalid :
      (fl : Floats) (updates : List UpdateSet)
      → any (λ us. us.id == id) updates ≡ true
      → statements_of parse queries fl updates ≡ err ticket_id_invalid
  unfolding statements_of any
  statements_of_invalid fl [] h = ground arith
  statements_of_invalid fl (us ∷ updates) h =
      ground (arith, eq_iff us.id id, invalid, statements_of_invalid fl updates)

  abbrev pub Refused : D → Type 0
  Refused db =
      (get parse queries id db ≡ err ticket_id_invalid)
      × (delete parse queries id db ≡ (db, err ticket_id_invalid))
      × ((fn : Ticket → Result Ticket)
          → update parse queries id fn db ≡ (db, err ticket_id_invalid))
      × ((t : Ticket) → t.id ≡ id → put parse queries t db ≡ (db, err ticket_id_invalid))
      × ((t : Ticket) (group : String)
          → t.id ≡ id
          → put_after_group parse queries t group db ≡ (db, err ticket_id_invalid))
      × ((ids : List String)
          → contains id ids ≡ true
          → delete_batch parse queries ids db ≡ (db, [], some ticket_id_invalid))
      × ((fl : Floats) (updates : List UpdateSet)
          → any (λ us. us.id == id) updates ≡ true
          → update_batch parse queries fl updates db ≡ (db, [], some ticket_id_invalid))

  delete_batch_invalid :
      (ids : List String) (db : D)
      → contains id ids ≡ true
      → delete_batch parse queries ids db ≡ (db, [], some ticket_id_invalid)
  unfolding delete_batch deletion contains
  delete_batch_invalid [] db h = ground arith
  delete_batch_invalid (x ∷ ids) db h = ground (arith, ids_of_invalid (x ∷ ids))

  update_batch_invalid :
      (fl : Floats) (updates : List UpdateSet) (db : D)
      → any (λ us. us.id == id) updates ≡ true
      → update_batch parse queries fl updates db ≡ (db, [], some ticket_id_invalid)
  unfolding update_batch any
  update_batch_invalid fl [] db h = ground arith
  update_batch_invalid fl (us ∷ updates) db h =
      ground (arith, statements_of_invalid fl (us ∷ updates))

  -- An id that is not a UUID is refused with ErrTicketIDInvalid by every operation that takes it, alone
  -- or among others, and the database stays as it is, whatever the statements would do.
  pub invalid_id : (db : D) → Refused db
  unfolding get put delete update put_after_group
  invalid_id db = (
    ground (arith, invalid),
    ground (arith, invalid),
    λ fn. ground (arith, invalid),
    λ t e. ground (arith, e, invalid),
    λ t group e. ground (arith, e, invalid),
    λ ids h. delete_batch_invalid ids db h,
    λ fl updates h. update_batch_invalid fl updates db h,
  )
