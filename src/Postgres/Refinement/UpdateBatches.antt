-- ===== src/Postgres/Refinement/UpdateBatches.antt =====
-- UpdateBatch of store/postgres beside that of store/memory.
use lymbo.Base.{
  Bool, insert, String, ◌≡◌, refl, ap, sym, subst, ℤ, List, [], ◌∷◌, map, Option, none, some, true,
  arith, Option-cases, inl, inr, lookup, lookup-insert, test_at,
}
use lymbo.Errors.{Result, ok, err}
use lymbo.Ticket.{Floats, Ticket, UpdateSet, TransitionInfo, info_of}
use lymbo.Memory
use lymbo.Memory.{Store, blockers, update_one, runat_after, apply_update, unblock}
use lymbo.Postgres.Plain.{set_columns, set_row}
use lymbo.Postgres.{Columns, Row, Updated, Results, Statement}
use lymbo.Postgres.Batch
use lymbo.Postgres.Batch.{statement_of, statements_of, read_results, updated_info}
use lymbo.Postgres.Sql.{Table, touched, Db, Server, sql_update, sql_batch}
use lymbo.Postgres.Sql.Poll.{sql}
use lymbo.Postgres.View.{Refines}
use lymbo.Postgres.Refinement.Updates.{IsPlain, sql_updated, step-Refines}

-- Updates that are plain, each with the time at which it is made, of stored tickets under ids in their
-- usual form.
abbrev pub AllPlain : (String → Option String) → Store → List (ℤ × UpdateSet) → Type 0
AllPlain parse s [] = Unit {0}
AllPlain parse s ((now, us) ∷ updates) =
    IsPlain us
    × (parse us.id ≡ some us.id)
    × (test_at us.id (λ _. true) s.entries ≡ true)
    × AllPlain parse s updates

stays :
    (fl : Floats) (now : ℤ) (t : Ticket) (us : UpdateSet) (s : Store) (k : String)
    → test_at k (λ _. true) s.entries ≡ true
    → test_at k (λ _. true) (apply_update fl now t us s).entries ≡ true
unfolding apply_update update_one
stays fl now t us s k h = ground (arith, lookup-insert t.id k (update_one fl now t us) s.entries)

AllPlain-after :
    (fl : Floats) (parse : String → Option String) (now : ℤ) (t : Ticket) (us : UpdateSet)
    (s : Store) (updates : List (ℤ × UpdateSet))
    → AllPlain parse s updates
    → AllPlain parse (apply_update fl now t us s) updates
AllPlain-after fl parse now t us s [] h = tt
AllPlain-after fl parse now t us s ((later, next) ∷ updates) h =
    (h.0, h.1, stays fl now t us s next.id h.2, AllPlain-after fl parse now t us s updates h.3)

abbrev statements : Floats → List (ℤ × UpdateSet) → List Statement
statements fl [] = []
statements fl ((now, us) ∷ updates) = statement_of fl us.id us ∷ statements fl updates

-- Which columns the server stores as they are: those that `keeps` accepts, to which the trigger's mtime
-- makes no difference.
pub record Keeps (sv : Server) (keeps : Columns → Bool) : Type 0 where
  pub exact : (c : Columns) → keeps c ≡ true → sv.accepts c ≡ ok c
  pub triggered : (r : Row) (c : Columns) → keeps c ≡ true → keeps (touched sv r c) ≡ true

-- The rows of a table, and what updates write over them.
abbrev pub RowsKept : (Columns → Bool) → Table → Type 0
RowsKept keeps table = (k : String) (r : Row) → lookup k table ≡ some r → keeps r.columns ≡ true

abbrev pub WritesKept : (Columns → Bool) → List (ℤ × UpdateSet) → Type 0
WritesKept keeps [] = Unit {0}
WritesKept keeps ((now, us) ∷ updates) =
    ((r : Row) → keeps r.columns ≡ true → keeps (set_columns us r) ≡ true)
    × WritesKept keeps updates

module _ (fl : Floats) (sv : Server) (keeps : Columns → Bool) (keeping : Keeps sv keeps)
    (parse : String → Option String) where
  RowsKept-after :
      (k : String) (r : Row) (table : Table)
      → keeps r.columns ≡ true
      → RowsKept keeps table
      → RowsKept keeps (insert k r table)
  RowsKept-after k r table h kept j q e = ground (arith, lookup-insert k j r table, e, kept j q, h)

  -- What a batch of plain updates comes to.
  abbrev pub Applied : Results Db → List (ℤ × UpdateSet) → Store → Type 0
  Applied sent updates s =
      Refines sent.after (Memory.update_batch fl updates s).0
      × ((read_results sent.results sent.closed).1 ≡ none)
      × ((infos : List TransitionInfo) × ((Memory.update_batch fl updates s).1 ≡ ok infos))

  batch_none :
      (start db : Db) (s : Store) → Refines db s → Applied (sql_batch fl sv [] start db) [] s
  unfolding sql_batch read_results Memory.update_batch
  batch_none start db s v = (v, refl, ([], refl))

  batch_head :
      (q : Statement) (qs : List Statement) (start db after : Db) (u : Updated)
      → sql_update fl sv q db ≡ ok (after, some u)
      → let rest = sql_batch fl sv qs start after in
        sql_batch fl sv (q ∷ qs) start db ≡ record rest { results = ok u ∷ rest.results }
  unfolding sql_batch
  batch_head q qs start db after u e = ground arith

  abbrev with_info : TransitionInfo → Result (List TransitionInfo) → Result (List TransitionInfo)
  with_info info r = elim r [ err e ↦ err e | ok infos ↦ ok (info ∷ infos) ]

  store_head :
      (now : ℤ) (us : UpdateSet) (updates : List (ℤ × UpdateSet)) (t : Ticket) (s : Store)
      → lookup us.id s.entries ≡ some t
      → let rest = Memory.update_batch fl updates (apply_update fl now t us s) in
        Memory.update_batch fl ((now, us) ∷ updates) s
        ≡ (rest.0, with_info (info_of (update_one fl now t us)) rest.1)
  unfolding Memory.update_batch
  store_head now us updates t s e = ground arith

  batch-Applied :
      (updates : List (ℤ × UpdateSet)) (start db : Db) (s : Store)
      → Refines db s
      → AllPlain parse s updates
      → RowsKept keeps db.table
      → WritesKept keeps updates
      → Applied (sql_batch fl sv (statements fl updates) start db) updates s
  unfolding read_results
  batch-Applied [] start db s v plain rows writes = batch_none start db s v
  batch-Applied ((now, us) ∷ updates) start db s v plain rows writes =
      elim (Option-cases (lookup us.id s.entries)) [
        | inl gone ↦ absurd (ground (arith, plain.2, gone))
        | inr (t, held) ↦ elim (Option-cases (lookup us.id db.table)) [
          | inl gone ↦ absurd (ground (arith, v.same us.id, gone, held))
          | inr (r, at) ↦
              let fits = writes.0 r (rows us.id r at) in
              let exact = keeping.exact (set_columns us r) fits in
              let next = step-Refines fl sv now us plain.0 db s v r t at held exact in
              let q = sql_updated fl sv now us plain.0 db s v r t at held exact in
              let (same, fine, (infos, e)) =
                batch-Applied updates start _ (apply_update fl now t us s) next
                  (AllPlain-after fl parse now t us s updates plain.3)
                  (RowsKept-after us.id (set_row sv us r) db.table
                    (keeping.triggered r (set_columns us r) fits) rows)
                  writes.1 in
              rw
                (
                  batch_head _ (statements fl updates) start db _ _ q,
                  store_head now us updates t s held,
                )
                (
                  same,
                  fine,
                  (
                    info_of (update_one fl now t us) ∷ infos,
                    ap (with_info (info_of (update_one fl now t us))) e,
                  ),
                )
        ]
      ]

  -- UpdateBatch, through the parsing of its ids.
  statements_of-statements :
      (updates : List (ℤ × UpdateSet)) (s : Store)
      → AllPlain parse s updates
      → statements_of parse (sql fl sv) fl (map (λ u. u.1) updates) ≡ ok (statements fl updates)
  unfolding statements_of
  statements_of-statements [] s h = refl
  statements_of-statements ((now, us) ∷ updates) s h =
      ground (arith, h.1, statements_of-statements updates s h.3)

  update_batch_sent :
      (us : UpdateSet) (updates : List UpdateSet) (qs : List Statement) (db : Db)
      → statements_of parse (sql fl sv) fl (us ∷ updates) ≡ ok qs
      → let sent = sql_batch fl sv qs db db in
        let read = read_results sent.results sent.closed in
        Batch.update_batch parse (sql fl sv) fl (us ∷ updates) db ≡ (sent.after, read.0, read.1)
  unfolding Batch.update_batch
  update_batch_sent us updates qs db e = ground arith

  store_none : (s : Store) → Memory.update_batch fl [] s ≡ (s, ok [])
  unfolding Memory.update_batch
  store_none s = refl

  -- Where the tables stand for an in-memory store, and the server stores the columns of the rows, and
  -- what the updates write over them, as they are: UpdateBatch
  -- of updates of stored tickets under ids in their usual form, which set no backoff, defined statuses
  -- and nice values that fit into their column, leaves tables that stand for the store that the
  -- in-memory UpdateBatch leaves, whatever its clock shows, and both report no error.
  pub update_batch-Refines :
      (updates : List (ℤ × UpdateSet)) (db : Db) (s : Store)
      → Refines db s
      → AllPlain parse s updates
      → RowsKept keeps db.table
      → WritesKept keeps updates
      → let sent = Batch.update_batch parse (sql fl sv) fl (map (λ u. u.1) updates) db in
        Refines sent.0 (Memory.update_batch fl updates s).0
        × (sent.2 ≡ none)
        × ((infos : List TransitionInfo) × ((Memory.update_batch fl updates s).1 ≡ ok infos))
  unfolding Batch.update_batch
  update_batch-Refines [] db s v plain rows writes = (
    subst (Refines db) (sym (ap (λ (w : Store × Result (List TransitionInfo)). w.0) (store_none s)))
        v,
    refl,
    ([], ap (λ (w : Store × Result (List TransitionInfo)). w.1) (store_none s)),
  )
  update_batch-Refines (u ∷ updates) db s v plain rows writes =
      let parsed = statements_of-statements (u ∷ updates) s plain in
      rw (update_batch_sent u.1 (map (λ w. w.1) updates) (statements fl (u ∷ updates)) db parsed)
        (batch-Applied (u ∷ updates) db db s v plain rows writes)
