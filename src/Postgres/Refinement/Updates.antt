-- ===== src/Postgres/Refinement/Updates.antt =====
-- One update of store/postgres beside one of store/memory.
use mathlib.Core.Option
use lymbo.Base.{
  String, ◌≡◌, ap, sym, ◌∙◌, ℤ, wrap16, none, some, Bool, true, false, ◌&&◌, ◌||◌, not, arith, ◌==◌,
  eq_iff, if◌then◌else◌, or_else, Option-cases, inl, inr, over, lookup, insert, lookup-insert,
  insert-IsMap, contains,
}
use lymbo.Errors.{ok}
use lymbo.Status.{Status, pending, is, is_terminal}
use lymbo.Ticket.{Floats, Ticket, UpdateSet}
use lymbo.Memory.{Store, blockers, update_one, runat_after, apply_update}
use lymbo.Memory.Preserve.{apply_update-Inv, sets_known}
use lymbo.Memory.Finalizers.{apply_update-waits}
use lymbo.Postgres.{Row}
use lymbo.Postgres.Batch.{statement_of}
use lymbo.Postgres.Sql.{Db, Server, is_final, unblocked, updated, touched, sql_set, sql_update}
use lymbo.Postgres.Plain.{set_columns}
use lymbo.Postgres.View.{Refines, waits, waits-unblocked, forget, seen, forget_row, seen_row}

-- An update without a backoff, of a defined status and a nice value that fits into its column.
pub record IsPlain (us : UpdateSet) : Type 0 where
  pub no_backoff : us.backoff ≡ none
  pub known : sets_known us ≡ true
  pub nice_fits : (n : ℤ) → us.nice ≡ some n → wrap16 n ≡ n

pub not_terminal : (st : Status) → is st pending ≡ true → is_terminal st ≡ false
not_terminal st h =
    ap (λ x. x == "done" || x == "failed" || x == "cancelled") ((eq_iff st.slug "pending").0 h)

module _ (fl : Floats) (sv : Server) (now : ℤ) (us : UpdateSet) (plain : IsPlain us) (db : Db)
    (s : Store) (v : Refines db s) where
  module _ (r : Row) (t : Ticket) (at : lookup us.id db.table ≡ some r)
      (held : lookup us.id s.entries ≡ some t)
      (exact : sv.accepts (set_columns us r) ≡ ok (set_columns us r)) where
    t' : Ticket
    t' = update_one fl now t us

    abbrev pub r' : Row
    r' = record {
      columns = touched sv r (record r.columns {
        status = or_else (Option.map (λ (st : Status). st.slug) us.status) r.columns.status;
        nice = or_else (Option.map wrap16 us.nice) r.columns.nice;
        runat = or_else us.runat r.columns.runat;
        payload = over us.payload r.columns.payload;
        error_reason = over us.error_reason r.columns.error_reason;
      });
      tube = or_else us.tube r.tube;
      group_id = over us.group_id r.group_id;
    }

    abbrev plain_row : Row
    plain_row = record {
      columns = record r.columns {
        status = or_else (Option.map (λ (st : Status). st.slug) us.status) r.columns.status;
        nice = or_else (Option.map wrap16 us.nice) r.columns.nice;
        runat = or_else us.runat r.columns.runat;
        payload = over us.payload r.columns.payload;
        error_reason = over us.error_reason r.columns.error_reason;
      };
      tube = or_else us.tube r.tube;
      group_id = over us.group_id r.group_id;
    }

    untouched : forget r' ≡ forget plain_row
    unfolding touched
    untouched = ground arith

    seen_same : forget r ≡ seen t
    seen_same = ground (arith, v.same us.id, at, held)

    new_status :
        or_else (Option.map (λ (st : Status). st.slug) us.status) r.columns.status
        ≡ (or_else us.status t.status).slug
    new_status = ground (arith, seen_same)

    new_nice : or_else (Option.map wrap16 us.nice) r.columns.nice ≡ or_else us.nice t.nice
    new_nice = elim (Option-cases us.nice) [
      | inl e ↦ ground (arith, e, seen_same)
      | inr (n, e) ↦ ground (arith, e, plain.nice_fits n e)
    ]

    row_updated : forget r' ≡ seen (update_one fl now t us)
    unfolding update_one runat_after
    row_updated = untouched ∙ ground (arith, new_status, new_nice, seen_same, plain.no_backoff)

    abbrev pub final : Bool
    final = is_final (Option.map (λ (st : Status). st.slug) us.status)

    abbrev pub db' : Db
    db' = record {
      table = insert us.id r' db.table;
      deps = if final then unblocked us.id db.deps else db.deps;
    }

    same_id : t.id ≡ us.id
    same_id = (v.inv.sound us.id t held).0

    pub sql_updated :
        sql_update fl sv (statement_of fl us.id us) db
        ≡ ok (
          db',
          some (record {
            id = r'.columns.id;
            type = r'.columns.type;
            tube = r'.tube;
            status = r'.columns.status;
          }),
        )
    unfolding sql_update statement_of sql_set updated
    sql_updated = ground (arith, plain.no_backoff, at, exact)

    waits_left :
        (f b : String) → waits f b db'.deps ≡ (not (final && us.id == b) && waits f b db.deps)
    waits_left f b = ground (arith, waits-unblocked f b us.id db.deps)

    terminal_waits :
        (f b : String)
        → (not (is_terminal (update_one fl now t us).status && t.id == b)
            && contains b (blockers f s.deps))
          ≡ (not (final && us.id == b) && contains b (blockers f s.deps))
    unfolding update_one
    terminal_waits f b =
        ground (arith, v.inv.waits f us.id, held, same_id, eq_iff us.id b, not_terminal t.status)

    entries_updated :
        (apply_update fl now t us s).entries ≡ insert us.id (update_one fl now t us) s.entries
    unfolding apply_update update_one
    entries_updated = ap (λ id. insert id (update_one fl now t us) s.entries) same_id

    same_updated :
        (id : String)
        → forget_row (lookup id (insert us.id r' db.table))
          ≡ seen_row (lookup id (insert us.id (update_one fl now t us) s.entries))
    same_updated id = ground (
      arith,
      row_updated,
      lookup-insert us.id id r' db.table,
      lookup-insert us.id id (update_one fl now t us) s.entries,
      v.same id,
    )

    pub step-Refines : Refines db' (apply_update fl now t us s)
    step-Refines = record {
      inv = apply_update-Inv fl now t us s v.inv held plain.known;
      table_map = insert-IsMap us.id r' db.table v.table_map;
      same = λ id. same_updated id ∙ ap (λ m. seen_row (lookup id m)) (sym entries_updated);
      linked = λ f b.
          waits_left f b
          ∙ ap (λ w. not (final && us.id == b) && w) (v.linked f b)
          ∙ sym (terminal_waits f b)
          ∙ sym (apply_update-waits fl now t us s f b);
      keys =
          λ f b h. ground (arith, h, waits_left f b, lookup-insert us.id f r' db.table, v.keys f b);
    }
