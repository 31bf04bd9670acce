-- ===== src/Postgres/Refinement.antt =====
-- When a ticket has the same form in the tables of store/postgres and in store/memory; the children
-- compare the operations of the two.
pub mod Deletion
pub mod Expired
pub mod Groups
pub mod Due
pub mod Handout
pub mod Totals
pub mod Updates
pub mod UpdateBatches
use lymbo.Base.{
  ℕ, String, ◌≡◌, ◌≢◌, refl, inl, inr, ◌⊎◌, ap, sym, subst, ◌∙◌, ℤ, pos, negsuc, ◌≤ℤ◌, ◌-◌, ◌^◌,
  wrap16, wrap16_lem, wrap32, wrap32_lem, List, [], ◌∷◌, ◌++◌, Option, none, some, Bool, true,
  false, ◌&&◌, ◌||◌, not, arith, ◌==◌, eq_iff, any, select, lookup, insert, remove, contains, IsMap,
  test_at, any-test_at, any-perm, Perm, lookup-insert, lookup-remove, insert-IsMap, remove-IsMap,
  if◌then◌else◌,
}
use lymbo.Errors.{Result, ok, err}
use lymbo.Status.{pending, is, is_known}
use lymbo.Ticket.{Floats, Ticket}
use lymbo.Memory.{Store, Tickets, blockers, is_pending_member}
use lymbo.Memory
use lymbo.Memory.Invariant.{Inv}
use lymbo.Memory.Deps.{blockers-wire-map}
use lymbo.Memory.Preserve.{put_after_group-Inv, delete_batch-Inv, put-Inv}
use lymbo.Memory.Erasure.{WaitersStored, lookup-delete_batch, blockers-delete_batch}
use lymbo.Postgres.{Columns, Row, row_of, or_default, Queries}
use lymbo.Postgres
use lymbo.Postgres.Batch.{ids_of, deletion}
use lymbo.Postgres.Batch
use lymbo.Postgres.Sql.{
  Table, Pairs, Db, Server, in_group, waits_for, sql_put, sql_put_after_group, sql_delete_batch,
  without_ids,
}
use lymbo.Postgres.Sql.Poll.{sql}
use lymbo.Postgres.View.{
  forget, seen, forget_row, seen_row, waits, Refines, waits-append, waits-waits_for,
  waits-erase_all, in_group-member,
}

-- What a ticket must be for its row to hold it: its id is a UUID in the usual form, it has a tube and
-- is pending, its numbers fit into their columns, and the server stores its columns as they are.
pub record Fits (sv : Server) (parse : String → Option String) (t : Ticket) : Type 0 where
  pub usual : parse t.id ≡ some t.id
  pub named : (t.id == "") ≡ false
  pub in_tube : (t.tube == "") ≡ false
  pub is_pending : t.status ≡ pending
  pub nice_fits : (negsuc (2 ^ 15 - 1) ≤ℤ t.nice) × (t.nice ≤ℤ pos (2 ^ 15 - 1))
  pub attempts_fit : (negsuc (2 ^ 31 - 1) ≤ℤ t.attempts) × (t.attempts ≤ℤ pos (2 ^ 31 - 1))
  pub stored :
      sv.accepts (row_of t.id t.tube t.group_id t).columns
      ≡ ok (row_of t.id t.tube t.group_id t).columns

pub forget-row_of :
    (sv : Server) (parse : String → Option String) (t : Ticket)
    → Fits sv parse t
    → forget (row_of t.id t.tube t.group_id t) ≡ seen t
unfolding row_of
forget-row_of sv parse t h =
    rw
      (
        wrap16_lem t.nice h.nice_fits.0 h.nice_fits.1,
        wrap32_lem t.attempts h.attempts_fit.0 h.attempts_fit.1,
      )
      refl
