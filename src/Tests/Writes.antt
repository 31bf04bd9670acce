-- ===== src/Tests/Writes.antt =====
-- Runs of the in-memory store's other operations, and of its expiration.
use lymbo.Base.{
  false, all, String, ◌≡◌, refl, ◌≢◌, ℤ, pos, leb_ℤ, List, [], ◌∷◌, ◌++◌, none, some, ◌&&◌, ◌||◌,
  not, arith, ◌==◌, eq_iff, all, lookup, insert, contains, test_at,
}
use lymbo.Errors.{ok, err, ticket_not_found}
use lymbo.Status.{pending, done, is}
use lymbo.Ticket.{Ticket, UpdateSet, TransitionInfo, info_of}
use lymbo.Memory.{
  delete_batch, Store, put, put_after_group, update_one, update_batch, apply_update, blockers,
  is_pending_member, wire, with, unblock, runat_after, is_expired,
}
use lymbo.Memory.Polling.{is_due}
use lymbo.Memory.Invariant.{Inv}
use lymbo.Memory.Preserve.{update_batch-Inv}
use lymbo.Memory.Finalizers.{put_after_group-waits}
use lymbo.Memory.Erasure.{WaitersStored}
use lymbo.Memory.Release.{delete_batch_releases}
use lymbo.Memory.Batches.{update_each, update_batch_missing}
use lymbo.Expirer.{run_expiration}
use lymbo.Expirer.Clearing.{memory_expire_ops, run_expiration_clears}
use lymbo.Tests.Fixtures.{
  floats, in_order, in_order-perm, two-Inv, member, finalizer, one, two, one-Inv, request,
  no_update,
}

named : finalizer.id ≢ ""
named h = ground (arith, eq_iff "f" "")

put_after_group-waits_example :
    let (s', r) = put_after_group in_order finalizer "g" one in
    (r ≡ ok tt)
    × (s'.entries ≡ insert "f" finalizer one.entries)
    × ((f b : String)
        → contains b (blockers f s'.deps) ≡ (
            contains b (blockers f one.deps)
            || ("f" == f
                && not (b == "f")
                && test_at b
                    (λ u.
                      u.status.slug == "pending"
                      && elim u.group_id [ none ↦ false | some g ↦ g == "g" ])
                    one.entries)))
unfolding put lookup insert
put_after_group-waits_example =
    put_after_group-waits in_order finalizer "g" one in_order-perm one-Inv.entries_map named refl

two-WaitersStored : WaitersStored two
unfolding put put_after_group wire with blockers is_pending_member lookup insert contains
two-WaitersStored f b h = ground (arith, h, eq_iff "f" f)

-- The member, for which the finalizer waits, is deleted.
delete_batch_releases_example :
    (lookup "f" (delete_batch ("m" ∷ []) two).0.entries ≡ some finalizer)
    × (is_due (request (pos 10)) (delete_batch ("m" ∷ []) two).0 finalizer ≡ (
        is finalizer.status pending
        && leb_ℤ (pos 3) (pos 10)
        && contains "mail" ("mail" ∷ [])
        && all (λ b. contains b ("m" ∷ [])) (blockers "f" two.deps)))
unfolding put put_after_group lookup insert contains
delete_batch_releases_example =
    delete_batch_releases ("m" ∷ []) two two-Inv two-WaitersStored finalizer refl (request (pos 10))
      refl

-- The member is done.
abbrev finish : UpdateSet
finish = record (no_update "m") { status = some done }

-- The member is done and then restarted; a third update names a ticket that is not there.
abbrev updates : List (ℤ × UpdateSet)
updates = (pos 10, finish) ∷ (pos 11, record (no_update "m") { status = some pending }) ∷ []

abbrev stray : UpdateSet
stray = no_update "x"

abbrev restarted : Store
restarted = (update_batch floats updates two).0

abbrev infos : List TransitionInfo
infos = info_of (record member { status = done }) ∷ info_of member ∷ []

updated : update_each floats updates two ≡ some (restarted, infos)
unfolding update_each update_batch apply_update update_one runat_after unblock put put_after_group
    wire with blockers is_pending_member lookup insert contains
updated = refl

update_batch_missing_example :
    update_batch floats (updates ++ (pos 12, stray) ∷ updates) two
    ≡ (restarted, err ticket_not_found)
unfolding update_each update_batch apply_update update_one runat_after unblock put put_after_group
    wire with blockers is_pending_member lookup insert contains
update_batch_missing_example =
    update_batch_missing floats updates updates (pos 12) stray two restarted infos updated refl

-- The member is done and expires at the time 5.
abbrev finished : Store
finished = (update_batch floats ((pos 10, finish) ∷ []) two).0

finished-Inv : Inv finished
unfolding all
finished-Inv = update_batch-Inv floats ((pos 10, finish) ∷ []) two refl two-Inv

abbrev done_member : Ticket
done_member = record member { status = done }

-- The member has ended at 5; the finalizer is pending. Both ticks come after that.
run_expiration_clears_example :
    let after = run_expiration (memory_expire_ops in_order) (pos 10 ∷ pos 20 ∷ []) finished in
    (lookup "m" after.entries ≡ none) × (lookup "f" after.entries ≡ some finalizer)
unfolding update_batch apply_update update_one runat_after unblock put put_after_group wire with
    blockers is_pending_member lookup insert is_expired all
run_expiration_clears_example =
    run_expiration_clears in_order in_order-perm (pos 10) (pos 20) (pos 10 ∷ pos 20 ∷ []) finished
      finished-Inv refl refl (omega arith) "m" done_member refl refl refl "f" finalizer refl refl
