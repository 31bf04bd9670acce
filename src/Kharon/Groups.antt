-- ===== src/Kharon/Groups.antt =====
-- Groups of group.go over the in-memory store.
use lymbo.Base.{String, ◌≡◌, ◌↔◌, true, false, arith, test_at, IsMap}
use lymbo.Errors.{ok}
use lymbo.Memory
use lymbo.Memory.{Tickets, Store, is_pending_member}
use lymbo.Memory.Finalizers.{count_pending_in_group_lem}
use lymbo.Memory.History.{IsRange}
use lymbo.Kharon.{StoreOps, Kharon, pending_count, all_terminal}

-- The in-memory store as a store of a Kharon.
abbrev pub memory_ops : (Tickets → Tickets) → StoreOps Store
memory_ops range = record {
  put = Memory.put;
  put_after_group = Memory.put_after_group range;
  get = Memory.get;
  delete = Memory.delete;
  update = Memory.update;
  count_pending_in_group = λ group s. ok (Memory.count_pending_in_group range group s);
  expire_tickets =
      λ limit now s. let (s', infos) = Memory.expire_tickets range limit now s in (s', ok infos);
}

-- Where no key stands twice and the loop visits each entry once, AllTerminal of a group tells that
-- no stored ticket of the group is pending.
pub all_terminal_iff :
    (range : Tickets → Tickets) (id : String) (k : Kharon Store)
    → IsRange range
    → IsMap k.store.entries
    → (all_terminal (memory_ops range) id k ≡ ok true)
      ↔ ((i : String) → test_at i (is_pending_member id) k.store.entries ≡ false)
unfolding all_terminal pending_count
all_terminal_iff range id k shuffle m =
    let zero_iff = count_pending_in_group_lem range id k.store shuffle m in
    (λ h. zero_iff.0 (ground arith), λ h. ground (arith, zero_iff.1 h))
